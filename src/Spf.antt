-- ===== src/Spf.antt =====
-- email/spf.js: the check of a sender against the SPF record of its domain, and email/plugins/spf.js,
-- which asks for it. DNS, the addresses and JavaScript's regular expression built from a record are
-- parameters.
pub mod Run
pub mod Net
pub mod Macros
pub mod Record
pub mod Chains
pub mod Mechanisms
pub mod MxCalls
pub mod Check
pub mod Clients
pub mod Levels
pub mod Decides
pub mod Endless
pub mod Expansion
pub mod Rounds
pub mod Exchanges
pub mod Arrival
pub mod Plugin
pub mod Hooks
pub mod Once
pub mod Tests
use companyly_microservices.Base.{ℕ, List, Text}
use companyly_microservices.Spf.Net.{Version}

-- The constants of the constructor.
pub data SpfResult : Type 0 where
  spf_none spf_pass spf_fail spf_softfail spf_neutral spf_temperror spf_permerror : SpfResult

-- The object, less its constants.
pub record Spf : Type 0 where
  pub helo : Text
  pub spf_record : Text
  pub count : ℕ
  pub been_there : List Text
  pub ip : Text
  pub ip_ver : Version
  pub ipaddr : Text
  pub domain : Text
  pub mail_from : Text
