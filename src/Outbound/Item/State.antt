-- ===== src/Outbound/Item/State.antt =====
-- A queued message of email/outbound/hmail.js, HMailItem, between its deliveries.
use companyly_microservices.Base.{ℕ, Bool, Option, List, Text}
use companyly_microservices.Outbound.Mx.{MxRecord}

-- The answer of a hook.
pub data Verdict : Type 0 where
  cont ok deny denysoft delay other : Verdict

-- The DSN that is noted on every recipient, with the code where one is given.
pub data Dsn : Type 0 where
  addr_bad_dest_system : Text → Option ℕ → Dsn
  addr_unspecified : Text → Dsn
  sys_unspecified : Text → Dsn

-- What happens outside, by calls and hooks. `requeue` renames the file by the time that the delay
-- gives and the number of failures; `later` puts the item on the queue of delayed ones.
pub data Event (B : Type 0) : Type 0 where
  retry_send await_ready lookup_mx : Event B
  hook_send_email hook_get_mx : Event B
  hook_deferred : ℕ → Text → Event B
  hook_bounce : Text → Event B
  hook_delivered : Event B
  note_dsn : Dsn → Event B
  fail_all : Event B
  resolve : MxRecord B → Event B
  get_client : MxRecord B → Text → Event B
  deliver_on_socket : MxRecord B → Text → Event B
  later : ℕ → Event B
  requeue : ℕ → ℕ → Event B
  populate_bounce send_bounce : Event B
  unlink next_cb : Event B
  split_off no_match : Event B

pub record Todo (A : Type 0) : Type 0 where
  pub domain : Text
  pub mail_from_user : Text
  pub rcpt_to : List A
  pub force_tls : Bool

pub record HMailItem (A B : Type 0) : Type 0 where
  pub num_failures : ℕ
  pub refcount : ℕ
  pub todo : Option (Todo A)
  pub mxlist : List (MxRecord B)
  pub hostlist : List Text
  pub force_tls : Bool
  pub events : List (Event B)

-- What is configured, and the tests of others' code: `forced_host` is a search of the list
-- `force_tls_hosts`, and `fill` sets what the notes and the host name give for HELO and bind.
pub record Config (B : Type 0) : Type 0 where
  pub disabled : Bool
  pub ipv6_enabled : Bool
  pub temp_fail_intervals : List ℕ
  pub is_ip : Text → Bool
  pub forced_host : Text → Bool
  pub fill : MxRecord B → MxRecord B
