-- ===== src/Spf/Plugin.antt =====
-- email/plugins/spf.js: when the check is made, of which address, and what its result means for the
-- client. The client is what the plugin reads of the connection and its transaction.
use companyly_microservices.Base.{
  String, Bool, Option, none, some, ◌++◌, Text, ◌&&◌, ◌||◌, if◌then◌else◌, text_eq, codes,
}
use companyly_microservices.Spf.Check.{result}
use companyly_microservices.Spf.{
  SpfResult, spf_none, spf_pass, spf_fail, spf_softfail, spf_neutral, spf_temperror, spf_permerror,
}

-- A section of spf.ini with its flags.
abbrev pub Section : Type 0
Section = Text → Bool

-- `relay` is the `context` of the section, which may be missing, as the section may.
pub record Config : Type 0 where
  pub main : Section
  pub deny : Section
  pub defer : Section
  pub deny_relay : Section
  pub defer_relay : Section
  pub skip : Section
  pub relay : Option (Option Text)

abbrev switch_on : Text → Section → Section
switch_on key flags name = text_eq name key || flags name

-- The old settings of a phase, in `load_spf_ini`.
unfoldable pub legacy : Text → Text → Section → Section → Section
legacy old new main flags = if main old then switch_on new flags else flags

unfoldable pub legacy_phase : Text → Config → Config
unfolding legacy
legacy_phase phase cfg =
    let key : String → Text = λ s. phase ++ codes s in
    record cfg {
      deny = legacy (key "_permerror_reject") (key "_permerror") cfg.main (
          legacy (key "_fail_reject") (key "_fail") cfg.main
            (legacy (key "_softfail_reject") (key "_softfail") cfg.main cfg.deny));
      defer = legacy (key "_temperror_defer") (key "_temperror") cfg.main cfg.defer;
    }

-- `load_spf_ini`, behind the reading of the file.
unfoldable pub load_spf_ini : Config → Config
unfolding legacy_phase
load_spf_ini cfg =
    let cfg' = legacy_phase (codes "mail") (legacy_phase (codes "helo") cfg) in
    let context : Option Text = elim cfg'.relay [ none ↦ some (codes "sender") | some c ↦ c ] in
    record cfg' { relay = some context }

pub record Client : Type 0 where
  pub relaying : Bool
  pub is_private : Bool
  pub auth_user : Bool
  pub remote_ip : Text
  pub hello_host : Text
  pub local_host : Text
  pub spf_helo : Option SpfResult

-- What `next` is called with.
pub data Next : Type 0 where
  next : Next
  next_cont next_deny next_denysoft : Text → Next

unfoldable pub skip_hosts : Config → Client → Option Text
skip_hosts cfg c =
    if cfg.skip (codes "relaying") && c.relaying
    then some (codes "relay")
    else if cfg.skip (codes "auth") && c.auth_user
    then some (codes "auth")
    else none

abbrev is_helo : Text → Bool
is_helo scope = text_eq scope (codes "helo")

-- `msgpre`
unfoldable pub message_start : Text → Text → Text
message_start scope sender =
    if is_helo scope then codes "sender " ++ sender else codes "sender <" ++ (sender ++ codes ">")

-- The page that explains the result; for HELO it names a field that no connection has.
unfoldable openspf_url : Text → Text → Text → Text
openspf_url scope sender ip =
    codes "http://www.openspf.org/Why?s="
    ++ (scope
        ++ (codes "&id="
            ++ ((if is_helo scope then codes "undefined" else sender) ++ (codes "&ip=" ++ ip))))

-- The text of a refusal: the page, as the library words it, or the plain words.
unfoldable pub refusal : (Text → Text) → Section → Text → Text → Text → Text → Text
unfolding openspf_url message_start
refusal unauthorized flags scope sender ip words =
    if flags (codes "openspf_text")
    then unauthorized (openspf_url scope sender ip)
    else message_start scope sender ++ words

unfoldable pub return_results : (Text → Text) → Config → Client → Text → Text → SpfResult → Next
unfolding refusal message_start
return_results unauthorized cfg c scope sender r =
    let deny : Section = if c.relaying then cfg.deny_relay else cfg.deny in
    let defer : Section = if c.relaying then cfg.defer_relay else cfg.defer in
    let flag : Text → Text = λ word. scope ++ word in
    let say : Text → Text = refusal unauthorized deny scope sender c.remote_ip in
    elim r [
      | spf_none ↦
          if deny (flag (codes "_none"))
          then next_deny (say (codes " SPF record not found"))
          else next
      | spf_neutral ↦ next
      | spf_pass ↦ next
      | spf_softfail ↦
          if deny (flag (codes "_softfail")) then next_deny (say (codes " SPF SoftFail")) else next
      | spf_fail ↦ if deny (flag (codes "_fail")) then next_deny (say (codes " SPF Fail")) else next
      | spf_temperror ↦
          if defer (flag (codes "_temperror"))
          then next_denysoft (message_start scope sender ++ codes " SPF Temporary Error")
          else next
      | spf_permerror ↦
          if deny (flag (codes "_permerror"))
          then next_deny (message_start scope sender ++ codes " SPF Permanent Error")
          else next
    ]

-- The value of the header Received-SPF.
unfoldable save_to_header : Client → SpfResult → Text → Text → Text → Text → Text
unfolding result
save_to_header c r mfrom host id ip =
    let designates : Text = elim r [
      | spf_pass ↦ codes "designates"
      | _ ↦ codes "does not designate"
    ] in
    result r
    ++ (codes " ("
        ++ (c.local_host
            ++ (codes ": domain of "
                ++ (host
                    ++ (codes " "
                        ++ (designates
                            ++ (codes " "
                                ++ (c.remote_ip
                                    ++ (codes " as permitted sender) receiver="
                                        ++ (c.local_host
                                            ++ (codes "; identity="
                                                ++ (id
                                                    ++ (codes "; client-ip="
                                                        ++ (ip
                                                            ++ (codes " helo="
                                                            ++ (c.hello_host
                                                            ++ (codes "; envelope-from=<"
                                                            ++ (mfrom ++ codes ">"))))))))))))))))))
