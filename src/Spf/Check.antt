-- ===== src/Spf/Check.antt =====
-- `check_host` of email/spf.js: the chains of mechanisms and modifiers, `mech_include` and
-- `mod_redirect`, which check another domain. Each check inside a check takes a level.
use companyly_microservices.Base.{
  ℕ, zero, suc, Bool, false, Option, none, some, List, [], ◌∷◌, ◌++◌, Text, ◌||◌, if◌then◌else◌,
  is_empty, text_eq, to_lower, map, codes, drop, ltb,
}
use companyly_microservices.Spf.Net.{Version, ipv4, Answer, found, absent, failed, Net}
use companyly_microservices.Spf.Run.{Run, done, threw, too_deep, ◌>>=◌}
use companyly_microservices.Spf.Record.{
  all_mech, a_mech, mx_mech, ptr_mech, ip4_mech, ip6_mech, include_mech, exists_mech, Mechanism,
  Modifier, redirect, exp, no_record, several, one_record, find_record,
}
use companyly_microservices.Spf.Chains.{read_record}
use companyly_microservices.Spf.Mechanisms.{
  counted, mech_all, mech_exists, mech_a, mech_ptr, mech_ip,
}
use companyly_microservices.Spf.MxCalls.{mech_mx}
use companyly_microservices.Spf.{
  SpfResult, spf_none, spf_pass, spf_fail, spf_softfail, spf_neutral, spf_temperror, spf_permerror,
  Spf,
}

-- What a check inside a check gives: from an object, an address, a domain and a sender.
abbrev pub Recurse : Type 0
Recurse = Spf → Text → Text → Option Text → Run (SpfResult × Spf)

-- `new SPF(count, been_there)`; what `check_host` sets is empty until then.
abbrev pub new_spf : ℕ → List Text → Spf
new_spf n domains = record {
  helo = codes "unknown";
  spf_record = [];
  count = n;
  been_there = domains;
  ip = [];
  ip_ver = ipv4;
  ipaddr = [];
  domain = [];
  mail_from = [];
}

unfoldable pub contains : Text → List Text → Bool
contains word [] = false
contains word (w ∷ ws) = text_eq word w || contains word ws

-- What every JavaScript object has.
abbrev inherited : List Text
inherited =
    codes "constructor"
    ∷ codes "toString"
    ∷ codes "valueOf"
    ∷ codes "toLocaleString"
    ∷ codes "hasOwnProperty"
    ∷ codes "isPrototypeOf"
    ∷ codes "propertyIsEnumerable"
    ∷ codes "__proto__"
    ∷ codes "__defineGetter__"
    ∷ codes "__defineSetter__"
    ∷ codes "__lookupGetter__"
    ∷ codes "__lookupSetter__"
    ∷ []

-- `been_there[domain]`
unfoldable pub visited : Text → Spf → Bool
unfolding contains
visited domain spf = contains domain inherited || contains domain spf.been_there

abbrev pub visit : Text → Spf → Spf
visit domain spf = record (counted spf) { been_there = domain ∷ spf.been_there }

unfoldable include_result : SpfResult → SpfResult
include_result spf_pass = spf_pass
include_result spf_fail = spf_none
include_result spf_softfail = spf_none
include_result spf_neutral = spf_none
include_result spf_temperror = spf_temperror
include_result _ = spf_permerror

-- The other object counts on its own, and shares `been_there`.
unfoldable pub mech_include : Recurse → ℕ → Option Text → Spf → Run (SpfResult × Spf)
unfolding visited include_result
mech_include recurse q args spf = elim args [
  | none ↦ threw
  | some s ↦
      let domain = drop 1 s in
      let here = visit domain spf in
      let other =
        recurse (new_spf here.count here.been_there) here.ip domain (some here.mail_from)
        >>= λ (r, child). done (include_result r, record here { been_there = child.been_there }) in
      if visited domain spf then done (spf_none, spf) else other
]

-- The same object goes on with another domain.
unfoldable pub mod_redirect : Recurse → Text → Spf → Run (SpfResult × Spf)
unfolding visited
mod_redirect recurse domain spf =
    if visited domain spf
    then done (spf_none, spf)
    else recurse (visit domain spf) spf.ip domain (some spf.mail_from)

unfoldable pub mod_exp : Text → Spf → Run (SpfResult × Spf)
mod_exp str spf = done (spf_none, spf)

unfoldable pub run_modifier : Recurse → Modifier → Spf → Run (SpfResult × Spf)
unfolding mod_redirect mod_exp
run_modifier recurse (redirect domain) spf = mod_redirect recurse domain spf
run_modifier recurse (exp str) spf = mod_exp str spf

unfoldable pub run_mechanism : Recurse → Net → Mechanism → Spf → Run (SpfResult × Spf)
unfolding mech_all mech_exists mech_a mech_mx mech_ptr mech_ip mech_include
run_mechanism recurse net m spf = elim m.name [
  | all_mech ↦ mech_all m.qualifier m.args spf
  | a_mech ↦ mech_a net m.qualifier m.args spf
  | mx_mech ↦ mech_mx net m.qualifier m.args spf
  | ptr_mech ↦ mech_ptr net m.qualifier m.args spf
  | ip4_mech ↦ mech_ip net m.qualifier m.args spf
  | ip6_mech ↦ mech_ip net m.qualifier m.args spf
  | include_mech ↦ mech_include recurse m.qualifier m.args spf
  | exists_mech ↦ mech_exists net m.qualifier m.args spf
]

-- What both callers test first: the limit of lookups, and a result that is not `SPF_NONE`. A first
-- call, with no result, goes on as one with `SPF_NONE` does.
unfoldable pub stopped : Spf → SpfResult → Option SpfResult
stopped spf spf_none = if ltb 10 spf.count then some spf_permerror else none
stopped spf r = if ltb 10 spf.count then some spf_permerror else some r

-- `mod_chain_caller`
unfoldable pub mod_chain : Recurse → List Modifier → SpfResult → Spf → Run (SpfResult × Spf)
unfolding stopped run_modifier
mod_chain recurse [] r spf = elim (stopped spf r) [
  | some r' ↦ done (r', spf)
  | none ↦ done (spf_neutral, spf)
]
mod_chain recurse (m ∷ mods) r spf = elim (stopped spf r) [
  | some r' ↦ done (r', spf)
  | none ↦ run_modifier recurse m spf >>= λ (r', spf'). mod_chain recurse mods r' spf'
]

-- `mech_chain_caller`
unfoldable pub mech_chain :
    Recurse → Net → List Mechanism → List Modifier → SpfResult → Spf → Run (SpfResult × Spf)
unfolding stopped run_mechanism mod_chain
mech_chain recurse net [] mods r spf = elim (stopped spf r) [
  | some r' ↦ done (r', spf)
  | none ↦ if is_empty mods then done (spf_neutral, spf) else mod_chain recurse mods spf_none spf
]
mech_chain recurse net (m ∷ mechs) mods r spf = elim (stopped spf r) [
  | some r' ↦ done (r', spf)
  | none ↦
      run_mechanism recurse net m spf >>= λ (r', spf'). mech_chain recurse net mechs mods r' spf'
]

-- The sender, or the postmaster of the domain where there is none.
unfoldable pub sender : Text → Option Text → Text
sender domain none = codes "postmaster@" ++ domain
sender domain (some []) = codes "postmaster@" ++ domain
sender domain (some (c ∷ s)) = map to_lower (c ∷ s)

-- The object at the lookup of the record.
unfoldable pub prepare : Net → Version → Spf → Text → Text → Option Text → Spf
unfolding sender
prepare net v spf ip domain mail_from = record spf {
  ipaddr = ip;
  ip_ver = v;
  ip = elim v [ ipv4 ↦ ip | Version.ipv6 ↦ net.print ip ];
  domain = map to_lower domain;
  mail_from = sender (map to_lower domain) mail_from;
}

-- A record that was found: it is validated as a whole before any mechanism runs.
unfoldable pub run_record : Recurse → ℕ → Net → Text → Spf → Run (SpfResult × Spf)
unfolding read_record mech_chain
run_record recurse rounds net s spf = read_record rounds net spf s >>= λ chains. elim chains [
  | none ↦ done (spf_permerror, spf)
  | some (mechs, mods) ↦ mech_chain recurse net mechs mods spf_none spf
]

-- The reply to the lookup of the record.
unfoldable pub on_txt : Recurse → ℕ → Net → Answer (List (List Text)) → Spf → Run (SpfResult × Spf)
unfolding find_record run_record
on_txt recurse rounds net absent spf = done (spf_none, spf)
on_txt recurse rounds net failed spf = done (spf_temperror, spf)
on_txt recurse rounds net (found rrs) spf = elim (find_record rrs) [
  | no_record ↦ done (spf_none, spf)
  | several ↦ done (spf_permerror, spf)
  | one_record s ↦ run_record recurse rounds net s (record spf { spf_record = s })
]

unfoldable pub check_host : ℕ → ℕ → Net → Recurse
unfolding prepare on_txt
check_host zero rounds net spf ip domain mail_from = too_deep
check_host (suc levels) rounds net spf ip domain mail_from = elim (net.kind ip) [
  | none ↦ threw
  | some v ↦
      on_txt (check_host levels rounds net) rounds net (net.resolve_txt (map to_lower domain))
        (prepare net v spf ip domain mail_from)
]

-- `const_translate` and `result`, the names that the logs and the headers have.
unfoldable pub result : SpfResult → Text
result spf_none = codes "None"
result spf_pass = codes "Pass"
result spf_fail = codes "Fail"
result spf_softfail = codes "SoftFail"
result spf_neutral = codes "Neutral"
result spf_temperror = codes "TempError"
result spf_permerror = codes "PermError"
