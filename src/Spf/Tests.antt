-- ===== src/Spf/Tests.antt =====
-- Runs of the check of email/spf.js, and the theorems about it at concrete inputs.
use companyly_microservices.Base.{
  ◌≡◌, ◌≢◌, ◌↔◌, refl, Bool, true, false, inl, inr, none, some, List, [], ◌∷◌, Text, All, map,
  arith, if◌then◌else◌, codes, text_eq, to_lower, any, Bool-cases, is_space, split_at, join,
}
use mathlib.Core.Path.{subst}
use mathlib.Core.List.Perm
use companyly_microservices.Rfc1869.{all}
use companyly_microservices.Spf.Net.{Version, ipv4, ipv6, Answer, found, absent, failed, Net}
use companyly_microservices.Spf.Run.{done, endless, too_deep}
use companyly_microservices.Spf.Macros.{expand_macros}
use companyly_microservices.Spf.Record.{ip4_mech, Mechanism, redirect, one_record, find_record}
use companyly_microservices.Spf.Chains.{is_bad_macro, read_record}
use companyly_microservices.Spf.Mechanisms.{mx_cidr_of}
use companyly_microservices.Spf.MxCalls.{mx_calls}
use companyly_microservices.Spf.Check.{new_spf, mech_chain, check_host}
use companyly_microservices.Spf.Clients.{has_percent, Reliable}
use companyly_microservices.Spf.Levels.{no_repeats, Within}
use companyly_microservices.Spf.Levels.Mechanisms.{HasArgs}
use companyly_microservices.Spf.Levels.Reading.{read_record-HasArgs}
use companyly_microservices.Spf.Levels.Checks.{
  check_host-ne-too_deep, check_host-Within, check_host-answers,
}
use companyly_microservices.Spf.Decides.{is_unpublished, check_host-none, with_all, all-ends}
use companyly_microservices.Spf.Expansion.{fields-Quiet}
use companyly_microservices.Spf.Rounds.{expand_macros-ends}
use companyly_microservices.Spf.Endless.{local_part, expand_macros-endless}
use companyly_microservices.Spf.{SpfResult, spf_none, spf_pass, spf_temperror, Spf}

-- Three domains: one includes another, and forbids the rest.
abbrev record_of : Text → Answer (List (List Text))
record_of name =
    if text_eq name (codes "a.org")
    then found ((codes "v=spf1 " ∷ codes "include:b.org -all" ∷ []) ∷ [])
    else if text_eq name (codes "b.org")
    then found ((codes "v=spf1 -mx:b.org ip4:10.0.0.0/8 include:a.org" ∷ []) ∷ [])
    else absent

-- One exchange, one address; an address is in each range, but the client's is in none of its own.
abbrev sample : Net
sample = record {
  resolve_txt = record_of;
  resolve = λ name. absent;
  resolve_ip = λ v name. elim v [ ipv4 ↦ found (codes "10.0.0.7" ∷ []) | ipv6 ↦ absent ];
  reverse_lookup = λ ip. absent;
  get_mx = λ name. found (codes "mx.b.org" ∷ []);
  is_valid = λ ip. true;
  kind = λ ip. some ipv4;
  print = λ ip. ip;
  matches = λ ip range bits. some (text_eq range (codes "10.0.0.0"));
  regexp = λ source. none;
  arrival = λ names. names;
}

abbrev fresh : Spf
fresh = new_spf 0 []

abbrev after_check : Spf
after_check = record {
  helo = codes "unknown";
  spf_record = codes "v=spf1 include:b.org -all";
  count = 1;
  been_there = codes "b.org" ∷ [];
  ip = codes "10.9.9.9";
  ip_ver = ipv4;
  ipaddr = codes "10.9.9.9";
  domain = codes "a.org";
  mail_from = codes "joe@a.org";
}

-- The included record lets the address pass, and its two lookups are not counted.
include_passes :
    check_host 12 9 sample fresh (codes "10.9.9.9") (codes "A.org") (some (codes "Joe@a.org"))
    ≡ done (spf_pass, after_check)
unfolding check_host text_eq to_lower join is_space split_at any expand_macros all
include_passes = refl

check_host-Within_example : Within fresh after_check
unfolding no_repeats
check_host-Within_example =
    check_host-Within 9 sample fresh (codes "10.9.9.9") (codes "A.org") (some (codes "Joe@a.org"))
      spf_pass after_check (omega arith) refl include_passes

check_host-ne-too_deep_example :
    check_host 12 9 sample fresh (codes "10.9.9.9") (codes "a.org") none ≢ too_deep
unfolding no_repeats
check_host-ne-too_deep_example =
    check_host-ne-too_deep 9 sample fresh (codes "10.9.9.9") (codes "a.org") none (omega arith) refl

check_host-none_example :
    (spf_pass ≡ spf_none)
    ↔ (is_unpublished (sample.resolve_txt (map to_lower (codes "A.org"))) ≡ true)
check_host-none_example =
    check_host-none 12 9 sample fresh after_check (codes "10.9.9.9") (codes "A.org")
      (some (codes "Joe@a.org")) spf_pass include_passes

All-ipv4 : (l : List Text) → All (λ a. sample.kind a ≡ some ipv4) l
All-ipv4 [] = tt
All-ipv4 (a ∷ l) = (refl, All-ipv4 l)

of_version :
    (v : Version) (name : Text) (l : List Text)
    → sample.resolve_ip v name ≡ found l
    → All (λ a. sample.kind a ≡ some v) l
of_version ipv4 name l e = All-ipv4 l
of_version ipv6 name l e = absurd (cc)

one_record_inj : {s t : Text} → one_record s ≡ one_record t → s ≡ t
one_record_inj e = cc

found_inj : {s t : List (List Text)} → found s ≡ found t → s ≡ t
found_inj e = cc

plain_a :
    (s : Text)
    → find_record ((codes "v=spf1 " ∷ codes "include:b.org -all" ∷ []) ∷ []) ≡ one_record s
    → has_percent s ≡ false
unfolding find_record join is_space to_lower text_eq
plain_a s f = subst (λ t. has_percent t ≡ false) (one_record_inj f) refl

plain_b :
    (s : Text)
    → find_record ((codes "v=spf1 -mx:b.org ip4:10.0.0.0/8 include:a.org" ∷ []) ∷ []) ≡ one_record s
    → has_percent s ≡ false
unfolding find_record join is_space to_lower text_eq
plain_b s f = subst (λ t. has_percent t ≡ false) (one_record_inj f) refl

plain_records :
    (name : Text) (rrs : List (List Text)) (s : Text)
    → sample.resolve_txt name ≡ found rrs
    → find_record rrs ≡ one_record s
    → has_percent s ≡ false
plain_records name rrs s e f = elim (Bool-cases (text_eq name (codes "a.org"))) [
  | inl a ↦ plain_a s (rw (found_inj (rw a at e)) f)
  | inr a ↦ elim (Bool-cases (text_eq name (codes "b.org"))) [
    | inl b ↦ plain_b s (rw (found_inj (rw (a, b) at e)) f)
    | inr b ↦ absurd (let h = rw (a, b) at e in cc)
  ]
]

sample-Reliable : Reliable sample
sample-Reliable = record {
  families = of_version;
  ranges = λ v s t bits p q. cc;
  printed = λ s e. e;
  arrivals = λ l. refl;
  plain = plain_records;
}

check_host-answers_example :
    (r : SpfResult) × (after : Spf) × (check_host 12 1 sample fresh
        (codes "10.9.9.9")
        (codes "b.org")
        none
      ≡ done (r, after))
unfolding no_repeats
check_host-answers_example =
    check_host-answers 1 sample fresh (codes "10.9.9.9") (codes "b.org") none sample-Reliable
      (omega arith) (cc) (omega arith) refl

abbrev ip_mechanism : Mechanism
ip_mechanism = record { name = ip4_mech; qualifier = 43; args = some (codes ":10.0.0.0/8") }

read_ip4 :
    read_record 9 sample fresh (codes "v=spf1 ip4:10.0.0.0/8 foo=1 redirect=b.org")
    ≡ done (some (ip_mechanism ∷ [], redirect (codes "b.org") ∷ []))
unfolding read_record split_at any all text_eq
read_ip4 = refl

read_record-HasArgs_example : All (λ m. HasArgs m.name m.args) (ip_mechanism ∷ [])
read_record-HasArgs_example =
    read_record-HasArgs 9 sample fresh (codes "v=spf1 ip4:10.0.0.0/8 foo=1 redirect=b.org")
      (ip_mechanism ∷ []) (redirect (codes "b.org") ∷ []) read_ip4

all-ends_example :
    mech_chain
      (check_host 3 9 sample)
      sample
      (with_all (ip_mechanism ∷ []) 45 none (ip_mechanism ∷ []))
      (redirect (codes "b.org") ∷ [])
      spf_none
      fresh
    ≡ mech_chain
        (check_host 3 9 sample)
        sample
        (with_all (ip_mechanism ∷ []) 45 none [])
        []
        spf_none
        fresh
all-ends_example =
    all-ends (check_host 3 9 sample) sample (ip_mechanism ∷ []) 45 none (ip_mechanism ∷ [])
      (redirect (codes "b.org") ∷ []) spf_none fresh

abbrev attacker : Spf
attacker = record fresh { mail_from = codes "aaaa%{l}@c.org" }

expand_macros-endless_example : expand_macros 1000 attacker local_part ≡ endless
expand_macros-endless_example = expand_macros-endless (codes "c.org") attacker 1000 refl

abbrev client_is : Text → Bool
client_is a = text_eq a fresh.ip

abbrev two_exchanges : List Text
two_exchanges = codes "m.org" ∷ codes "n.org" ∷ []

-- Two lookups that fail: two calls.
two_calls :
    mx_calls (record sample { resolve_ip = λ v name. failed }) 43 none fresh two_exchanges
    ≡ done spf_temperror ∷ done spf_temperror ∷ []
unfolding mx_calls
two_calls = refl

-- `%_` is a syntax error, though `expand_macros` knows it.
underscore_bad : is_bad_macro (codes ":a%_b.org") ≡ true
unfolding is_bad_macro any
underscore_bad = refl

-- An IPv6 mask of `mx` keeps its slashes.
mx_mask : mx_cidr_of ipv6 (some (codes "/24//64")) ≡ some (codes "//64")
unfolding mx_cidr_of all
mx_mask = refl

expand_macros-ends_example :
    (s : Text) × (expand_macros 9 after_check (codes "%{ir}.%{d1}") ≡ done s)
expand_macros-ends_example =
    expand_macros-ends after_check 9 (codes "%{ir}.%{d1}")
      (fields-Quiet after_check refl refl refl refl) (omega arith)
