-- ===== src/Outbound/MxLookup.antt =====
-- The search for the mail exchangers of a domain: `lookup_mx` of email/outbound/mx_lookup.js.
use companyly_microservices.Base.{
  Bool, false, Option, none, some, List, [], ◌∷◌, Text, ◌||◌, not, if◌then◌else◌,
}
use companyly_microservices.Outbound.Mx.{MxRecord}

-- What the resolver gives: `no_data` for ENODATA and ENOTFOUND, another error, or what it has found.
pub data Answer (C : Type 0) : Type 0 where
  no_data : Answer C
  failed : Text → Answer C
  found : List C → Answer C

-- What the callback is given, NOMX with no text.
pub data Result (B : Type 0) : Type 0 where
  no_mx : Result B
  dns_error : Text → Result B
  records : List (MxRecord B) → Result B

-- The records that are kept: `is_local` is the test of others' code, none where that fails.
unfoldable pub kept :
    {B C : Type 0} → Bool → (C → Option Bool) → (C → MxRecord B) → List C → List (MxRecord B)
kept local_mx_ok is_local wrap [] = []
kept local_mx_ok is_local wrap (c ∷ cs) =
    let rest = kept local_mx_ok is_local wrap cs in
    let away : Bool = elim (is_local c) [ none ↦ false | some b ↦ not b ] in
    if local_mx_ok || away then wrap c ∷ rest else rest

-- `process_dns`: what is called back, or nothing if the next question is to be asked.
unfoldable process_dns :
    {B C : Type 0} → Bool → (C → Option Bool) → (C → MxRecord B) → Answer C → Option (Result B)
unfolding kept
process_dns local_mx_ok is_local wrap no_data = none
process_dns local_mx_ok is_local wrap (failed err) = some (dns_error err)
process_dns local_mx_ok is_local wrap (found []) = none
process_dns local_mx_ok is_local wrap (found (c ∷ cs)) =
    some (records (kept local_mx_ok is_local wrap (c ∷ cs)))

-- The MX records, and if there are none the addresses of the domain itself. An address has no field
-- `exchange`, so that the test is one of the undefined value, the same for all.
unfoldable pub lookup_mx :
    {B : Type 0}
    → Bool
    → (MxRecord B → Option Bool)
    → Option Bool
    → Answer (MxRecord B)
    → Answer Text
    → Result B
unfolding process_dns
lookup_mx local_mx_ok is_local undefined_is_local mxs addresses =
    elim (process_dns local_mx_ok is_local (λ m. m) mxs) [
      | some r ↦ r
      | none ↦
          elim (process_dns local_mx_ok (λ _. undefined_is_local)
            (λ s. record {
              priority = 0;
              exchange = s;
              port = none;
              path = none;
              using_lmtp = false;
              family = none;
              settings = none;
            })
            addresses) [ some r ↦ r | none ↦ no_mx ]
    ]
