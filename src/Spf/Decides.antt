-- ===== src/Spf/Decides.antt =====
-- What the chains of email/spf.js come to: the result of `check_host`, and which mechanism gives it.
use mathlib.Core.Path.{fun_ext}
use companyly_microservices.Base.{
  ℕ, zero, suc, ◌≡◌, ◌≢◌, ◌↔◌, refl, sym, ap, ◌∙◌, Bool, true, false, inl, inr, Option, none, some,
  List, [], ◌∷◌, ◌++◌, Text, map, to_lower, arith, ltb, is_empty, Option-cases, if◌then◌else◌,
}
use companyly_microservices.Spf.Net.{Answer, found, absent, failed, Net}
use companyly_microservices.Spf.Run.{
  Run, done, ◌>>=◌, any, anything, Ends, holds, Ends-bind, Ends-if, Ends-none, Ends-done,
}
use companyly_microservices.Spf.Record.{
  Mechanism, all_mech, Modifier, Found, no_record, several, one_record, find_record,
}
use companyly_microservices.Spf.Chains.{read_record}
use companyly_microservices.Spf.Mechanisms.{return_const, mech_all}
use companyly_microservices.Spf.Check.{
  Recurse, run_modifier, run_mechanism, stopped, mod_chain, mech_chain, run_record, on_txt,
  check_host,
}
use companyly_microservices.Spf.{
  SpfResult, spf_none, spf_pass, spf_fail, spf_softfail, spf_neutral, spf_temperror, spf_permerror,
  Spf,
}

-- The result is not `SPF_NONE`.
abbrev Decided : SpfResult × Spf → Type 0
Decided (r, spf) = r ≢ spf_none

stopped-Decided : (spf : Spf) (r r' : SpfResult) → stopped spf r ≡ some r' → r' ≢ spf_none
unfolding stopped
stopped-Decided spf spf_none r' e z = ground arith
stopped-Decided spf spf_pass r' e z = ground arith
stopped-Decided spf spf_fail r' e z = ground arith
stopped-Decided spf spf_softfail r' e z = ground arith
stopped-Decided spf spf_neutral r' e z = ground arith
stopped-Decided spf spf_temperror r' e z = ground arith
stopped-Decided spf spf_permerror r' e z = ground arith

module _ (recurse : Recurse) (net : Net) where
  mod_chain-Decided :
      (mods : List Modifier) (r : SpfResult) (spf : Spf)
      → Ends any Decided (mod_chain recurse mods r spf)
  unfolding mod_chain
  mod_chain-Decided [] r spf =
      Ends-none (stopped spf r) (λ _. holds (cc)) (λ r' e. holds (stopped-Decided spf r r' e))
  mod_chain-Decided (m ∷ mods) r spf =
      Ends-none (stopped spf r)
        (λ _.
          Ends-bind (anything (run_modifier recurse m spf))
            (λ (r', s) _. mod_chain-Decided mods r' s))
        (λ r' e. holds (stopped-Decided spf r r' e))

  mech_chain-Decided :
      (mechs : List Mechanism) (mods : List Modifier) (r : SpfResult) (spf : Spf)
      → Ends any Decided (mech_chain recurse net mechs mods r spf)
  unfolding mech_chain
  mech_chain-Decided [] mods r spf =
      Ends-none (stopped spf r)
        (λ _. Ends-if (is_empty mods) (λ _. holds (cc)) (λ _. mod_chain-Decided mods spf_none spf))
        (λ r' e. holds (stopped-Decided spf r r' e))
  mech_chain-Decided (m ∷ mechs) mods r spf =
      Ends-none (stopped spf r)
        (λ _.
          Ends-bind (anything (run_mechanism recurse net m spf))
            (λ (r', s) _. mech_chain-Decided mechs mods r' s))
        (λ r' e. holds (stopped-Decided spf r r' e))

  run_record-Decided :
      (rounds : ℕ) (s : Text) (spf : Spf) → Ends any Decided (run_record recurse rounds net s spf)
  unfolding run_record
  run_record-Decided rounds s spf = Ends-bind (anything (read_record rounds net spf s)) run
    where
      run :
          (o : Option (List Mechanism × List Modifier))
          → Unit {0}
          → Ends any Decided (elim o [
            | none ↦ done (spf_permerror, spf)
            | some (mechs, mods) ↦ mech_chain recurse net mechs mods spf_none spf
          ])
      run none h = holds (cc)
      run (some (mechs, mods)) h = mech_chain-Decided mechs mods spf_none spf

-- The domain has no record: no TXT record at all, or none that is an SPF record.
unfoldable pub is_unpublished : Answer (List (List Text)) → Bool
unfolding find_record
is_unpublished absent = true
is_unpublished failed = false
is_unpublished (found rrs) = elim (find_record rrs) [
  | no_record ↦ true
  | several ↦ false
  | one_record s ↦ false
]

on_txt-none :
    (recurse : Recurse) (rounds : ℕ) (net : Net) (o : Answer (List (List Text))) (spf after : Spf)
    (r : SpfResult)
    → on_txt recurse rounds net o spf ≡ done (r, after)
    → (r ≡ spf_none) ↔ (is_unpublished o ≡ true)
unfolding on_txt is_unpublished
on_txt-none recurse rounds net absent spf after r e = (λ z. refl, λ z. cc)
on_txt-none recurse rounds net failed spf after r e = (λ z. absurd (cc), λ z. absurd (cc))
on_txt-none recurse rounds net (found rrs) spf after r e = by_record (find_record rrs) e
  where
    by_record :
        (f : Found)
        → elim f as (λ k. Run (SpfResult × Spf)) [
          | no_record ↦ done (spf_none, spf)
          | several ↦ done (spf_permerror, spf)
          | one_record s ↦ run_record recurse rounds net s (record spf { spf_record = s })
        ]
          ≡ done (r, after)
        → (r ≡ spf_none) ↔ (
            elim f as (λ k. Bool) [ no_record ↦ true | several ↦ false | one_record s ↦ false ]
            ≡ true)
    by_record no_record k = (λ z. refl, λ z. cc)
    by_record several k = (λ z. absurd (cc), λ z. absurd (cc))
    by_record (one_record s) k =
        (λ z. absurd (Ends-done (run_record-Decided recurse net rounds s _) k z), λ z. absurd (cc))

-- A check that answers says that there is nothing to check exactly when the lookup of the record
-- found no TXT record, or none that is an SPF record: with a record, valid or not, the result is another.
pub check_host-none :
    (levels rounds : ℕ) (net : Net) (spf after : Spf) (ip domain : Text) (mail_from : Option Text)
    (r : SpfResult)
    → check_host levels rounds net spf ip domain mail_from ≡ done (r, after)
    → (r ≡ spf_none) ↔ (is_unpublished (net.resolve_txt (map to_lower domain)) ≡ true)
unfolding check_host
check_host-none zero rounds net spf after ip domain mail_from r e = absurd (cc)
check_host-none (suc n) rounds net spf after ip domain mail_from r e =
    elim (Option-cases (net.kind ip)) [
      | inl k ↦ absurd (let h = rw (k, check_host) at e in cc)
      | inr (v, k) ↦
          on_txt-none (check_host n rounds net) rounds net _ _ after r (rw (k, check_host) at e)
    ]

-- The mechanisms in front of `all`, with what follows it.
abbrev pub with_all : List Mechanism → ℕ → Option Text → List Mechanism → List Mechanism
with_all front q args back = front ++ record { name = all_mech; qualifier = q; args = args } ∷ back

module _ (recurse : Recurse) (net : Net) where
  -- A chain that is stopped runs nothing more.
  mech_chain-stopped :
      (mechs : List Mechanism) (mods : List Modifier) (r x : SpfResult) (spf : Spf)
      → stopped spf r ≡ some x
      → mech_chain recurse net mechs mods r spf ≡ done (x, spf)
  unfolding mech_chain
  mech_chain-stopped [] mods r x spf e = rw (mech_chain, e) refl
  mech_chain-stopped (m ∷ mechs) mods r x spf e = rw (mech_chain, e) refl

  both :
      (mechs other : List Mechanism) (mods : List Modifier) (r x : SpfResult) (spf : Spf)
      → stopped spf r ≡ some x
      → mech_chain recurse net mechs mods r spf ≡ mech_chain recurse net other [] r spf
  both mechs other mods r x spf e =
      mech_chain-stopped mechs mods r x spf e ∙ sym (mech_chain-stopped other [] r x spf e)

  stopped-return_const :
      (q : ℕ) (spf : Spf)
      → stopped spf (return_const q)
        ≡ some (if ltb 10 spf.count then spf_permerror else return_const q)
  unfolding stopped return_const
  stopped-return_const q spf = ground arith

  -- In the chain of mechanisms and modifiers that have been read from a record, `all` is the end: what
  -- follows it changes nothing. The reading of the record, which validates and expands all of it
  -- first, is not part of this.
  pub all-ends :
      (front : List Mechanism) (q : ℕ) (args : Option Text) (back : List Mechanism)
      (mods : List Modifier) (r : SpfResult) (spf : Spf)
      → mech_chain recurse net (with_all front q args back) mods r spf
        ≡ mech_chain recurse net (with_all front q args []) [] r spf
  unfolding mech_chain run_mechanism mech_all
  all-ends [] q args back mods r spf = elim (Option-cases (stopped spf r)) [
    | inl e ↦
        let h = stopped-return_const q spf in
        rw (mech_chain, e, run_mechanism, mech_all)
          (mech_chain-stopped back mods (return_const q) _ spf h
            ∙ sym (mech_chain-stopped [] [] (return_const q) _ spf h))
    | inr (x, e) ↦ both (with_all [] q args back) (with_all [] q args []) mods r x spf e
  ]
  all-ends (m ∷ front) q args back mods r spf = elim (Option-cases (stopped spf r)) [
    | inl e ↦
        rw (mech_chain, e)
          (ap (run_mechanism recurse net m spf >>=◌)
            (fun_ext (λ p. all-ends front q args back mods p.0 p.1)))
    | inr (x, e) ↦
        both (with_all (m ∷ front) q args back) (with_all (m ∷ front) q args []) mods r x spf e
  ]
