-- ===== src/Spf/Levels/Mechanisms.antt =====
-- The mechanisms and modifiers of email/spf.js, each between two tests of the limit.
use companyly_microservices.Base.{
  ℕ, suc, ◌≤◌, ◌≡◌, ◌≢◌, refl, false, Option, none, some, [], ◌∷◌, Text, length, arith, drop, ltb,
  is_empty,
}
use companyly_microservices.Spf.Net.{Answer, found, absent, failed, Net}
use companyly_microservices.Spf.Run.{
  Run, done, Demand, may_fail, Ends, holds, Ends-bind, Ends-if, Ends-map, Ends-none, Ends-threw,
}
use companyly_microservices.Spf.Record.{
  MechName, all_mech, a_mech, mx_mech, ptr_mech, ip4_mech, ip6_mech, include_mech, exists_mech,
  Mechanism, Modifier, redirect, exp,
}
use companyly_microservices.Spf.Mechanisms.{
  counted, mech_all, mech_exists, mech_a, mech_ptr, mech_ip, target, cidr_of, read_range,
}
use companyly_microservices.Spf.MxCalls.{mech_mx}
use companyly_microservices.Spf.Check.{
  Recurse, new_spf, visited, visit, mech_include, mod_redirect, mod_exp, run_modifier,
  run_mechanism,
}
use companyly_microservices.Spf.Clients.{Parsed, Reliable, any_client-Ends, mx_calls-Ends}
use companyly_microservices.Spf.Levels.{
  no_repeats, Within, Within-trans, Fit, Within-same, Left, Sound,
}
use companyly_microservices.Spf.{SpfResult, Spf}

-- A mechanism that takes the argument apart has one.
abbrev pub HasArgs : MechName → Option Text → Type 0
HasArgs all_mech args = Unit
HasArgs a_mech args = Unit
HasArgs mx_mech args = Unit
HasArgs ptr_mech args = Unit
HasArgs _ args = args ≢ none

module _ (d : Demand) (net : Net) (good : may_fail d ≡ false → Reliable net) (n : ℕ) where
  counted-Within : (spf : Spf) → Fit (suc n) spf → spf.count ≤ 10 → Within spf (counted spf)
  counted-Within spf f low = record {
    counts = omega arith;
    limited = omega arith;
    once = f.once;
    more = [];
    extends = refl;
  }

  counts_one :
      (spf : Spf) (r : SpfResult)
      → Fit (suc n) spf
      → spf.count ≤ 10
      → (may_fail d ≡ false → Parsed net spf)
      → Ends d (Left d net spf) (done (r, counted spf))
  counts_one spf r f low parsed = holds (counted-Within spf f low, parsed)

  leaves :
      (spf : Spf) (r : SpfResult)
      → Fit (suc n) spf
      → (may_fail d ≡ false → Parsed net spf)
      → Ends d (Left d net spf) (done (r, spf))
  leaves spf r f parsed = holds (Within-same spf f, parsed)

  module _ (spf : Spf) (f : Fit (suc n) spf) (low : spf.count ≤ 10)
      (parsed : may_fail d ≡ false → Parsed net spf) where
    by_answer :
        {A : Type 0} (o : Answer A) (p : A → Run (SpfResult × Spf)) (r s : SpfResult)
        → ((l : A) → o ≡ found l → Ends d (Left d net spf) (p l))
        → Ends d (Left d net spf) (elim o [
          | found l ↦ p l
          | absent ↦ done (r, counted spf)
          | failed ↦ done (s, counted spf)
        ])
    by_answer (found l) p r s h = h l refl
    by_answer absent p r s h = counts_one spf r f low parsed
    by_answer failed p r s h = counts_one spf s f low parsed

    mech_exists-Ends :
        (q : ℕ) (args : Option Text)
        → (may_fail d ≡ false → args ≢ none)
        → Ends d (Left d net spf) (mech_exists net q args spf)
    unfolding mech_exists
    mech_exists-Ends q none has = Ends-threw d (λ t. has t refl)
    mech_exists-Ends q (some s) has =
        by_answer (net.resolve (drop 1 s)) _ _ _ (λ l e. counts_one spf _ f low parsed)

    mech_a-Ends : (q : ℕ) (args : Option Text) → Ends d (Left d net spf) (mech_a net q args spf)
    unfolding mech_a
    mech_a-Ends q args = by_answer (net.resolve_ip spf.ip_ver (target args spf)) _ _ _ (λ l e.
        Ends-bind
          (any_client-Ends d net good spf (cidr_of spf.ip_ver args) l parsed
            (λ t. (good t).families spf.ip_ver (target args spf) l e))
          (λ b _. counts_one spf _ f low parsed))

    mech_mx-Ends : (q : ℕ) (args : Option Text) → Ends d (Left d net spf) (mech_mx net q args spf)
    unfolding mech_mx
    mech_mx-Ends q args = by_answer (net.get_mx (target args spf)) _ _ _ (λ l e.
        Ends-bind (mx_calls-Ends d net good spf q args l parsed)
          (λ r _. counts_one spf r f low parsed))

    mech_ptr-Ends : (q : ℕ) (args : Option Text) → Ends d (Left d net spf) (mech_ptr net q args spf)
    unfolding mech_ptr
    mech_ptr-Ends q args = by_answer (net.reverse_lookup spf.ip) _ _ _ (λ l e.
        Ends-if (ltb 10 (length l)) (λ _. counts_one spf _ f low parsed)
          (λ _.
            Ends-if (is_empty l) (λ _. counts_one spf _ f low parsed)
              (λ _. counts_one spf _ f low parsed)))

    mech_ip-Ends :
        (q : ℕ) (args : Option Text)
        → (may_fail d ≡ false → args ≢ none)
        → Ends d (Left d net spf) (mech_ip net q args spf)
    unfolding mech_ip
    mech_ip-Ends q none has = Ends-threw d (λ t. has t refl)
    mech_ip-Ends q (some s) has =
        Ends-none (read_range (drop 1 s)) (λ _. leaves spf _ f parsed)
          (λ (range, mask) _. leaves spf _ f parsed)

    visit-Within : (domain : Text) → visited domain spf ≡ false → Within spf (visit domain spf)
    unfolding visited no_repeats
    visit-Within domain new =
        let o = f.once in
        record {
          counts = omega arith;
          limited = omega arith;
          once = ground arith;
          more = domain ∷ [];
          extends = refl;
        }

    module _ (recurse : Recurse) (sound : Sound d net n recurse) where
      mech_include-Ends :
          (q : ℕ) (args : Option Text)
          → (may_fail d ≡ false → args ≢ none)
          → Ends d (Left d net spf) (mech_include recurse q args spf)
      unfolding mech_include
      mech_include-Ends q none has = Ends-threw d (λ t. has t refl)
      mech_include-Ends q (some s) has =
          let domain = drop 1 s in
          let here = visit domain spf in
          Ends-if (visited domain spf) (λ _. leaves spf _ f parsed)
            (λ new.
              let w = visit-Within domain new in
              let deep = f.deep in
              Ends-bind
                (sound (new_spf here.count here.been_there) here.ip domain (some here.mail_from)
                  (record { low = w.limited; deep = omega arith; once = w.once })
                  (λ t e. let k = (parsed t).1 in cc))
                (λ (r, child) (c, _). holds (
                  Within-trans w (record {
                    counts = omega arith;
                    limited = w.limited;
                    once = c.once;
                    more = c.more;
                    extends = c.extends;
                  }),
                  parsed,
                )))

      mod_redirect-Ends :
          (domain : Text) → Ends d (Left d net spf) (mod_redirect recurse domain spf)
      unfolding mod_redirect
      mod_redirect-Ends domain =
          Ends-if (visited domain spf) (λ _. leaves spf _ f parsed)
            (λ new.
              let w = visit-Within domain new in
              let deep = f.deep in
              Ends-map
                (sound (visit domain spf) spf.ip domain (some spf.mail_from)
                  (record { low = w.limited; deep = omega arith; once = w.once })
                  (λ t e. let k = (parsed t).1 in cc))
                (λ (r, after) (c, p). (Within-trans w c, p)))

      pub run_modifier-Ends : (m : Modifier) → Ends d (Left d net spf) (run_modifier recurse m spf)
      unfolding run_modifier mod_exp
      run_modifier-Ends (redirect domain) = mod_redirect-Ends domain
      run_modifier-Ends (exp str) = leaves spf _ f parsed

      pub run_mechanism-Ends :
          (m : Mechanism)
          → (may_fail d ≡ false → HasArgs m.name m.args)
          → Ends d (Left d net spf) (run_mechanism recurse net m spf)
      unfolding run_mechanism mech_all
      run_mechanism-Ends m has = by_name m.name m.qualifier m.args has
        where
          by_name :
              (name : MechName) (q : ℕ) (args : Option Text)
              → (may_fail d ≡ false → HasArgs name args)
              → Ends d (Left d net spf) (
                  run_mechanism recurse net
                    (record { name = name; qualifier = q; args = args })
                    spf)
          by_name all_mech q args has = leaves spf _ f parsed
          by_name a_mech q args has = mech_a-Ends q args
          by_name mx_mech q args has = mech_mx-Ends q args
          by_name ptr_mech q args has = mech_ptr-Ends q args
          by_name ip4_mech q args has = mech_ip-Ends q args has
          by_name ip6_mech q args has = mech_ip-Ends q args has
          by_name include_mech q args has = mech_include-Ends q args has
          by_name exists_mech q args has = mech_exists-Ends q args has
