-- ===== src/Spf/Levels/Checks.antt =====
-- The chains of email/spf.js and `check_host`, nested to the depth that its limit of lookups allows.
use companyly_microservices.Base.{
  ℕ, zero, suc, ◌≤◌, ◌<◌, ◌≡◌, ◌≢◌, refl, true, false, Option, none, some, List, [], ◌∷◌, Text, All,
  map, to_lower, arith, is_empty,
}
use companyly_microservices.Spf.Net.{Version, ipv4, ipv6, Answer, found, absent, failed, Net}
use companyly_microservices.Spf.Run.{
  done, too_deep, Demand, shallow, total, may_fail, Ends, holds, Ends-bind, Ends-if, Ends-map,
  Ends-none, Ends-threw, Ends-done, Ends-shallow, Ends-total,
}
use companyly_microservices.Spf.Record.{
  Mechanism, Modifier, Found, no_record, several, one_record, find_record,
}
use companyly_microservices.Spf.Check.{
  Recurse, stopped, mod_chain, mech_chain, prepare, run_record, on_txt, check_host,
}
use companyly_microservices.Spf.Clients.{has_percent, Parsed, Reliable}
use companyly_microservices.Spf.Levels.{
  no_repeats, Within, Within-trans, Fit, Fit-Within, Within-same, Left, Sound,
}
use companyly_microservices.Spf.Levels.Mechanisms.{HasArgs, run_modifier-Ends, run_mechanism-Ends}
use companyly_microservices.Spf.Levels.Reading.{Ready, read_record-Ends}
use companyly_microservices.Spf.{
  SpfResult, spf_none, spf_pass, spf_fail, spf_softfail, spf_neutral, spf_temperror, spf_permerror,
  Spf,
}

-- A chain that goes on is below the limit.
stopped-low : (spf : Spf) (r : SpfResult) → stopped spf r ≡ none → spf.count ≤ 10
unfolding stopped
stopped-low spf spf_none e = ground arith
stopped-low spf spf_pass e = ground arith
stopped-low spf spf_fail e = ground arith
stopped-low spf spf_softfail e = ground arith
stopped-low spf spf_neutral e = ground arith
stopped-low spf spf_temperror e = ground arith
stopped-low spf spf_permerror e = ground arith

module _ (d : Demand) (net : Net) (good : may_fail d ≡ false → Reliable net) where
  onward : (x y : Spf) (p : SpfResult × Spf) → Within x y → Left d net y p → Left d net x p
  onward x y (r, z) w (w', parsed) = (Within-trans w w', parsed)

  module _ (n : ℕ) (recurse : Recurse) (sound : Sound d net n recurse) where
    mod_chain-Ends :
        (mods : List Modifier) (r : SpfResult) (spf : Spf)
        → Fit (suc n) spf
        → (may_fail d ≡ false → Parsed net spf)
        → Ends d (Left d net spf) (mod_chain recurse mods r spf)
    unfolding mod_chain
    mod_chain-Ends [] r spf f parsed =
        Ends-none (stopped spf r) (λ _. holds (Within-same spf f, parsed))
          (λ r' _. holds (Within-same spf f, parsed))
    mod_chain-Ends (m ∷ mods) r spf f parsed =
        Ends-none (stopped spf r)
          (λ e.
            Ends-bind
              (run_modifier-Ends d net good n spf f (stopped-low spf r e) parsed recurse sound m)
              (λ (r', s) (w, p).
                Ends-map (mod_chain-Ends mods r' s (Fit-Within f w) p) (λ q. onward spf s q w)))
          (λ r' _. holds (Within-same spf f, parsed))

    mech_chain-Ends :
        (mechs : List Mechanism) (mods : List Modifier) (r : SpfResult) (spf : Spf)
        → (may_fail d ≡ false → All (λ m. HasArgs m.name m.args) mechs)
        → Fit (suc n) spf
        → (may_fail d ≡ false → Parsed net spf)
        → Ends d (Left d net spf) (mech_chain recurse net mechs mods r spf)
    unfolding mech_chain
    mech_chain-Ends [] mods r spf has f parsed =
        Ends-none (stopped spf r)
          (λ _.
            Ends-if (is_empty mods) (λ _. holds (Within-same spf f, parsed))
              (λ _. mod_chain-Ends mods spf_none spf f parsed))
          (λ r' _. holds (Within-same spf f, parsed))
    mech_chain-Ends (m ∷ mechs) mods r spf has f parsed =
        Ends-none (stopped spf r)
          (λ e.
            Ends-bind
              (run_mechanism-Ends d net good n spf f (stopped-low spf r e) parsed recurse sound m
                (λ t. (has t).0))
              (λ (r', s) (w, p).
                Ends-map (mech_chain-Ends mechs mods r' s (λ t. (has t).1) (Fit-Within f w) p)
                  (λ q. onward spf s q w)))
          (λ r' _. holds (Within-same spf f, parsed))

    module _ (rounds : ℕ) (enough : may_fail d ≡ false → 0 < rounds) where
      run_record-Ends :
          (s : Text) (spf : Spf)
          → (may_fail d ≡ false → has_percent s ≡ false)
          → Fit (suc n) spf
          → (may_fail d ≡ false → Parsed net spf)
          → Ends d (Left d net spf) (run_record recurse rounds net s spf)
      unfolding run_record
      run_record-Ends s spf plain f parsed =
          Ends-bind (read_record-Ends d rounds enough net spf s plain) run
        where
          run :
              (o : Option (List Mechanism × List Modifier))
              → Ready d rounds enough o
              → Ends d (Left d net spf) (elim o [
                | none ↦ done (spf_permerror, spf)
                | some (mechs, mods) ↦ mech_chain recurse net mechs mods spf_none spf
              ])
          run none h = holds (Within-same spf f, parsed)
          run (some (mechs, mods)) h = mech_chain-Ends mechs mods spf_none spf (λ _. h) f parsed

      on_txt-Ends :
          (name : Text) (o : Answer (List (List Text))) (spf : Spf)
          → net.resolve_txt name ≡ o
          → Fit (suc n) spf
          → (may_fail d ≡ false → Parsed net spf)
          → Ends d (Left d net spf) (on_txt recurse rounds net o spf)
      unfolding on_txt
      on_txt-Ends name absent spf e f parsed = holds (Within-same spf f, parsed)
      on_txt-Ends name failed spf e f parsed = holds (Within-same spf f, parsed)
      on_txt-Ends name (found rrs) spf e f parsed = by_record (find_record rrs) refl
        where
          by_record :
              (r : Found)
              → find_record rrs ≡ r
              → Ends d (Left d net spf) (elim r [
                | no_record ↦ done (spf_none, spf)
                | several ↦ done (spf_permerror, spf)
                | one_record s ↦ run_record recurse rounds net s (record spf { spf_record = s })
              ])
          by_record no_record k = holds (Within-same spf f, parsed)
          by_record several k = holds (Within-same spf f, parsed)
          by_record (one_record s) k =
              Ends-map
                (run_record-Ends s (record spf { spf_record = s })
                  (λ t. (good t).plain name rrs s e k)
                  (record { low = f.low; deep = f.deep; once = f.once }) parsed)
                (λ q.
                  onward spf (record spf { spf_record = s }) q
                    (record {
                      counts = omega arith;
                      limited = f.low;
                      once = f.once;
                      more = [];
                      extends = refl;
                    }))

  prepare-Parsed :
      (v : Version) (spf : Spf) (ip domain : Text) (mail_from : Option Text)
      → net.kind ip ≡ some v
      → may_fail d ≡ false
      → Parsed net (prepare net v spf ip domain mail_from)
  unfolding prepare
  prepare-Parsed ipv4 spf ip domain mail_from e t = (e, e)
  prepare-Parsed ipv6 spf ip domain mail_from e t = (e, (good t).printed ip e)

  prepare-Within :
      {n : ℕ} (v : Version) (spf : Spf) (ip domain : Text) (mail_from : Option Text)
      → Fit n spf
      → Within spf (prepare net v spf ip domain mail_from)
  unfolding prepare
  prepare-Within v spf ip domain mail_from f = record {
    counts = omega arith;
    limited = f.low;
    once = f.once;
    more = [];
    extends = refl;
  }

  module _ (rounds : ℕ) (enough : may_fail d ≡ false → 0 < rounds) where
    check_host-Ends : (n : ℕ) → Sound d net n (check_host n rounds net)
    unfolding check_host
    check_host-Ends zero spf ip domain mail_from f known =
        absurd (let a = f.low in let b = f.deep in omega arith)
    check_host-Ends (suc n) spf ip domain mail_from f known =
        Ends-none (net.kind ip) (λ e. Ends-threw d (λ t. known t e))
          (λ v e.
            let s = prepare net v spf ip domain mail_from in
            let w = prepare-Within v spf ip domain mail_from f in
            Ends-map
              (on_txt-Ends n (check_host n rounds net) (check_host-Ends n) rounds enough
                (map to_lower domain) _ s refl (Fit-Within f w)
                (prepare-Parsed v spf ip domain mail_from e))
              (λ q. onward spf s q w))

-- An object that has counted no more than the limit, and has been at no domain twice, may start.
Fit-twelve : (spf : Spf) → spf.count ≤ 11 → no_repeats spf.been_there ≡ true → Fit 12 spf
Fit-twelve spf low once = record { low = low; deep = omega arith; once = once }

-- Twelve levels are enough: for an object that has counted eleven lookups at most and has been at no
-- domain twice, as a new one, no check is nested deeper, whatever the records say of one another.
pub check_host-ne-too_deep :
    (rounds : ℕ) (net : Net) (spf : Spf) (ip domain : Text) (mail_from : Option Text)
    → spf.count ≤ 11
    → no_repeats spf.been_there ≡ true
    → check_host 12 rounds net spf ip domain mail_from ≢ too_deep
unfolding may_fail
check_host-ne-too_deep rounds net spf ip domain mail_from low once = Ends-shallow (
    check_host-Ends shallow net (λ t. absurd (cc)) rounds (λ t. absurd (cc)) 12 spf ip domain
      mail_from (Fit-twelve spf low once) (λ t. absurd (cc)))

-- A check with twelve levels on an object that has counted eleven lookups at most and has been at no
-- domain twice: when it answers, the object has counted eleven at most and no fewer than before, has
-- been at no domain twice, and has been wherever it was before.
pub check_host-Within :
    (rounds : ℕ) (net : Net) (spf : Spf) (ip domain : Text) (mail_from : Option Text)
    (r : SpfResult) (after : Spf)
    → spf.count ≤ 11
    → no_repeats spf.been_there ≡ true
    → check_host 12 rounds net spf ip domain mail_from ≡ done (r, after)
    → Within spf after
unfolding may_fail
check_host-Within rounds net spf ip domain mail_from r after low once e =
    (Ends-done
      (check_host-Ends shallow net (λ t. absurd (cc)) rounds (λ t. absurd (cc)) 12 spf ip domain
        mail_from (Fit-twelve spf low once) (λ t. absurd (cc)))
      e).0

-- Where DNS and ipaddr.js do as documented, and no record has a per cent sign, the check of an address
-- that ipaddr.js can read calls back with a result, for an object that has counted eleven lookups at
-- most and has been at no domain twice; twelve levels and one round are enough.
pub check_host-answers :
    (rounds : ℕ) (net : Net) (spf : Spf) (ip domain : Text) (mail_from : Option Text)
    → Reliable net
    → 0 < rounds
    → net.kind ip ≢ none
    → spf.count ≤ 11
    → no_repeats spf.been_there ≡ true
    → (r : SpfResult) × (after : Spf) × (check_host 12 rounds net spf ip domain mail_from
        ≡ done (r, after))
check_host-answers rounds net spf ip domain mail_from good enough known low once =
    let ((r, after), e, h) = Ends-total (
      check_host-Ends total net (λ t. good) rounds (λ t. enough) 12 spf ip domain mail_from
        (Fit-twelve spf low once) (λ t. known)) in
    (r, after, e)
