-- ===== src/Spf/Levels.antt =====
-- `check_host` of email/spf.js as a whole: how deep its checks are nested, what it counts, and which
-- domains it has been at.
use companyly_microservices.Base.{
  ℕ, zero, suc, ◌+◌, ◌≤◌, ◌<◌, ◌≡◌, ◌≢◌, refl, sym, ap, ◌∙◌, Bool, true, false, inl, inr, Option,
  none, some, List, [], ◌∷◌, ◌++◌, Text, length, map, not, ◌&&◌, ◌||◌, arith, Bool-cases,
  Option-cases,
}
pub mod Mechanisms
pub mod Plain
pub mod Reading
pub mod Checks
use mathlib.Core.List.{append_assoc}
use companyly_microservices.Spf.Net.{Net}
use companyly_microservices.Spf.Run.{Demand, may_fail, Ends}
use companyly_microservices.Spf.Check.{Recurse, contains}
use companyly_microservices.Spf.Clients.{Parsed, Reliable}
use companyly_microservices.Spf.{SpfResult, Spf}

-- No domain is there twice.
unfoldable pub no_repeats : List Text → Bool
unfolding contains
no_repeats [] = true
no_repeats (w ∷ ws) = not (contains w ws) && no_repeats ws

-- What a part of the check leaves of the object: the count has grown, to eleven at most, and the
-- domains that were visited still are, each of them once.
pub record Within (before after : Spf) : Type 0 where
  pub counts : before.count ≤ after.count
  pub limited : after.count ≤ 11
  pub once : no_repeats after.been_there ≡ true
  pub more : List Text
  pub extends : after.been_there ≡ more ++ before.been_there

pub Within-trans : {x y z : Spf} → Within x y → Within y z → Within x z
Within-trans p q =
    let e = p.extends in
    record {
      counts = omega (arith, p.counts, q.counts);
      limited = q.limited;
      once = q.once;
      more = q.more ++ p.more;
      extends = q.extends ∙ (ap (q.more ++◌) e ∙ sym (append_assoc q.more p.more _));
    }

-- An object with which a check may start, with so many levels left.
pub record Fit (levels : ℕ) (spf : Spf) : Type 0 where
  pub low : spf.count ≤ 11
  pub deep : 11 < levels + spf.count
  pub once : no_repeats spf.been_there ≡ true

pub Fit-Within : {n : ℕ} {x y : Spf} → Fit n x → Within x y → Fit n y
Fit-Within f w = record { low = w.limited; deep = omega (arith, f.deep, w.counts); once = w.once }

pub Within-same : {n : ℕ} (spf : Spf) → Fit n spf → Within spf spf
Within-same spf f = record {
  counts = omega arith;
  limited = f.low;
  once = f.once;
  more = [];
  extends = refl;
}

module _ (d : Demand) (net : Net) where
  -- What a part of the check calls back with, and the object that it leaves.
  abbrev pub Left : Spf → SpfResult × Spf → Type 0
  Left before (r, after) = Within before after × (may_fail d ≡ false → Parsed net after)

  -- What a check inside a check is asked for.
  abbrev pub Sound : ℕ → Recurse → Type 0
  Sound n recurse =
      (spf : Spf) (ip domain : Text) (mail_from : Option Text)
      → Fit n spf
      → (may_fail d ≡ false → net.kind ip ≢ none)
      → Ends d (Left spf) (recurse spf ip domain mail_from)
