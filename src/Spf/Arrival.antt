-- ===== src/Spf/Arrival.antt =====
-- `mech_mx` of email/spf.js as a whole: its calls do not depend on the order of the replies.
use companyly_microservices.Base.{
  ℕ, suc, ◌+◌, ◌≤◌, ◌<◌, ◌≡◌, refl, sym, ap, ◌∙◌, Bool, true, false, Option, List, [], ◌∷◌, Text,
  map, length, ◌||◌, arith, ltb,
}
use mathlib.Core.List.{Perm}
use mathlib.Core.List.Permᴰ.{Permᴰ, nil, cons, swap, trans}
use mathlib.Core.Logic.{∥∥₁_elim}
use native.Mathlib.Decide.{ℕ_discrete}
use companyly_microservices.Spf.Net.{Answer, found, absent, failed, Net}
use companyly_microservices.Spf.Mechanisms.{mx_cidr_of}
use companyly_microservices.Spf.MxCalls.{MxWait, mx_replies, mx_calls}
use companyly_microservices.Spf.{Spf}
use companyly_microservices.Spf.Exchanges.{failures, ends_well, mx_replies-length, heard}

-- What a permutation of the names leaves of the replies.
abbrev SameReplies : (Text → Bool) → List (Answer (List Text)) → List (Answer (List Text)) → Type 0
SameReplies hit rs ss =
    (length rs ≡ length ss) × (heard hit rs ≡ heard hit ss) × (failures rs ≡ failures ss)

SameReplies-prop :
    (hit : Text → Bool) (rs ss : List (Answer (List Text))) → IsProp (SameReplies hit rs ss)
SameReplies-prop hit rs ss = hlevel (ℕ_discrete)

heard-split :
    (hit : Text → Bool) (r : Answer (List Text)) (rs : List (Answer (List Text)))
    → heard hit (r ∷ rs) ≡ heard hit (r ∷ []) || heard hit rs
heard-split hit (found l) rs = ground arith
heard-split hit absent rs = refl
heard-split hit failed rs = refl

Perm-SameReplies :
    (hit : Text → Bool) (lookup : Text → Answer (List Text)) {l m : List Text}
    → Permᴰ l m
    → SameReplies hit (map lookup l) (map lookup m)
Perm-SameReplies hit lookup nil = (refl, refl, refl)
Perm-SameReplies hit lookup (cons {a} {b} {l₁ = l} {l₂ = m} e d) =
    let (n, h, f) = Perm-SameReplies hit lookup d in
    rw e (
      ap suc n,
      (heard-split hit (lookup b) (map lookup l)
          ∙ ap (heard hit (lookup b ∷ []) ||◌) h
          ∙ sym (heard-split hit (lookup b) (map lookup m))),
      omega arith,
    )
Perm-SameReplies hit lookup (swap {a} {b} {l = l} e f) =
    let p = heard-split hit (lookup a) (lookup b ∷ map lookup l) in
    let q = heard-split hit (lookup b) (map lookup l) in
    let p' = heard-split hit (lookup b) (lookup a ∷ map lookup l) in
    let q' = heard-split hit (lookup a) (map lookup l) in
    rw (← e, ← f) (refl, ground arith, omega arith)
Perm-SameReplies hit lookup (trans c d) =
    let (n, h, f) = Perm-SameReplies hit lookup c in
    let (n', h', f') = Perm-SameReplies hit lookup d in (n ∙ n', h ∙ h', f ∙ f')

length-map : (f : Text → Answer (List Text)) (l : List Text) → length (map f l) ≡ length l
length-map f [] = refl
length-map f (n ∷ l) = ap suc (length-map f l)

module _ (net : Net) (spf : Spf) (q : ℕ) (args : Option Text) where
  abbrev lookup : Text → Answer (List Text)
  lookup = net.resolve_ip spf.ip_ver

  abbrev start : List Text → MxWait
  start mxes = record { pending = length mxes; addresses = []; calls = [] }

  opened :
      (mxes : List Text)
      → 0 < length mxes
      → length mxes ≤ 10
      → mx_calls net q args spf mxes
        ≡ (mx_replies net spf q
            (mx_cidr_of spf.ip_ver args)
            (map lookup (net.arrival mxes))
            (start mxes)).calls
  unfolding mx_calls
  opened [] some_exchange few = absurd (omega arith)
  opened (m ∷ mxes) some_exchange few =
      let e : ltb 10 (length (m ∷ mxes)) ≡ false = ground arith in rw e refl

  same :
      (hit : Text → Bool) (mxes : List Text)
      → Perm (net.arrival mxes) mxes
      → SameReplies hit (map lookup (net.arrival mxes)) (map lookup mxes)
  same hit mxes arrives = ∥∥₁_elim arrives (SameReplies-prop hit _ _) (Perm-SameReplies hit lookup)

  -- `mech_mx` calls back once for each lookup that fails otherwise than by an absence, and once more
  -- unless the last reply is such a failure.
  mx_calls-length :
      (mxes : List Text)
      → Perm (net.arrival mxes) mxes
      → 0 < length mxes
      → length mxes ≤ 10
      → length (mx_calls net q args spf mxes)
        ≡ failures (map lookup mxes) + ends_well (map lookup (net.arrival mxes))
  unfolding mx_calls
  mx_calls-length mxes arrives some_exchange few =
      let (n, h, f) = same (λ a. true) mxes arrives in
      let p =
        mx_replies-length net spf q (mx_cidr_of spf.ip_ver args) (map lookup (net.arrival mxes))
          (start mxes) (omega (arith, n, length-map lookup mxes)) in
      ap length (opened mxes some_exchange few) ∙ (p ∙ omega (arith, f))
