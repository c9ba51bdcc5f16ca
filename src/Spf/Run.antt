-- ===== src/Spf/Run.antt =====
-- How a part of the check in email/spf.js ends, and postconditions on it.
use mathlib.Core.Path.{subst}
use companyly_microservices.Base.{
  Bool, true, false, ◌≡◌, ◌≢◌, refl, inl, inr, Option, none, some, if◌then◌else◌, Bool-cases,
}

-- It calls back, throws, never calls back, has not expanded its macros within its rounds, or is
-- nested deeper than its levels; the last two have no counterpart in the program.
pub data Run {ℓ} (A : Type ℓ) : Type ℓ where
  done : A → Run A
  threw silent endless too_deep : Run A

infixl 1 ◌>>=◌
abbrev pub ◌>>=◌ {ℓ κ} : {A : Type ℓ} {B : Type κ} → Run A → (A → Run B) → Run B
done a >>= f = f a
threw >>= f = threw
silent >>= f = silent
endless >>= f = endless
too_deep >>= f = too_deep

-- What is asked of a run: nothing, that it is not nested too deep, or that it calls back.
pub data Demand : Type 0 where
  any shallow total : Demand

unfoldable pub may_fail : Demand → Bool
may_fail total = false
may_fail _ = true

unfoldable pub may_sink : Demand → Bool
may_sink any = true
may_sink _ = false

-- A run that meets the demand, and calls back with nothing but values of which `P` holds.
pub data Ends {ℓ κ} {A : Type ℓ} (d : Demand) (P : A → Type κ) : Run A → Type (ℓ ⊔ κ) where
  holds : {a : A} → P a → Ends d P (done a)
  by_threw : may_fail d ≡ true → Ends d P threw
  by_silent : may_fail d ≡ true → Ends d P silent
  by_endless : may_fail d ≡ true → Ends d P endless
  by_too_deep : may_sink d ≡ true → Ends d P too_deep

module _ {ℓ κ} {A : Type ℓ} {P : A → Type κ} where
  pub Ends-bind {ℓ' κ'} :
      {B : Type ℓ'} {Q : B → Type κ'} {d : Demand} {r : Run A} {f : A → Run B}
      → Ends d P r
      → ((a : A) → P a → Ends d Q (f a))
      → Ends d Q (r >>= f)
  Ends-bind (holds {a} h) k = k a h
  Ends-bind (by_threw e) k = by_threw e
  Ends-bind (by_silent e) k = by_silent e
  Ends-bind (by_endless e) k = by_endless e
  Ends-bind (by_too_deep e) k = by_too_deep e

  pub Ends-map {κ'} :
      {Q : A → Type κ'} {d : Demand} {r : Run A} → Ends d P r → ((a : A) → P a → Q a) → Ends d Q r
  Ends-map (holds {a} h) k = holds (k a h)
  Ends-map (by_threw e) k = by_threw e
  Ends-map (by_silent e) k = by_silent e
  Ends-map (by_endless e) k = by_endless e
  Ends-map (by_too_deep e) k = by_too_deep e

  pub Ends-none {ℓ'} :
      {B : Type ℓ'} {d : Demand} (o : Option B) {x : Run A} {y : B → Run A}
      → (o ≡ none → Ends d P x)
      → ((b : B) → o ≡ some b → Ends d P (y b))
      → Ends d P (elim o [ none ↦ x | some b ↦ y b ])
  Ends-none none hx hy = hx refl
  Ends-none (some b) hx hy = hy b refl

  pub Ends-if :
      {d : Demand} (b : Bool) {x y : Run A}
      → (b ≡ true → Ends d P x)
      → (b ≡ false → Ends d P y)
      → Ends d P (if b then x else y)
  Ends-if true hx hy = hx refl
  Ends-if false hx hy = hy refl

  pub Ends-threw : (d : Demand) → may_fail d ≢ false → Ends d P threw
  Ends-threw d h = elim (Bool-cases (may_fail d)) [ inl e ↦ by_threw e | inr e ↦ absurd (h e) ]

  pub Ends-silent : (d : Demand) → may_fail d ≢ false → Ends d P silent
  Ends-silent d h = elim (Bool-cases (may_fail d)) [ inl e ↦ by_silent e | inr e ↦ absurd (h e) ]

  pub Ends-endless : (d : Demand) → may_fail d ≢ false → Ends d P endless
  Ends-endless d h = elim (Bool-cases (may_fail d)) [ inl e ↦ by_endless e | inr e ↦ absurd (h e) ]

  pub Ends-done : {d : Demand} {r : Run A} {a : A} → Ends d P r → r ≡ done a → P a
  Ends-done (holds h) e = subst P (cc) h
  Ends-done (by_threw _) e = cc
  Ends-done (by_silent _) e = cc
  Ends-done (by_endless _) e = cc
  Ends-done (by_too_deep _) e = cc

  pub Ends-shallow : {r : Run A} → Ends shallow P r → r ≢ too_deep
  unfolding may_sink
  Ends-shallow (holds h) = cc
  Ends-shallow (by_threw _) = cc
  Ends-shallow (by_silent _) = cc
  Ends-shallow (by_endless _) = cc
  Ends-shallow (by_too_deep e) = cc

  pub Ends-total : {r : Run A} → Ends total P r → (a : A) × (r ≡ done a) × P a
  unfolding may_fail may_sink
  Ends-total (holds {a} h) = (a, refl, h)
  Ends-total (by_threw e) = absurd (cc)
  Ends-total (by_silent e) = absurd (cc)
  Ends-total (by_endless e) = absurd (cc)
  Ends-total (by_too_deep e) = absurd (cc)

-- Nothing is asked.
pub anything {ℓ} : {A : Type ℓ} (r : Run A) → Ends any (λ a. Unit {0}) r
unfolding may_fail may_sink
anything (done a) = holds tt
anything threw = by_threw refl
anything silent = by_silent refl
anything endless = by_endless refl
anything too_deep = by_too_deep refl
