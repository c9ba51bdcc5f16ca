-- ===== src/Spf/Levels/Plain.antt =====
-- Records without a per cent sign in email/spf.js: nothing is expanded, so each is read.
use mathlib.Core.Path.{subst}
use companyly_microservices.Base.{
  ℕ, zero, suc, ◌≡◌, refl, Bool, true, false, inl, inr, Option, none, some, List, [], ◌∷◌, Text,
  All, ◌&&◌, ◌==◌, arith, Bool-cases, drop, is_empty, split_at, if◌then◌else◌,
}
use companyly_microservices.Spf.Macros.{macro_at, find_macro}
use companyly_microservices.Spf.Record.{
  MechName, all_mech, a_mech, mx_mech, ptr_mech, ip4_mech, ip6_mech, include_mech, exists_mech,
  Mechanism, span_qualifier, span_name, mech_name, stands_alone, takes_args, is_args,
  read_mechanism,
}
use companyly_microservices.Spf.Clients.{has_percent}
use companyly_microservices.Spf.Levels.Mechanisms.{HasArgs}

pub has_percent-drop : (n : ℕ) (s : Text) → has_percent s ≡ false → has_percent (drop n s) ≡ false
has_percent-drop zero s h = h
has_percent-drop (suc n) [] h = h
has_percent-drop (suc n) (c ∷ s) h = has_percent-drop n s (ground arith)

pub macro_at-plain : (c : ℕ) (s : Text) → (c == 37) ≡ false → macro_at (c ∷ s) ≡ none
unfolding macro_at
macro_at-plain c [] h = refl
macro_at-plain c (b ∷ []) h = refl
macro_at-plain c (b ∷ l ∷ s) h = rw h refl

pub find_macro-plain : (s : Text) → has_percent s ≡ false → find_macro s ≡ none
unfolding find_macro
find_macro-plain [] h = refl
find_macro-plain (c ∷ s) h =
    rw (macro_at-plain c s (ground arith), find_macro) (rw (find_macro-plain s (ground arith)) refl)

has_percent-span_qualifier :
    (s : Text) → has_percent s ≡ false → has_percent (span_qualifier s).1 ≡ false
unfolding span_qualifier
has_percent-span_qualifier [] h = refl
has_percent-span_qualifier (c ∷ s) h = ground arith

has_percent-span_name : (s : Text) → has_percent s ≡ false → has_percent (span_name s).1 ≡ false
unfolding span_name
has_percent-span_name [] h = refl
has_percent-span_name (c ∷ s) h = let ih = has_percent-span_name s (ground arith) in ground arith

split_step :
    (c : ℕ) (ws : List Text)
    → (c == 37) ≡ false
    → All (λ w. has_percent w ≡ false) ws
    → All
        (λ w. has_percent w ≡ false)
        (elim ws [ [] ↦ [] ∷ [] | w ∷ ws' ↦ if c == 32 then [] ∷ w ∷ ws' else (c ∷ w) ∷ ws' ])
split_step c [] h p = (refl, tt)
split_step c (w ∷ ws) h (p, ps) = elim (Bool-cases (c == 32)) [
  | inl e ↦ rw e (refl, (p, ps))
  | inr e ↦ rw e (ground arith, ps)
]

pub split_at-plain :
    (s : Text) → has_percent s ≡ false → All (λ w. has_percent w ≡ false) (split_at 32 s)
unfolding split_at
split_at-plain [] h = (refl, tt)
split_at-plain (c ∷ s) h =
    split_step c (split_at 32 s) (ground arith) (split_at-plain s (ground arith))

HasArgs-none : (n : MechName) → stands_alone n ≡ true → HasArgs n none
unfolding stands_alone
HasArgs-none all_mech h = tt
HasArgs-none a_mech h = tt
HasArgs-none mx_mech h = tt
HasArgs-none ptr_mech h = tt
HasArgs-none ip4_mech h = absurd (cc)
HasArgs-none ip6_mech h = absurd (cc)
HasArgs-none include_mech h = absurd (cc)
HasArgs-none exists_mech h = absurd (cc)

pub HasArgs-some : (n : MechName) (s : Text) → HasArgs n (some s)
HasArgs-some all_mech s = tt
HasArgs-some a_mech s = tt
HasArgs-some mx_mech s = tt
HasArgs-some ptr_mech s = tt
HasArgs-some ip4_mech s = cc
HasArgs-some ip6_mech s = cc
HasArgs-some include_mech s = cc
HasArgs-some exists_mech s = cc

-- What is read, where something is, has the property.
abbrev Gets {ℓ κ} : {A : Type ℓ} → (A → Type κ) → Option A → Type κ
Gets P none = Unit
Gets P (some a) = P a

module _ {ℓ κ} {A : Type ℓ} (P : A → Type κ) where
  pub Gets-some : (o : Option A) (a : A) → Gets P o → o ≡ some a → P a
  Gets-some none a h e = absurd (cc)
  Gets-some (some b) a h e = subst P (cc) h

  Gets-if :
      (b : Bool) (x y : Option A) → (b ≡ true → Gets P x) → Gets P y → Gets P (if b then x else y)
  Gets-if true x y p q = p refl
  Gets-if false x y p q = q

some_inj {ℓ} : {A : Type ℓ} {a b : A} → some a ≡ some b → a ≡ b
some_inj e = cc

-- A mechanism has the argument that it needs, and a plain one if the word was plain.
pub record WellRead (word : Text) (m : Mechanism) : Type 0 where
  pub has : HasArgs m.name m.args
  pub plain_args : has_percent word ≡ false → (s : Text) → m.args ≡ some s → has_percent s ≡ false

pub read_mechanism-WellRead : (word : Text) → Gets (WellRead word) (read_mechanism word)
unfolding read_mechanism
read_mechanism-WellRead word = by_name (mech_name (span_name (span_qualifier word).1).0)
  where
    body : Text
    body = (span_qualifier word).1

    args : Text
    args = (span_name body).1

    plain_word : has_percent word ≡ false → has_percent args ≡ false
    plain_word h = has_percent-span_name body (has_percent-span_qualifier word h)

    by_name :
        (o : Option MechName)
        → Gets (WellRead word) (elim o [
          | none ↦ none
          | some n ↦
              if is_empty args
              then (if stands_alone n
                  then some (record { name = n; qualifier = (span_qualifier word).0; args = none })
                  else none)
              else if takes_args n && is_args args
              then some (record { name = n; qualifier = (span_qualifier word).0; args = some args })
              else none
        ])
    by_name none = tt
    by_name (some n) =
        Gets-if (WellRead word) (is_empty args) _ _
          (λ _.
            Gets-if (WellRead word) (stands_alone n) _ _
              (λ e. record { has = HasArgs-none n e; plain_args = λ h s z. absurd (cc) }) tt)
          (Gets-if (WellRead word) (takes_args n && is_args args) _ _
            (λ _. record {
              has = HasArgs-some n args;
              plain_args = λ h s z. rw (some_inj z) at plain_word h;
            })
            tt)
