-- ===== src/Spf/Rounds.antt =====
-- The loop of `expand_macros` in email/spf.js, on values that hold no macro: it ends.
use companyly_microservices.Base.{
  ℕ, zero, suc, ◌+◌, ◌-◌, ◌≤◌, ◌<◌, true, ◌==◌, ◌≡◌, refl, ap, ◌∙◌, ◌⊎◌, inl, inr, Option, some, [],
  ◌∷◌, ◌++◌, Text, is_empty, drop, length, arith, Bool-cases, Option-cases,
}
use companyly_microservices.Spf.Run.{done}
use companyly_microservices.Spf.Macros.{
  Macro, macro_at, macro_text, find_macro, value_of, transform, cut, first_place, replace_first,
  expand_one, expand_loop, expand_codes, expand_macros,
}
use companyly_microservices.Spf.Levels.Plain.{macro_at-plain}
use companyly_microservices.Spf.{Spf}
use companyly_microservices.Spf.Expansion.{
  percents, is_quiet, Quiet, percents-append, percents-quiet, percents-drop, drop-drop,
  dollars-quiet, transform-quiet,
}

cut-eq : (word s rest : Text) → cut word s ≡ some rest → s ≡ word ++ rest
unfolding cut
cut-eq [] s rest e = cc
cut-eq (w ∷ word) [] rest e = absurd (cc)
cut-eq (w ∷ word) (c ∷ s) rest e = elim (Bool-cases (w == c)) [
  | inl h ↦
      let same : w ≡ c = ground arith in
      rw (← same) (ap (w ∷◌) (cut-eq word s rest (rw (h, cut) at e)))
  | inr h ↦ absurd (let k = rw (h, cut) at e in cc)
]

some_pair_inj {ℓ κ} :
    {A : Type ℓ} {B : Type κ} {a x : A} {b y : B}
    → ◌≡◌ {A = Option (A × B)} (some (a, b)) (some (x, y))
    → (x ≡ a) × (y ≡ b)
some_pair_inj e = (cc, cc)

first_place-eq :
    (word s before behind : Text)
    → first_place word s ≡ some (before, behind)
    → s ≡ before ++ (word ++ behind)
unfolding first_place
first_place-eq word [] before behind e = absurd (cc)
first_place-eq word (c ∷ s) before behind e = elim (Option-cases (cut word (c ∷ s))) [
  | inr (rest, k) ↦
      let (p, q) = some_pair_inj (rw (k, first_place) at e) in
      rw (p, q) (cut-eq word (c ∷ s) rest k)
  | inl k ↦ elim (Option-cases (first_place word s)) [
    | inl n ↦ absurd (let h = rw (k, n, first_place) at e in cc)
    | inr ((b, r), n) ↦
        let (p, q) = some_pair_inj (rw (k, n, first_place) at e) in
        rw (p, q) (ap (c ∷◌) (first_place-eq word s b r n))
  ]
]

replace_first-percents :
    (word v s : Text)
    → is_quiet v ≡ true
    → (replace_first (37 ∷ word) v s ≡ s) ⊎ (percents (replace_first (37 ∷ word) v s) < percents s)
unfolding replace_first
replace_first-percents word v s q = elim (Option-cases (first_place (37 ∷ word) s)) [
  | inl k ↦ inl (rw (k, replace_first) refl)
  | inr ((b, r), k) ↦
      let before : percents s ≡ percents b + (1 + (percents word + percents r)) =
        ap percents (first_place-eq (37 ∷ word) s b r k)
        ∙ omega (arith, percents-append b (37 ∷ (word ++ r)), percents-append word r) in
      inr (
        rw (k, replace_first)
          (rw (dollars-quiet (37 ∷ word) b r v q) (
            omega (
              arith,
              before,
              percents-append b (v ++ r),
              percents-append v r,
              percents-quiet v q,
            ))))
]

-- A replacement takes the per cent sign of the macro away; without one the text stays.
expand_one-percents :
    (spf : Spf) (m : Macro) (s : Text)
    → Quiet spf
    → (expand_one spf m s ≡ s) ⊎ (percents (expand_one spf m s) < percents s)
unfolding expand_one macro_text
expand_one-percents spf m s quiet = elim (Option-cases (value_of m.letter spf)) [
  | inl k ↦ inl (rw (k, expand_one) refl)
  | inr (v, k) ↦ elim (Bool-cases (is_empty v)) [
    | inl e ↦ inl (rw (k, expand_one) (rw e refl))
    | inr e ↦
        rw (k, expand_one)
          (rw e (
            replace_first-percents (drop 1 (macro_text m)) (transform m v) s
              (transform-quiet m v (quiet m.letter v k))))
  ]
]

macro_at-percent : (c : ℕ) (s : Text) (m : Macro) → macro_at (c ∷ s) ≡ some m → (c == 37) ≡ true
macro_at-percent c s m e = elim (Bool-cases (c == 37)) [
  | inl h ↦ h
  | inr h ↦ absurd (let p = macro_at-plain c s h in cc)
]

find_macro-percents :
    (s : Text) (n k : ℕ) (m : Macro)
    → find_macro s ≡ some (n, m)
    → percents (drop (n + suc k) s) < percents s
unfolding find_macro
find_macro-percents [] n k m e = absurd (cc)
find_macro-percents (c ∷ s) n k m e = elim (Option-cases (macro_at (c ∷ s))) [
  | inr (m', h) ↦
      let (p, q) = some_pair_inj (rw (h, find_macro) at e) in
      let percent = macro_at-percent c s m' h in
      let next : n + suc k ≡ suc k = omega arith in
      rw (next, percent) (omega (arith, percents-drop k s))
  | inl h ↦ elim (Option-cases (find_macro s)) [
    | inl g ↦ absurd (let z = rw (h, g, find_macro) at e in cc)
    | inr ((n', m'), g) ↦
        let (p, q) = some_pair_inj (rw (h, g, find_macro) at e) in
        let next : n + suc k ≡ suc (n' + suc k) = omega arith in
        rw next (ground (arith, find_macro-percents s n' k m' g))
  ]
]

-- Rounds that are enough, for so many per cent signs at most, behind the last of a round; about the
-- square of their number.
abbrev pub enough : ℕ → ℕ → ℕ
enough most zero = 1
enough most (suc t) = suc (most + enough most t)

enough-pred : (most t : ℕ) → 0 < t → enough most t ≡ suc (most + enough most (t - 1))
enough-pred most zero h = absurd (omega arith)
enough-pred most (suc t) h = ap (λ i. suc (most + enough most i)) (omega arith)

expand_loop-ends :
    (spf : Spf) (most : ℕ)
    → Quiet spf
    → (rounds t u last : ℕ) (str : Text) → percents str ≤ t
    → t ≤ most
    → percents (drop last str) ≤ u
    → enough most t + u ≤ rounds
    → (s : Text) × (expand_loop rounds spf last str ≡ done s)
unfolding expand_loop macro_text
expand_loop-ends spf most quiet zero zero u last str a b c d = absurd (omega arith)
expand_loop-ends spf most quiet zero (suc t) u last str a b c d = absurd (omega arith)
expand_loop-ends spf most quiet (suc rounds) t u last str a b c d =
    elim (Option-cases (find_macro (drop last str))) [
      | inl e ↦ (str, rw (e, expand_loop) refl)
      | inr ((n, m), e) ↦
          let k = length (drop 1 (macro_text m)) in
          let str' = expand_one spf m str in
          let last' = last + (n + suc k) in
          let fewer = find_macro-percents (drop last str) n k m e in
          let onward : (s : Text) × (expand_loop rounds spf last' str' ≡ done s) =
            elim (expand_one-percents spf m str quiet) [
              | inl same ↦
                  expand_loop-ends spf most quiet rounds t (u - 1) last' str'
                    (omega (arith, ap percents same)) b
                    (omega (
                      arith,
                      ap (λ x. percents (drop last' x)) same,
                      ap percents (drop-drop last (n + suc k) str),
                    ))
                    (omega arith)
              | inr less ↦
                  expand_loop-ends spf most quiet rounds (t - 1) most last' str' (omega arith)
                    (omega arith) (omega (arith, percents-drop last' str'))
                    (omega (arith, enough-pred most t (omega arith)))
            ] in
          (onward.0, rw (e, expand_loop) onward.1)
    ]

-- Where no value of a macro has a per cent sign or a dollar, the expansion of a text ends: so many
-- rounds are enough as `enough` says for its per cent signs.
pub expand_macros-ends :
    (spf : Spf) (rounds : ℕ) (str : Text)
    → Quiet spf
    → enough (percents str) (percents str) + percents str ≤ rounds
    → (s : Text) × (expand_macros rounds spf str ≡ done s)
unfolding expand_macros
expand_macros-ends spf rounds str quiet h =
    let (s, e) =
      expand_loop-ends spf (percents str) quiet rounds (percents str) (percents str) 0 str
        (omega arith) (omega arith) (omega arith) h in
    (expand_codes s, rw e refl)
