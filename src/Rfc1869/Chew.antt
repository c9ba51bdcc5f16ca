-- ===== src/Rfc1869/Chew.antt =====
-- The loop of `parse` in email/rfc1869.js that takes the parameters off the end of a line.
use companyly_microservices.Base.{
  ℕ, zero, suc, true, false, ◌≡◌, refl, Option, none, some, List, [], ◌∷◌, Text, ◌≤◌, ◌<◌, length,
  arith, is_empty, All, Option-cases, Bool-cases, ◌&&◌, not, inl, inr,
}
use companyly_microservices.Rfc1869.{skip_spaces, is_parameter, last_word, chew, chew_all}

length-skip_spaces : (s : Text) → length (skip_spaces s) ≤ length s
unfolding skip_spaces
length-skip_spaces [] = omega arith
length-skip_spaces (c ∷ s) = ground (arith, length-skip_spaces s)

skip_spaces-last_word :
    (word s : Text)
    → is_empty (last_word word s).1 ≡ false
    → length (skip_spaces (last_word word s).1) < length s
unfolding last_word skip_spaces
skip_spaces-last_word word [] h = ground arith
skip_spaces-last_word word (c ∷ s) h =
    ground (arith, length-skip_spaces s, skip_spaces-last_word (c ∷ word) s)

-- A round of the loop takes a parameter, and shortens the line.
abbrev Chewed : Text → Option (Text × Text) → Type 0
Chewed line none = Unit
Chewed line (some (word, rest)) = (is_parameter word ≡ true) × (length rest < length line)

chew-Chewed : (line : Text) → Chewed line (chew line)
unfolding chew
chew-Chewed line =
    elim (Bool-cases (is_parameter (last_word [] line).0 && not (is_empty (last_word [] line).1))) [
      | inl e ↦ rw e (ground (arith), ground (arith, skip_spaces-last_word [] line))
      | inr e ↦ rw e tt
    ]

chew-nil : chew [] ≡ none
unfolding chew last_word is_parameter
chew-nil = refl

chew_all-none :
    (fuel : ℕ) (line : Text) (params : List Text)
    → chew line ≡ none
    → chew_all (suc fuel) line params ≡ (line, params)
unfolding chew_all
chew_all-none fuel line params e = ground arith

chew_all-some :
    (fuel : ℕ) (line : Text) (params : List Text) (word rest : Text)
    → chew line ≡ some (word, rest)
    → chew_all (suc fuel) line params ≡ chew_all fuel rest (word ∷ params)
unfolding chew_all
chew_all-some fuel line params word rest e = ground arith

-- With as much fuel as the line has characters, the loop ends because there is nothing left to
-- chew; if it starts from parameters, all that it has at the end are parameters.
pub chew_all-ends :
    (fuel : ℕ) (line : Text) (params : List Text)
    → length line ≤ fuel
    → All (λ p. is_parameter p ≡ true) params
    → (chew (chew_all fuel line params).0 ≡ none)
      × All (λ p. is_parameter p ≡ true) (chew_all fuel line params).1
unfolding chew_all
chew_all-ends zero [] params h a = (chew-nil, a)
chew_all-ends zero (c ∷ line) params h a = absurd (omega arith)
chew_all-ends (suc fuel) line params h a = elim (Option-cases (chew line)) [
  | inl e ↦ rw (chew_all-none fuel line params e) (e, a)
  | inr ((word, rest), e) ↦
      let (p, q) : Chewed line (some (word, rest)) = rw e at (chew-Chewed line) in
      rw (chew_all-some fuel line params word rest e)
        (chew_all-ends fuel rest (word ∷ params) (omega arith) (p, a))
]
