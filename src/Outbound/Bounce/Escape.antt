-- ===== src/Outbound/Bounce/Escape.antt =====
-- What the values become in the HTML part of the bounce message of email/outbound/hmail.js.
use companyly_microservices.Base.{
  ℕ, Bool, true, ◌≡◌, refl, none, some, [], ◌∷◌, ◌++◌, Text, ◌||◌, ◌==◌, not, codes, arith,
  Option-cases, and_true, inl, inr,
}
use companyly_microservices.Rfc1869.{all}
use companyly_microservices.Outbound.Bounce.Template.{escaped_char, escape}

-- A character that neither opens nor closes a tag or a quotation, nor ends the line.
abbrev pub is_harmless : ℕ → Bool
is_harmless c = not (c == 60 || (c == 62 || (c == 34 || (c == 39 || (c == 13 || c == 10)))))

escaped_char-harmless : (c : ℕ) → escaped_char c ≡ none → is_harmless c ≡ true
unfolding escaped_char
escaped_char-harmless c e = ground arith

escaped_char-names :
    (c : ℕ) (name : Text) → escaped_char c ≡ some name → all is_harmless name ≡ true
unfolding escaped_char all
escaped_char-names c name e = ground arith

all-append : (p : ℕ → Bool) (s t : Text) → all p s ≡ true → all p t ≡ true → all p (s ++ t) ≡ true
unfolding all
all-append p [] t h k = k
all-append p (c ∷ s) t h k =
    let (first, rest) = and_true (p c) (all p s) h in rw first (all-append p s t rest k)

-- Whatever the values are, what they become in the HTML part has no character that opens or closes a
-- tag or a quotation, and no line end.
pub escape-IsHarmless : (s : Text) → all is_harmless (escape s) ≡ true
unfolding escape all
escape-IsHarmless [] = refl
escape-IsHarmless (c ∷ s) = elim (Option-cases (escaped_char c)) [
  | inl e ↦ rw (e, all, escape) rw (escaped_char-harmless c e) (escape-IsHarmless s)
  | inr (name, e) ↦
      rw (e, all, escape)
        (all-append is_harmless name (59 ∷ escape s) (escaped_char-names c name e)
          (escape-IsHarmless s))
]

-- A comma in a value becomes `&undefined;`.
escape-comma : (s : Text) → escape (44 ∷ s) ≡ codes "&undefined;" ++ escape s
unfolding escape escaped_char
escape-comma s = refl
