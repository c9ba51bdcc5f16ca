-- ===== src/Rfc1869/Addresses.antt =====
-- The recipients that `parse` of email/rfc1869.js lets through.
use companyly_microservices.Base.{
  ℕ, if◌then◌else◌, length-reverse, Bool, true, false, ◌≡◌, refl, Option, none, some, List, [], ◌∷◌,
  ◌++◌, Text, ◌==◌, length, arith, is_empty, is_space, any, All, Option-cases, Bool-cases, ◌&&◌,
  ◌||◌, not, inl, inr, reverse, text_eq,
}
use companyly_microservices.Rfc1869.{
  chew_all, rcpt, ends_with, is_bracketed, is_local_name, rcpt_address, address, has_at_space,
  is_parameter, trim_end, remove_word, word_of, parse,
}
use companyly_microservices.Rfc1869.Chew.{chew_all-ends}

ends_with-append : (b : ℕ) (s : Text) → ends_with b (s ++ b ∷ []) ≡ true
unfolding ends_with
ends_with-append b [] = ground arith
ends_with-append b (c ∷ []) = ground arith
ends_with-append b (c ∷ d ∷ s) = ends_with-append b (d ∷ s)

any-append :
    (p : ℕ → Bool) (s t : Text) → any p s ≡ false → any p t ≡ false → any p (s ++ t) ≡ false
unfolding any
any-append p [] t h k = k
any-append p (c ∷ s) t h k = ground (arith, any-append p s t)

any-weaken :
    (p q : ℕ → Bool)
    → ((c : ℕ) → p c ≡ false → q c ≡ false)
    → (s : Text) → any p s ≡ false
    → any q s ≡ false
unfolding any
any-weaken p q w [] h = refl
any-weaken p q w (c ∷ s) h = ground (arith, any-weaken p q w s, w c)

-- No blank, and in angle brackets.
abbrev IsMailbox : Text → Type 0
IsMailbox a = (any is_space a ≡ false) × (is_bracketed a ≡ true)

bracketed-IsMailbox : (s : Text) → any is_space s ≡ false → IsMailbox (60 ∷ (s ++ 62 ∷ []))
unfolding is_bracketed any is_space
bracketed-IsMailbox s h =
    let e = ends_with-append 62 s in
    let w = any-weaken is_space (λ d. d == 10 || d == 13) (λ c k. ground arith) s h in
    let a = any-append is_space s (62 ∷ []) h refl in
    let b = any-append (λ d. d == 10 || d == 13) s (62 ∷ []) w refl in (a, rw (e, b) refl)

-- A recipient that may stand in an envelope: no blank, and in angle brackets or, unless the
-- parser is strict, one of the two names that need no domain.
abbrev pub IsRecipient : Bool → Text → Type 0
IsRecipient strict a =
    (any is_space a ≡ false) × ((is_bracketed a || (not strict && is_local_name a)) ≡ true)

abbrev Fits : Bool → Option Text → Type 0
Fits strict none = Unit
Fits strict (some a) = IsRecipient strict a

mailbox-Fits : (strict : Bool) (a : Text) → IsMailbox a → IsRecipient strict a
mailbox-Fits strict a (s, b) = (s, rw b refl)

-- What `rcpt_address` gives, of a line that is bracketed if the parser is strict.
rcpt_address-Fits :
    (strict : Bool) (line : Text)
    → (strict && not (is_bracketed line)) ≡ false
    → Fits strict (rcpt_address line)
unfolding rcpt_address
rcpt_address-Fits strict line g = elim (Bool-cases (has_at_space line)) [
  | inl e ↦ rw e tt
  | inr e ↦ elim (Bool-cases (any is_space line)) [
    | inl f ↦ rw (e, f) tt
    | inr f ↦ elim (Bool-cases (any (λ c. c == 64) line)) [
      | inl m ↦ elim (Bool-cases (is_bracketed line)) [
        | inl b ↦ rw (e, f, m, b) (mailbox-Fits strict line (f, b))
        | inr b ↦ rw (e, f, m, b) (mailbox-Fits strict _ (bracketed-IsMailbox line f))
      ]
      | inr m ↦ elim (Bool-cases (is_local_name line)) [
        | inl l ↦ rw (e, f, m, l) (f, ground arith)
        | inr l ↦ rw (e, f, m, l) tt
      ]
    ]
  ]
]

-- What `parse` gives for RCPT.
abbrev pub Envelope : Bool → Option (List Text) → Type 0
Envelope strict none = Unit
Envelope strict (some ws) =
    (a : Text) × (ps : List Text) × (ws ≡ a ∷ ps)
    × IsRecipient strict a
    × All (λ p. is_parameter p ≡ true) ps

address-Envelope :
    (strict : Bool) (w : Text) (ps : List Text)
    → All (λ p. is_parameter p ≡ true) ps
    → Envelope strict (address rcpt strict (w ∷ ps))
unfolding address
address-Envelope strict w ps h = elim (Bool-cases (strict && not (is_bracketed w))) [
  | inl e ↦ rw e tt
  | inr e ↦ elim (Option-cases (rcpt_address w)) [
    | inl n ↦ rw (e, n) tt
    | inr (a, n) ↦
        let fits : Fits strict (some a) = rw n at (rcpt_address-Fits strict w e) in
        rw (e, n) (a, ps, refl, fits, h)
  ]
]

address-nil : (strict : Bool) → address rcpt strict [] ≡ none
unfolding address rcpt_address is_bracketed is_local_name has_at_space any text_eq
address-nil true = refl
address-nil false = refl

address_words :
    (strict : Bool) (ws : List Text)
    → All (λ p. is_parameter p ≡ true) ws
    → Envelope strict (address rcpt strict ws)
address_words strict [] h = rw (address-nil strict) tt
address_words strict (w ∷ ps) h = address-Envelope strict w ps h.1

left-Envelope :
    (strict : Bool) (left : Text) (params : List Text)
    → All (λ p. is_parameter p ≡ true) params
    → Envelope strict (
        if is_empty left
        then address rcpt strict params
        else if has_at_space left
        then none
        else address rcpt strict (left ∷ params))
left-Envelope strict left params h = elim (Bool-cases (is_empty left)) [
  | inl e ↦ rw e (address_words strict params h)
  | inr e ↦ elim (Bool-cases (has_at_space left)) [
    | inl f ↦ rw (e, f) tt
    | inr f ↦ rw (e, f) (address-Envelope strict left params h)
  ]
]

parse-Envelope : (line : Text) (strict : Bool) → Envelope strict (parse rcpt line strict)
unfolding parse
parse-Envelope line strict =
    let start = remove_word (not strict) (word_of rcpt) (trim_end line) in
    let (ends, ps) =
      chew_all-ends (length start) (reverse start) [] (omega (arith, length-reverse start)) tt in
    left-Envelope strict (reverse (chew_all (length start) (reverse start) []).0) _ ps

-- No line puts into the envelope a recipient that is no address: what `parse` lets through for RCPT
-- is an address followed by parameters. The address has no blank, and stands in angle brackets or,
-- unless the parser is strict, is `postmaster` or `abuse`; each parameter has the form that
-- RFC 1869 asks for.
pub parse-IsRecipient :
    (line : Text) (strict : Bool) (ws : List Text)
    → parse rcpt line strict ≡ some ws
    → (a : Text) × (ps : List Text) × (ws ≡ a ∷ ps)
      × IsRecipient strict a
      × All (λ p. is_parameter p ≡ true) ps
parse-IsRecipient line strict ws e = rw e at (parse-Envelope line strict)
