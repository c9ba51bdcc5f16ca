-- ===== src/Outbound/Qfile/Digits.antt =====
-- Numbers in the file names of email/outbound/qfile.js: what is written can be read again.
use companyly_microservices.Base.{
  ℕ, ◌+◌, ◌-◌, ◌*◌, ◌/◌, ◌%◌, ◌≤◌, ◌<◌, zero, suc, Bool, true, false, ◌≡◌, refl, ap, ◌∙◌, some, [],
  ◌∷◌, ◌++◌, Text, ltb, is_empty, decimal, decimal_fuel, arith, Bool-cases, and_true, inl, inr,
}
use companyly_microservices.Rfc1869.{all}
use companyly_microservices.Outbound.Delivery.Reply.{is_digit}
use companyly_microservices.Outbound.Qfile.{parse_from, parse_int}

digit-IsDigit : (n : ℕ) → n < 10 → is_digit (48 + n) ≡ true
unfolding is_digit
digit-IsDigit n h = ground arith

all_snoc :
    (p : ℕ → Bool) (s : Text) (c : ℕ) → all p s ≡ true → p c ≡ true → all p (s ++ c ∷ []) ≡ true
unfolding all
all_snoc p [] c h k = rw k refl
all_snoc p (d ∷ s) c h k =
    let (first, rest) = and_true (p d) (all p s) h in rw first (all_snoc p s c rest k)

parse_from_snoc :
    (m : ℕ) (s : Text) (c : ℕ)
    → all is_digit s ≡ true
    → is_digit c ≡ true
    → parse_from m (s ++ c ∷ []) ≡ parse_from m s * 10 + (c - 48)
unfolding parse_from all
parse_from_snoc m [] c h k = rw (k, parse_from) refl
parse_from_snoc m (d ∷ s) c h k =
    let (first, rest) = and_true (is_digit d) (all is_digit s) h in
    rw (first, parse_from) (parse_from_snoc (m * 10 + (d - 48)) s c rest k)

decimal_fuel-IsDigits : (f n : ℕ) → n < f → all is_digit (decimal_fuel f n) ≡ true
unfolding decimal_fuel all
decimal_fuel-IsDigits zero n h = absurd (omega arith)
decimal_fuel-IsDigits (suc f) n h = elim (Bool-cases (ltb n 10)) [
  | inl e ↦ rw (e, decimal_fuel) (rw (digit-IsDigit n (ground arith), all) refl)
  | inr e ↦
      let big : 10 ≤ n = ground arith in
      rw (e, decimal_fuel)
        (all_snoc is_digit (decimal_fuel f (n / 10)) (48 + n % 10)
          (decimal_fuel-IsDigits f (n / 10) (omega arith)) (digit-IsDigit (n % 10) (omega arith)))
]

parse_from-decimal_fuel : (f n : ℕ) → n < f → parse_from 0 (decimal_fuel f n) ≡ n
unfolding decimal_fuel parse_from
parse_from-decimal_fuel zero n h = absurd (omega arith)
parse_from-decimal_fuel (suc f) n h = elim (Bool-cases (ltb n 10)) [
  | inl e ↦ rw (e, decimal_fuel) (rw (digit-IsDigit n (ground arith), parse_from) (omega arith))
  | inr e ↦
      let big : 10 ≤ n = ground arith in
      rw (e, decimal_fuel) rw
        (parse_from_snoc 0 (decimal_fuel f (n / 10)) (48 + n % 10)
          (decimal_fuel-IsDigits f (n / 10) (omega arith)) (digit-IsDigit (n % 10) (omega arith)))
        rw (parse_from-decimal_fuel f (n / 10) (omega arith)) (omega arith)
]

plus_one : (n : ℕ) → n + 1 ≡ suc n
plus_one n = omega arith

parse_int-digits :
    (s : Text) → all is_digit s ≡ true → is_empty s ≡ false → parse_int s ≡ some (parse_from 0 s)
unfolding parse_int all
parse_int-digits [] h some_digit = absurd (ground arith)
parse_int-digits (c ∷ s) h some_digit =
    let (first, rest) = and_true (is_digit c) (all is_digit s) h in rw (first, parse_int) refl

is_empty-snoc : (s : Text) (c : ℕ) → is_empty (s ++ c ∷ []) ≡ false
is_empty-snoc [] c = refl
is_empty-snoc (d ∷ s) c = refl

is_empty-decimal_fuel : (f n : ℕ) → is_empty (decimal_fuel (suc f) n) ≡ false
unfolding decimal_fuel
is_empty-decimal_fuel f n = elim (Bool-cases (ltb n 10)) [
  | inl e ↦ rw e refl
  | inr e ↦ rw e (is_empty-snoc (decimal_fuel f (n / 10)) (48 + n % 10))
]

pub decimal-IsDigits : (n : ℕ) → all is_digit (decimal n) ≡ true
unfolding decimal
decimal-IsDigits n = decimal_fuel-IsDigits (n + 1) n (omega arith)

pub parse_int-decimal : (n : ℕ) → parse_int (decimal n) ≡ some n
unfolding decimal
parse_int-decimal n =
    parse_int-digits (decimal n) (decimal-IsDigits n) (rw (plus_one n) (is_empty-decimal_fuel n n))
    ∙ ap some (parse_from-decimal_fuel (n + 1) n (omega arith))
