-- ===== src/Spf/Endless.antt =====
-- `expand_macros` of email/spf.js on a sender that holds a macro itself.
use companyly_microservices.Base.{
  ℕ, zero, suc, ◌+◌, false, ◌≡◌, refl, ap, some, List, [], ◌∷◌, ◌++◌, Text, All, ◌==◌, codes,
  split_at, drop, length, arith, any, to_lower,
}
use companyly_microservices.Spf.Run.{endless}
use companyly_microservices.Spf.Macros.{
  Macro, macro_at, is_macro_letter, span_digits, optional, is_delimiter, macro_text, find_macro,
  value_of, separator, transform, cut, first_place, dollars, replace_first, expand_one, expand_loop,
  expand_macros,
}
use companyly_microservices.Spf.{Spf}

-- So many letters `a`.
letters : ℕ → Text
letters zero = []
letters (suc n) = 97 ∷ letters n

-- The macro of the sender's local part.
abbrev pub local_part : Text
local_part = codes "%{l}"

abbrev the_macro : Macro
the_macro = record { letter = 108; digits = []; flag = []; delimiter = [] }

-- A local part that holds the macro of the local part.
abbrev pub nested : Text
nested = codes "aaaa%{l}"

letters-snoc : (n : ℕ) (s : Text) → letters n ++ 97 ∷ s ≡ 97 ∷ (letters n ++ s)
unfolding letters
letters-snoc zero s = refl
letters-snoc (suc n) s = ap (97 ∷◌) (letters-snoc n s)

drop-letters : (n : ℕ) (s : Text) → drop n (letters n ++ s) ≡ s
unfolding letters
drop-letters zero s = refl
drop-letters (suc n) s = drop-letters n s

first_place-letters :
    (n : ℕ) → first_place local_part (letters n ++ local_part) ≡ some (letters n, [])
unfolding letters first_place cut
first_place-letters zero = refl
first_place-letters (suc n) = rw (first_place-letters n) refl

-- The first part of a text up to a separator.
split_at-head :
    (p host : Text)
    → All (λ c. (c == 64) ≡ false) p
    → (ws : List Text) × (split_at 64 (p ++ 64 ∷ host) ≡ p ∷ ws)
unfolding split_at
split_at-head [] host h = opened (split_at 64 host)
  where
    opened :
        (parts : List Text)
        → (ws : List Text) × (elim parts as (λ k. List Text) [
          | [] ↦ [] ∷ []
          | w ∷ ws' ↦ [] ∷ w ∷ ws'
        ]
            ≡ [] ∷ ws)
    opened [] = ([], refl)
    opened (w ∷ ws) = (w ∷ ws, refl)
split_at-head (c ∷ p) host (h, hs) =
    let (ws, e) = split_at-head p host hs in (ws, rw (split_at, e) (rw h refl))

plain_nested : All (λ c. (c == 64) ≡ false) nested
plain_nested = (refl, (refl, (refl, (refl, (refl, (refl, (refl, (refl, tt))))))))

value_of-nested :
    (host : Text) (spf : Spf) → spf.mail_from ≡ nested ++ 64 ∷ host → value_of 108 spf ≡ some nested
unfolding value_of
value_of-nested host spf e = let (ws, k) = split_at-head nested host plain_nested in rw (e, k) refl

expand_one-nested :
    (host : Text) (spf : Spf) (n : ℕ)
    → spf.mail_from ≡ nested ++ 64 ∷ host
    → expand_one spf the_macro (letters n ++ local_part)
      ≡ letters (suc (suc (suc (suc n)))) ++ local_part
unfolding expand_one macro_text transform separator replace_first dollars letters any
expand_one-nested host spf n e =
    rw (value_of-nested host spf e, expand_one)
      (rw (first_place-letters n, replace_first) (simp letters-snoc))

found_here : find_macro local_part ≡ some (0, the_macro)
unfolding find_macro macro_at is_macro_letter span_digits optional is_delimiter any to_lower
found_here = refl

next_place : (n : ℕ) → n + (0 + length (macro_text the_macro)) ≡ suc (suc (suc (suc n)))
unfolding macro_text
next_place n = omega arith

-- Each round leaves the macro at the place where the next begins.
expand_loop-nested :
    (host : Text) (spf : Spf) (rounds n : ℕ)
    → spf.mail_from ≡ nested ++ 64 ∷ host
    → expand_loop rounds spf n (letters n ++ local_part) ≡ endless
unfolding expand_loop
expand_loop-nested host spf zero n e = refl
expand_loop-nested host spf (suc rounds) n e =
    let found_it : find_macro (drop n (letters n ++ local_part)) ≡ some (0, the_macro) =
      rw (drop-letters n local_part) found_here in
    let onward : n + (0 + length (macro_text the_macro)) ≡ suc (suc (suc (suc n))) = next_place n in
    rw (found_it, expand_loop)
      (rw (onward, expand_one-nested host spf n e)
        (expand_loop-nested host spf rounds (suc (suc (suc (suc n)))) e))

-- A sender may make the expansion endless: where its local part is exactly `aaaa%{l}`, the loop on the macro
-- `%{l}` is not at its end after any number of rounds, so the program never leaves it.
pub expand_macros-endless :
    (host : Text) (spf : Spf) (rounds : ℕ)
    → spf.mail_from ≡ nested ++ 64 ∷ host
    → expand_macros rounds spf local_part ≡ endless
unfolding expand_macros letters
expand_macros-endless host spf rounds e =
    let h : expand_loop rounds spf 0 local_part ≡ endless =
      expand_loop-nested host spf rounds 0 e in
    rw h refl
