-- ===== src/Spf/Macros.antt =====
-- The macros of a record in email/spf.js: `expand_macros`.
use companyly_microservices.Base.{
  ℕ, zero, suc, ◌+◌, Bool, false, Option, none, some, List, [], ◌∷◌, ◌++◌, Text, ◌==◌, ◌&&◌, ◌||◌,
  not, if◌then◌else◌, is_empty, to_lower, any, codes, split_at, join, take, drop, length, reverse,
}
use companyly_microservices.Outbound.Delivery.Reply.{is_digit}
use companyly_microservices.Outbound.Qfile.{parse_from}
use companyly_microservices.Spf.Net.{ipv4, ipv6}
use companyly_microservices.Spf.Run.{Run, done, endless, ◌>>=◌}
use companyly_microservices.Spf.{Spf}

pub record Macro : Type 0 where
  pub letter : ℕ
  pub digits : Text
  pub flag : Text
  pub delimiter : Text

-- `[slodipvh]`, letters of either case alike
unfoldable pub is_macro_letter : ℕ → Bool
is_macro_letter c = any (λ d. d == to_lower c) (codes "slodipvh")

unfoldable pub is_delimiter : ℕ → Bool
is_delimiter c = any (λ d. d == c) (codes "-.+,/_=")

-- `\d*`, and what follows it
unfoldable pub span_digits : Text → Text × Text
unfolding is_digit
span_digits [] = ([], [])
span_digits (c ∷ s) =
    let (ds, rest) = span_digits s in if is_digit c then (c ∷ ds, rest) else ([], c ∷ s)

-- One character of a kind, if it is there, and what follows it.
unfoldable pub optional : (ℕ → Bool) → Text → Text × Text
optional p [] = ([], [])
optional p (c ∷ s) = if p c then (c ∷ [], s) else ([], c ∷ s)

-- The regular expression, at this place.
unfoldable pub macro_at : Text → Option Macro
unfolding is_macro_letter span_digits optional is_delimiter
macro_at (p ∷ b ∷ c ∷ s) =
    let (digits, after_digits) = span_digits s in
    let (flag, after_flag) = optional (λ d. to_lower d == 114) after_digits in
    let (delimiter, rest) = optional is_delimiter after_flag in
    let closed : Bool = elim rest [ [] ↦ false | e ∷ rest' ↦ e == 125 ] in
    if (p == 37 && b == 123) && (is_macro_letter c && closed)
    then some (record { letter = c; digits = digits; flag = flag; delimiter = delimiter })
    else none
macro_at _ = none

-- `match[0]`
unfoldable pub macro_text : Macro → Text
macro_text m = 37 ∷ 123 ∷ m.letter ∷ (m.digits ++ (m.flag ++ (m.delimiter ++ 125 ∷ [])))

-- The first macro, and how much stands before it.
unfoldable pub find_macro : Text → Option (ℕ × Macro)
unfolding macro_at
find_macro [] = none
find_macro (c ∷ s) = elim (macro_at (c ∷ s)) [
  | some m ↦ some (0, m)
  | none ↦ elim (find_macro s) [ none ↦ none | some (n, m) ↦ some (suc n, m) ]
]

-- `split('@')[i]`
unfoldable pub part_of : ℕ → List Text → Option Text
part_of i [] = none
part_of zero (w ∷ ws) = some w
part_of (suc i) (w ∷ ws) = part_of i ws

-- The `switch` on the letter, which knows the small letters only.
unfoldable pub value_of : ℕ → Spf → Option Text
unfolding part_of
value_of c spf =
    if c == 115
    then some spf.mail_from
    else if c == 108
    then part_of 0 (split_at 64 spf.mail_from)
    else if c == 111
    then part_of 1 (split_at 64 spf.mail_from)
    else if c == 100
    then some spf.domain
    else if c == 105
    then some spf.ip
    else if c == 112
    then some (codes "unknown")
    else if c == 118
    then some (elim spf.ip_ver [ ipv4 ↦ codes "in-addr" | ipv6 ↦ codes "ip6" ])
    else if c == 104
    then some spf.helo
    else none

-- The delimiter of the macro, which is a dot unless it names one.
unfoldable pub separator : Macro → ℕ
separator m = elim m.delimiter [ [] ↦ 46 | c ∷ s ↦ c ]

-- The transformers, applied to a value.
unfoldable pub transform : Macro → Text → Text
unfolding separator parse_from
transform m value =
    let reversed = any (λ c. c == 114) m.flag in
    let words = split_at (separator m) value in
    let kept = if is_empty m.digits then words else take (parse_from 0 m.digits) words in
    let turned = if reversed then reverse kept else kept in
    if reversed || not (is_empty m.digits) then join (codes ".") turned else value

-- The first place of a word in a text: what stands before it, and behind it.
unfoldable pub cut : Text → Text → Option Text
cut [] s = some s
cut (w ∷ word) [] = none
cut (w ∷ word) (c ∷ s) = if w == c then cut word s else none

unfoldable pub first_place : Text → Text → Option (Text × Text)
unfolding cut
first_place word [] = none
first_place word (c ∷ s) = elim (cut word (c ∷ s)) [
  | some rest ↦ some ([], rest)
  | none ↦ elim (first_place word s) [ none ↦ none | some (b, rest) ↦ some (c ∷ b, rest) ]
]

-- What `replace` reads of a `$` in the replacement: two dollars, the match, what is before it and
-- what is behind it.
unfoldable pub dollars : Text → Text → Text → Text → Text
dollars word before behind [] = []
dollars word before behind (c ∷ []) = c ∷ []
dollars word before behind (c ∷ d ∷ s) =
    let skip = dollars word before behind s in
    let keep = dollars word before behind (d ∷ s) in
    if not (c == 36)
    then c ∷ keep
    else if d == 36
    then 36 ∷ skip
    else if d == 38
    then word ++ skip
    else if d == 96
    then before ++ skip
    else if d == 39
    then behind ++ skip
    else c ∷ keep

-- `str.replace(word, replacement)`
unfoldable pub replace_first : Text → Text → Text → Text
unfolding first_place dollars
replace_first word replacement str = elim (first_place word str) [
  | none ↦ str
  | some (before, behind) ↦ before ++ (dollars word before behind replacement ++ behind)
]

-- The body of the loop: a macro with no value, or an empty one, stays.
unfoldable pub expand_one : Spf → Macro → Text → Text
unfolding value_of transform macro_text replace_first
expand_one spf m str = elim (value_of m.letter spf) [
  | none ↦ str
  | some value ↦
      if is_empty value then str else replace_first (macro_text m) (transform m value) str
]

-- The loop: `last` is the `lastIndex` of the regular expression, a place in the text as it is now.
unfoldable pub expand_loop : ℕ → Spf → ℕ → Text → Run Text
unfolding find_macro expand_one macro_text
expand_loop zero spf last str = endless
expand_loop (suc rounds) spf last str = elim (find_macro (drop last str)) [
  | none ↦ done str
  | some (n, m) ↦ expand_loop rounds spf (last + (n + length (macro_text m))) (expand_one spf m str)
]

-- `replace(/%c/g, text)`
unfoldable replace_code : ℕ → Text → Text → Text
replace_code d text [] = []
replace_code d text (a ∷ []) = a ∷ []
replace_code d text (a ∷ b ∷ s) =
    let skip = replace_code d text s in
    let keep = replace_code d text (b ∷ s) in if a == 37 && b == d then text ++ skip else a ∷ keep

unfoldable pub expand_codes : Text → Text
unfolding replace_code
expand_codes str =
    replace_code 45 (codes "%20") (replace_code 95 (codes " ") (replace_code 37 (codes "%") str))

unfoldable pub expand_macros : ℕ → Spf → Text → Run Text
unfolding expand_loop expand_codes
expand_macros rounds spf str = expand_loop rounds spf 0 str >>= λ s. done (expand_codes s)
