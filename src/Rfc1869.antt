-- ===== src/Rfc1869.antt =====
-- email/rfc1869.js: the parser of the MAIL and RCPT parameters, over ASCII. `none` is a throw. The
-- chewing loop takes fuel; the length of the line is enough, since each round shortens it.
pub mod Chew
pub mod Addresses
pub mod Tests
use companyly_microservices.Base.{
  ℕ, zero, suc, Bool, true, false, Option, none, some, List, [], ◌∷◌, ◌++◌, Text, ◌&&◌, ◌||◌, not,
  ◌==◌, leb, if◌then◌else◌, length, reverse, is_empty, is_space, any, text_eq, to_lower, codes, map,
}

pub data Kind : Type 0 where
  mail rcpt : Kind

unfoldable pub skip_spaces : Text → Text
skip_spaces [] = []
skip_spaces (c ∷ s) = let rest = skip_spaces s in if is_space c then rest else c ∷ s

-- `replace(/\s*$/, '')`
unfoldable pub trim_end : Text → Text
trim_end s = reverse (skip_spaces (reverse s))

-- What follows `word` at the start of the text, letters of either case alike.
unfoldable pub after_word : Text → Text → Option Text
after_word [] s = some s
after_word (w ∷ word) [] = none
after_word (w ∷ word) (c ∷ s) = if to_lower c == w then after_word word s else none

-- `replace(/word/i, '')`, or with `\s*` behind the word.
unfoldable pub remove_word : Bool → Text → Text → Text
remove_word spaces word [] = []
remove_word spaces word (c ∷ s) = elim (after_word word (c ∷ s)) [
  | none ↦ c ∷ remove_word spaces word s
  | some rest ↦ if spaces then skip_spaces rest else rest
]

unfoldable is_alnum : ℕ → Bool
is_alnum c = (leb 48 c && leb c 57) || (leb 65 c && leb c 90) || (leb 97 c && leb c 122)

-- `[^= \x00-\x1f]`
unfoldable is_value_char : ℕ → Bool
is_value_char c = not (c == 61) && not (leb c 32)

unfoldable pub all : (ℕ → Bool) → Text → Bool
all p [] = true
all p (c ∷ s) = p c && all p s

-- `[A-Za-z0-9-]*(?:=[^= \x00-\x1f]+)?$`
unfoldable is_keyword_rest : Text → Bool
unfolding is_alnum all is_value_char
is_keyword_rest [] = true
is_keyword_rest (c ∷ s) =
    if c == 61
    then not (is_empty s) && all is_value_char s
    else (is_alnum c || c == 45) && is_keyword_rest s

unfoldable pub is_parameter : Text → Bool
unfolding is_keyword_rest
is_parameter [] = false
is_parameter (c ∷ s) = is_alnum c && is_keyword_rest s

-- A word at the end, on the reversed line: the word, in reading order, and what is before it.
unfoldable pub last_word : Text → Text → Text × Text
last_word word [] = (word, [])
last_word word (c ∷ s) = if is_space c then (word, c ∷ s) else last_word (c ∷ word) s

-- `chew_regexp`, on the reversed line: the parameter, and the line without it and its spaces.
unfoldable pub chew : Text → Option (Text × Text)
chew line =
    let (word, before) = last_word [] line in
    if is_parameter word && not (is_empty before) then some (word, skip_spaces before) else none

-- The loop: the line that is left, reversed, and the parameters in reading order.
unfoldable pub chew_all : ℕ → Text → List Text → Text × List Text
chew_all zero line params = (line, params)
chew_all (suc fuel) line params = elim (chew line) [
  | none ↦ (line, params)
  | some (word, rest) ↦ chew_all fuel rest (word ∷ params)
]

-- `/@.*\s/`
unfoldable pub has_at_space : Text → Bool
has_at_space [] = false
has_at_space (c ∷ s) = (c == 64 && any is_space s) || has_at_space s

unfoldable pub ends_with : ℕ → Text → Bool
ends_with b [] = false
ends_with b (c ∷ []) = c == b
ends_with b (c ∷ d ∷ s) = ends_with b (d ∷ s)

-- `/^<.*>$/`
unfoldable pub is_bracketed : Text → Bool
unfolding ends_with
is_bracketed [] = false
is_bracketed (c ∷ s) = c == 60 && (ends_with 62 s && not (any (λ d. d == 10 || d == 13) s))

unfoldable pub is_local_name : Text → Bool
is_local_name s =
    text_eq (map to_lower s) (codes "postmaster") || text_eq (map to_lower s) (codes "abuse")

-- The checks on a recipient, and the address that they give.
unfoldable pub rcpt_address : Text → Option Text
unfolding is_bracketed is_local_name
rcpt_address line =
    if has_at_space line
    then none
    else if any is_space line
    then none
    else if any (λ c. c == 64) line
    then some (if is_bracketed line then line else 60 ∷ (line ++ 62 ∷ []))
    else if is_local_name line
    then some line
    else none

-- From `line = params.shift() || ''` on.
unfoldable pub address : Kind → Bool → List Text → Option (List Text)
unfolding rcpt_address has_at_space
address kind strict words =
    let line : Text = elim words [ [] ↦ [] | w ∷ ws ↦ w ] in
    let params : List Text = elim words [ [] ↦ [] | w ∷ ws ↦ ws ] in
    if strict && not (is_bracketed line) then none else elim kind [
      | mail ↦
          if is_empty line
          then some (codes "<>" ∷ [])
          else if has_at_space line
          then none
          else some (line ∷ params)
      | rcpt ↦ elim (rcpt_address line) [ none ↦ none | some a ↦ some (a ∷ params) ]
    ]

unfoldable pub word_of : Kind → Text
word_of mail = codes "from:"
word_of rcpt = codes "to:"

unfoldable pub parse : Kind → Text → Bool → Option (List Text)
unfolding trim_end remove_word chew_all address word_of
parse kind line strict =
    let start = remove_word (not strict) (word_of kind) (trim_end line) in
    let (left, params) = chew_all (length start) (reverse start) [] in
    let line' = reverse left in
    if is_empty line'
    then address kind strict params
    else if has_at_space line'
    then none
    else address kind strict (line' ∷ params)
