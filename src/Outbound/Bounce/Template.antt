-- ===== src/Outbound/Bounce/Template.antt =====
-- The templates of the bounce message in email/outbound/hmail.js: their words and how they are
-- escaped.
use companyly_microservices.Base.{
  ℕ, Bool, false, Option, none, some, List, [], ◌∷◌, ◌++◌, Text, ◌&&◌, ◌||◌, ◌==◌, leb, not,
  if◌then◌else◌, is_empty, codes, reverse,
}

-- `\w`
unfoldable pub is_word : ℕ → Bool
is_word c = leb 48 c && leb c 57 || (leb 65 c && leb c 90 || (leb 97 c && leb c 122 || c == 95))

-- A step of `replace(/\{(\w+)\}/g, …)`, with what was read behind a brace: what is written, and
-- what is read then.
unfoldable pub fill_step : (Text → Text) → Option Text → ℕ → Text × Option Text
unfolding is_word
fill_step value none c = if c == 123 then ([], some []) else (c ∷ [], none)
fill_step value (some w) c =
    if is_word c
    then ([], some (w ++ c ∷ []))
    else if c == 125 && not (is_empty w)
    then (value w, none)
    else if c == 123
    then (123 ∷ w, some [])
    else (123 ∷ (w ++ c ∷ []), none)

unfoldable pub fill_from : (Text → Text) → Option Text → Text → Text
unfolding fill_step
fill_from value none [] = []
fill_from value (some w) [] = 123 ∷ w
fill_from value read (c ∷ s) =
    let (written, next) = fill_step value read c in written ++ fill_from value next s

unfoldable pub fill : (Text → Text) → Text → Text
unfolding fill_from
fill value s = fill_from value none s

-- `values[word] || '?'`
unfoldable pub plain_value : (Text → Option Text) → Text → Text
plain_value values word = elim (values word) [
  | none ↦ codes "?"
  | some [] ↦ codes "?"
  | some (c ∷ s) ↦ c ∷ s
]

-- `escaped_chars[m]`, for the characters of `escape_pattern`, which holds the comma that `join` puts
-- between its characters.
unfoldable pub escaped_char : ℕ → Option Text
escaped_char c =
    if c == 38
    then some (codes "amp")
    else if c == 60
    then some (codes "lt")
    else if c == 62
    then some (codes "gt")
    else if c == 34
    then some (codes "quot")
    else if c == 39
    then some (codes "apos")
    else if c == 13
    then some (codes "#10")
    else if c == 10
    then some (codes "#13")
    else if c == 44
    then some (codes "undefined")
    else none

unfoldable pub escape : Text → Text
unfolding escaped_char
escape [] = []
escape (c ∷ s) = elim (escaped_char c) [
  | none ↦ c ∷ escape s
  | some name ↦ 38 ∷ (name ++ 59 ∷ escape s)
]

unfoldable pub html_value : (Text → Option Text) → Text → Text
unfolding escape
html_value values word = elim (values word) [ none ↦ codes "?" | some v ↦ escape v ]

-- The lines up to the first empty one, and those behind it.
unfoldable pub header_lines : List Text → List Text
header_lines [] = []
header_lines (line ∷ ls) = if is_empty line then [] else line ∷ header_lines ls

unfoldable pub body_lines : List Text → List Text
body_lines [] = []
body_lines (line ∷ ls) = if is_empty line then ls else body_lines ls

-- `replace(/(\r?\n)*$/, '')`, on the text backwards.
unfoldable strip_back : Bool → Text → Text
strip_back after_lf [] = []
strip_back after_lf (c ∷ s) =
    if c == 10 || (c == 13 && after_lf) then strip_back (c == 10) s else c ∷ s

unfoldable pub strip_eol : Text → Text
unfolding strip_back
strip_eol s = reverse (strip_back false (reverse s))
