-- ===== src/Connection/Words.antt =====
-- The words and the parameters of a command line, as the commands of email/connection.js read them.
use companyly_microservices.Base.{
  ℕ, Bool, true, false, Option, none, some, List, [], ◌∷◌, Text, ◌&&◌, ◌||◌, not, ◌==◌, leb, ltb,
  if◌then◌else◌, codes, is_empty, is_space, any, text_eq, reverse, map, to_upper,
}
use companyly_microservices.Rfc1869.{all}
use companyly_microservices.Connection.State.{Params, Proxied}
use companyly_microservices.Connection.Reset.{parse_int_from}

-- `split(/ +/)`
abbrev drop_blanks : List Text → List Text
drop_blanks [] = []
drop_blanks ([] ∷ ws) = drop_blanks ws
drop_blanks ((c ∷ s) ∷ ws) = (c ∷ s) ∷ drop_blanks ws

-- The blank words between two spaces go; one stays at either end.
unfoldable pub split_spaces : Text → List Text
split_spaces [] = [] ∷ []
split_spaces (c ∷ []) = if c == 32 then [] ∷ [] ∷ [] else (c ∷ []) ∷ []
split_spaces (c ∷ d ∷ s) =
    let rest = split_spaces (d ∷ s) in
    if c == 32
    then (if d == 32 then rest else [] ∷ rest)
    else elim rest [ [] ↦ (c ∷ []) ∷ [] | w ∷ ws ↦ (c ∷ w) ∷ ws ]

abbrev pub first_word : List Text → Text
first_word [] = []
first_word (w ∷ ws) = w

abbrev pub other_words : List Text → List Text
other_words [] = []
other_words (w ∷ ws) = ws

-- Whether `word` stands somewhere in the text.
unfoldable pub has_prefix : Text → Text → Bool
has_prefix [] s = true
has_prefix (w ∷ word) [] = false
has_prefix (w ∷ word) (c ∷ s) = c == w && has_prefix word s

unfoldable pub contains : Text → Text → Bool
unfolding has_prefix
contains word [] = is_empty word
contains word (c ∷ s) = has_prefix word (c ∷ s) || contains word s

-- `/^([^=]+)(?:=(.+))?$/` and the upper-case key: no match gives no parameter.
unfoldable split_param : Text → Text → Option (Text × Option Text)
split_param key [] = if is_empty key then none else some (map to_upper (reverse key), none)
split_param key (c ∷ s) =
    if c == 61
    then if is_empty key || is_empty s then none else some (map to_upper (reverse key), some s)
    else split_param (c ∷ key) s

unfoldable pub params_of : List Text → Params
unfolding split_param
params_of [] = []
params_of (p ∷ ps) = elim (split_param [] p) [ none ↦ params_of ps | some kv ↦ kv ∷ params_of ps ]

-- The object's value for a key: the last one written.
unfoldable pub lookup_param : Text → Params → Option Text
lookup_param key [] = none
lookup_param key ((k, v) ∷ ps) = elim (lookup_param key ps) [
  | some w ↦ some w
  | none ↦ if text_eq k key then v else none
]

-- `params.SIZE > limit`: text that is no number compares false.
unfoldable pub is_digit : ℕ → Bool
is_digit c = leb 48 c && leb c 57

unfoldable pub size_above : ℕ → Params → Bool
unfolding is_digit
size_above limit ps = elim (lookup_param (codes "SIZE") ps) [
  | none ↦ false
  | some s ↦ not (is_empty s) && (all is_digit s && ltb limit (parse_int_from 0 s))
]

-- `/(TCP4|TCP6|UNKNOWN) (\S+) (\S+) (\d+) (\d+)$/`, on the words between single spaces, the last
-- word first.
unfoldable proto_of : Text → Option Text
proto_of w =
    let r = reverse w in
    if has_prefix (reverse (codes "TCP4")) r
    then some (codes "TCP4")
    else if has_prefix (reverse (codes "TCP6")) r
    then some (codes "TCP6")
    else if has_prefix (reverse (codes "UNKNOWN")) r
    then some (codes "UNKNOWN")
    else none

unfoldable pub is_number : Text → Bool
is_number s = not (is_empty s) && all is_digit s

unfoldable pub is_word : Text → Bool
is_word s = not (is_empty s) && not (any is_space s)

unfoldable pub match_proxy : List Text → Option Proxied
unfolding proto_of is_number is_word
match_proxy (dport ∷ sport ∷ dst ∷ src ∷ w ∷ ws) =
    if is_number dport && (is_number sport && (is_word dst && is_word src))
    then elim (proto_of w) [
      | none ↦ none
      | some proto ↦
          some (record {
            proto = proto;
            src_ip = src;
            dst_ip = dst;
            src_port = sport;
            dst_port = dport;
          })
    ]
    else none
match_proxy _ = none
