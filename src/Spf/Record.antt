-- ===== src/Spf/Record.antt =====
-- The record and its words in email/spf.js: the part of `check_host` that finds the record among the
-- TXT records and validates it, and `valid_ip`.
use companyly_microservices.Base.{
  ℕ, Bool, true, false, Option, none, some, List, [], ◌∷◌, Text, ◌==◌, ◌&&◌, ◌||◌, not,
  if◌then◌else◌, is_empty, is_space, text_eq, to_lower, any, map, codes, join,
}
use companyly_microservices.Rfc1869.{skip_spaces, after_word, all}
use companyly_microservices.Outbound.Delivery.Reply.{is_digit, until_eol}
use companyly_microservices.Spf.Macros.{span_digits}

pub data MechName : Type 0 where
  all_mech a_mech mx_mech ptr_mech ip4_mech ip6_mech include_mech exists_mech : MechName

-- An entry of `mech_array`.
pub record Mechanism : Type 0 where
  pub name : MechName
  pub qualifier : ℕ
  pub args : Option Text

-- An entry of `mod_array`.
pub data Modifier : Type 0 where
  redirect exp : Text → Modifier

-- `.+$`: no line terminator, and not empty
unfoldable is_one_line : Text → Bool
unfolding until_eol
is_one_line s = not (is_empty s) && text_eq (until_eol s) s

-- `/^(v=spf1(?:$|\s.+$))/i`
unfoldable is_spf_record : Text → Bool
unfolding after_word is_one_line
is_spf_record txt = elim (after_word (codes "v=spf1") txt) [
  | none ↦ false
  | some [] ↦ true
  | some (c ∷ s) ↦ is_space c && is_one_line s
]

-- `replace(/\s+/, ' ')`, once
unfoldable one_space : Text → Text
unfolding skip_spaces
one_space [] = []
one_space (c ∷ s) = if is_space c then 32 ∷ skip_spaces s else c ∷ one_space s

-- What the TXT records hold: no SPF record, one, or more.
pub data Found : Type 0 where
  no_record several : Found
  one_record : Text → Found

unfoldable pub find_record : List (List Text) → Found
unfolding is_spf_record one_space
find_record [] = no_record
find_record (chunks ∷ rrs) =
    let txt = join [] chunks in
    let rest = find_record rrs in
    if not (is_spf_record txt)
    then rest
    else elim rest [ no_record ↦ one_record (map to_lower (one_space txt)) | other ↦ several ]

-- `\/\d+(?:\/\/\d+)?$`: the masks.
unfoldable pub masks : Text → Option (Text × Option Text)
unfolding span_digits
masks [] = none
masks (c ∷ s) =
    let (ds, rest) = span_digits s in
    let second : Option (Text × Option Text) = elim rest [
      | [] ↦ some (ds, none)
      | p ∷ [] ↦ none
      | p ∷ q ∷ t ↦
          if (p == 47 && q == 47) && (not (is_empty t) && all is_digit t)
          then some (ds, some t)
          else none
    ] in
    if c == 47 && not (is_empty ds) then second else none

-- `[^/ ]+`, as far as it goes, and what follows it.
unfoldable pub span_host : Text → Text × Text
span_host [] = ([], [])
span_host (c ∷ s) =
    let (host, rest) = span_host s in if c == 47 || c == 32 then ([], c ∷ s) else (c ∷ host, rest)

-- The third group of `mech_regexp2`.
unfoldable pub is_args : Text → Bool
unfolding masks span_host
is_args [] = false
is_args (c ∷ s) =
    let (host, rest) = span_host s in
    let has_masks : Text → Bool = λ t. elim (masks t) [ none ↦ false | some m ↦ true ] in
    if c == 58 then not (is_empty host) && (is_empty rest || has_masks rest) else has_masks (c ∷ s)

-- `([-+~?])?`
unfoldable is_qualifier : ℕ → Bool
is_qualifier c = any (λ d. d == c) (codes "-+~?")

unfoldable pub span_qualifier : Text → ℕ × Text
unfolding is_qualifier
span_qualifier [] = (43, [])
span_qualifier (c ∷ s) = if is_qualifier c then (c, s) else (43, c ∷ s)

-- The name of a mechanism, up to a colon or a slash, and what follows it.
unfoldable pub span_name : Text → Text × Text
span_name [] = ([], [])
span_name (c ∷ s) =
    let (name, rest) = span_name s in if c == 58 || c == 47 then ([], c ∷ s) else (c ∷ name, rest)

unfoldable pub mech_name : Text → Option MechName
mech_name w =
    if text_eq w (codes "all")
    then some all_mech
    else if text_eq w (codes "a")
    then some a_mech
    else if text_eq w (codes "mx")
    then some mx_mech
    else if text_eq w (codes "ptr")
    then some ptr_mech
    else if text_eq w (codes "ip4")
    then some ip4_mech
    else if text_eq w (codes "ip6")
    then some ip6_mech
    else if text_eq w (codes "include")
    then some include_mech
    else if text_eq w (codes "exists")
    then some exists_mech
    else none

-- The names of `mech_regexp1`, with no argument, and those of `mech_regexp2`, with one.
unfoldable pub stands_alone : MechName → Bool
stands_alone all_mech = true
stands_alone a_mech = true
stands_alone mx_mech = true
stands_alone ptr_mech = true
stands_alone _ = false

unfoldable pub takes_args : MechName → Bool
takes_args all_mech = false
takes_args _ = true

-- `mech_regexp1.exec(word) || mech_regexp2.exec(word)`
unfoldable pub read_mechanism : Text → Option Mechanism
unfolding span_qualifier span_name mech_name stands_alone takes_args is_args
read_mechanism word =
    let (q, body) = span_qualifier word in
    let (w, args) = span_name body in
    elim (mech_name w) [
      | none ↦ none
      | some n ↦
          if is_empty args
          then (if stands_alone n
              then some (record { name = n; qualifier = q; args = none })
              else none)
          else if takes_args n && is_args args
          then some (record { name = n; qualifier = q; args = some args })
          else none
    ]

-- `[a-z0-9:/._-]`
unfoldable is_modifier_char : ℕ → Bool
unfolding is_digit
is_modifier_char c = is_digit c || any (λ d. d == c) (codes "abcdefghijklmnopqrstuvwxyz:/._-")

-- `[^ =]+`, and what follows it.
unfoldable span_modifier : Text → Text × Text
span_modifier [] = ([], [])
span_modifier (c ∷ s) =
    let (name, rest) = span_modifier s in
    if c == 32 || c == 61 then ([], c ∷ s) else (c ∷ name, rest)

-- `mod_regexp`: the name and the value of a modifier.
unfoldable pub read_modifier : Text → Option (Text × Text)
unfolding span_modifier is_modifier_char
read_modifier word =
    let (name, rest) = span_modifier word in
    elim rest [
      | [] ↦ none
      | c ∷ value ↦
          if c == 61
            && (not (is_empty name) && (not (is_empty value) && all is_modifier_char value))
          then some (name, value)
          else none
    ]
