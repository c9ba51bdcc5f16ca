-- ===== src/Outbound/Delivery/Ehlo.antt =====
-- The reply to EHLO in email/outbound/hmail.js: `set_ehlo_props`.
use companyly_microservices.Base.{
  true, false, Option, none, some, List, [], ◌∷◌, Text, ◌==◌, ◌&&◌, not, if◌then◌else◌, is_empty,
  is_space, text_eq, map, to_upper, codes,
}
use companyly_microservices.Rfc1869.{skip_spaces, all}
use companyly_microservices.Outbound.Delivery.Reply.{is_digit}
use companyly_microservices.Outbound.Delivery.State.{Props}

-- `split(/\s+/)`
unfoldable pub split_words : Text → List Text
split_words [] = [] ∷ []
split_words (c ∷ []) = if is_space c then [] ∷ [] ∷ [] else (c ∷ []) ∷ []
split_words (c ∷ d ∷ s) =
    let rest = split_words (d ∷ s) in
    if is_space c && is_space d
    then rest
    else if is_space c
    then [] ∷ rest
    else elim rest [ [] ↦ (c ∷ []) ∷ [] | w ∷ ws ↦ (c ∷ w) ∷ ws ]

unfoldable pub strip_prefix : Text → Text → Option Text
strip_prefix [] s = some s
strip_prefix (w ∷ word) [] = none
strip_prefix (w ∷ word) (c ∷ s) = if w == c then strip_prefix word s else none

-- `/^WORD\s+(.+)$/`, where the spaces that end the line may be one that `.+` takes.
unfoldable pub argument : Text → Text → Option Text
unfolding strip_prefix
argument word r = elim (strip_prefix word r) [
  | none ↦ none
  | some [] ↦ none
  | some (c ∷ []) ↦ none
  | some (c ∷ d ∷ s) ↦
      if not (is_space c)
      then none
      else if is_empty (skip_spaces (d ∷ s))
      then some (d ∷ [])
      else some (skip_spaces (d ∷ s))
]

-- `/^SIZE\s+(\d+)$/`
unfoldable size_of : Text → Option Text
unfolding argument
size_of r = elim (argument (codes "SIZE") r) [
  | none ↦ none
  | some s ↦ if all is_digit s then some s else none
]

-- A line of the reply to EHLO.
unfoldable pub ehlo_prop : Text → Props → Props
unfolding size_of argument
ehlo_prop r p =
    let word = map to_upper r in
    if text_eq word (codes "8BITMIME")
    then record p { eightbitmime = true }
    else if text_eq word (codes "STARTTLS")
    then record p { tls = true }
    else if text_eq word (codes "ENHANCEDSTATUSCODES")
    then record p { enh_status_codes = true }
    else if text_eq word (codes "SMTPUTF8")
    then record p { smtp_utf8 = true }
    else let sized : Props = elim (size_of r) [
      | none ↦ p
      | some n ↦ record p { max_size = some n }
    ] in
      elim (argument (codes "AUTH") r) [
        | none ↦ sized
        | some s ↦ record sized { auth = some (split_words s) }
      ]

unfoldable pub set_ehlo_props : List Text → Props → Props
set_ehlo_props [] p = p
set_ehlo_props (r ∷ rs) p = set_ehlo_props rs (ehlo_prop r p)

abbrev pub no_props : Props
no_props = record {
  tls = false;
  max_size = none;
  eightbitmime = false;
  enh_status_codes = false;
  smtp_utf8 = false;
  auth = none;
}
