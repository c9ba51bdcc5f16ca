-- ===== src/Spf/Chains.antt =====
-- The rest of the validation in email/spf.js: the arguments of the mechanisms, `valid_ip`, and the
-- chains that a record gives.
use companyly_microservices.Base.{
  ℕ, Bool, true, false, Option, none, some, List, [], ◌∷◌, ◌++◌, Text, ◌==◌, ◌&&◌, ◌||◌, not,
  if◌then◌else◌, is_empty, text_eq, any, codes, split_at,
}
use companyly_microservices.Spf.Net.{Net}
use companyly_microservices.Spf.Run.{Run, done, ◌>>=◌}
use companyly_microservices.Spf.Macros.{expand_macros}
use companyly_microservices.Spf.{Spf}
use companyly_microservices.Spf.Record.{
  MechName, Mechanism, Modifier, span_host, read_mechanism, read_modifier, ip4_mech, ip6_mech,
  redirect, exp,
}

-- `valid_ip`: `/^:([^/ ]+)(?:\/([^ ]+))?$/`, and what ipaddr.js says of the address.
unfoldable pub valid_ip : Net → Text → Bool
unfolding span_host
valid_ip net [] = false
valid_ip net (c ∷ s) =
    let (host, rest) = span_host s in
    let shaped : Bool = elim rest [
      | [] ↦ true
      | d ∷ t ↦ d == 47 && (not (is_empty t) && not (any (λ e. e == 32) t))
    ] in
    (c == 58 && (not (is_empty host) && shaped)) && net.is_valid host

-- `/%[^{%+-]/`
unfoldable pub is_bad_macro : Text → Bool
is_bad_macro [] = false
is_bad_macro (c ∷ []) = false
is_bad_macro (c ∷ d ∷ s) =
    (c == 37 && not (any (λ e. e == d) (codes "{%+-"))) || is_bad_macro (d ∷ s)

unfoldable pub is_ip : MechName → Bool
is_ip ip4_mech = true
is_ip ip6_mech = true
is_ip _ = false

-- The argument of a mechanism, checked and expanded: nothing is a syntax error.
unfoldable pub checked_args : ℕ → Net → Spf → Mechanism → Run (Option Mechanism)
unfolding valid_ip is_bad_macro is_ip
checked_args rounds net spf m = elim m.args [
  | none ↦ done (some m)
  | some args ↦
      if is_ip m.name
      then (if valid_ip net args then done (some m) else done none)
      else if is_bad_macro args
      then done none
      else (expand_macros rounds spf args >>= λ s. done (some (record m { args = some s })))
]

-- `mod_` and the name is a method for these two only.
unfoldable pub known_modifier : Text × Text → List Modifier
known_modifier (name, value) =
    if text_eq name (codes "redirect")
    then redirect value ∷ []
    else if text_eq name (codes "exp")
    then exp value ∷ []
    else []

-- The words of a record, as the chains of mechanisms and modifiers.
unfoldable pub read_words :
    ℕ → Net → Spf → List Text → Run (Option (List Mechanism × List Modifier))
unfolding read_mechanism read_modifier checked_args known_modifier
read_words rounds net spf [] = done (some ([], []))
read_words rounds net spf (word ∷ words) =
    let rest = read_words rounds net spf words in
    if is_empty word then rest else elim (read_mechanism word) [
      | some m ↦ checked_args rounds net spf m >>= λ checked. elim checked [
        | none ↦ done none
        | some m' ↦ rest >>= λ r. elim r [
          | none ↦ done none
          | some (mechs, mods) ↦ done (some (m' ∷ mechs, mods))
        ]
      ]
      | none ↦ elim (read_modifier word) [
        | none ↦ done none
        | some nv ↦ rest >>= λ r. elim r [
          | none ↦ done none
          | some (mechs, mods) ↦ done (some (mechs, known_modifier nv ++ mods))
        ]
      ]
    ]

-- The loop starts behind the first word.
unfoldable pub read_record : ℕ → Net → Spf → Text → Run (Option (List Mechanism × List Modifier))
unfolding read_words
read_record rounds net spf s = elim (split_at 32 s) [
  | [] ↦ done (some ([], []))
  | version ∷ words ↦ read_words rounds net spf words
]
