-- ===== src/Outbound/Delivery/Reply.antt =====
-- The replies of a mail server, as `smtp_regexp` of email/outbound/hmail.js reads them.
use companyly_microservices.Base.{
  ℕ, ◌+◌, ◌*◌, ◌-◌, ◌/◌, Bool, Option, none, some, [], ◌∷◌, Text, ◌&&◌, ◌||◌, ◌==◌, leb,
  if◌then◌else◌, is_space,
}

-- The code is a number of three digits; `more` is the hyphen of a line that is not the last.
pub record Reply : Type 0 where
  pub code : ℕ
  pub more : Bool
  pub extc : Option Text
  pub rest : Text

unfoldable pub is_digit : ℕ → Bool
is_digit c = leb 48 c && leb c 57

-- `.*`: up to a line terminator.
unfoldable pub until_eol : Text → Text
until_eol [] = []
until_eol (c ∷ s) = if c == 10 || c == 13 || c == 0x2028 || c == 0x2029 then [] else c ∷ until_eol s

-- `(?:(\d\.\d\.\d)\s)?(.*)`
unfoldable enhanced : Text → Option Text × Text
unfolding is_digit until_eol
enhanced (a ∷ p ∷ b ∷ q ∷ c ∷ w ∷ s) =
    if is_digit a && (p == 46 && (is_digit b && (q == 46 && (is_digit c && is_space w))))
    then (some (a ∷ p ∷ b ∷ q ∷ c ∷ []), until_eol s)
    else (none, until_eol (a ∷ p ∷ b ∷ q ∷ c ∷ w ∷ s))
enhanced s = (none, until_eol s)

-- `#?`
unfoldable skip_hash : Text → Text
skip_hash [] = []
skip_hash (c ∷ s) = if c == 35 then s else c ∷ s

unfoldable pub read_reply : Text → Option Reply
unfolding is_digit enhanced skip_hash
read_reply (a ∷ b ∷ c ∷ sep ∷ s) =
    let (extc, rest) = enhanced (skip_hash s) in
    if leb 50 a && (leb a 53 && (is_digit b && (is_digit c && (sep == 32 || sep == 45))))
    then some (record {
      code = (a - 48) * 100 + (b - 48) * 10 + (c - 48);
      more = sep == 45;
      extc = extc;
      rest = rest;
    })
    else none
read_reply _ = none

-- The first digit.
abbrev pub class : Reply → ℕ
class r = r.code / 100
