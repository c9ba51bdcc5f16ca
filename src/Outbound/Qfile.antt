-- ===== src/Outbound/Qfile.antt =====
-- The names of the files in the queue: email/outbound/qfile.js.
pub mod Digits
pub mod Names
pub mod Tests
use companyly_microservices.Base.{
  ℕ, ◌+◌, ◌-◌, ◌*◌, zero, suc, Bool, true, false, Option, none, some, List, [], ◌∷◌, ◌++◌, Text,
  ◌==◌, ◌&&◌, ltb, if◌then◌else◌, split_at, join, decimal, codes, is_empty, length, not,
}
use companyly_microservices.Outbound.Delivery.Reply.{is_digit, until_eol}
use companyly_microservices.Rfc1869.{all}

-- `replace(/c/g, …)` for the three characters that a name does not hold.
unfoldable pub replace_char : ℕ → Text → Text → Text
replace_char c new [] = []
replace_char c new (d ∷ s) =
    let rest = replace_char c new s in if d == c then new ++ rest else d ∷ rest

unfoldable pub hostname : Text → Text
unfolding replace_char
hostname s =
    replace_char 95 (codes "\\137")
      (replace_char 58 (codes "\\072") (replace_char 92 (codes "\\057") s))

-- The fields of a name: with those that `name` takes as overrides and those that it makes.
pub record Parts : Type 0 where
  pub arrival : ℕ
  pub next_attempt : ℕ
  pub attempts : ℕ
  pub pid : ℕ
  pub uid : Text
  pub counter : ℕ
  pub host : Text

-- An override of 0, which JavaScript takes for none, and an empty text.
abbrev pub or_number : ℕ → ℕ → ℕ
or_number zero d = d
or_number (suc n) d = suc n

abbrev pub or_text : Text → Text → Text
or_text [] d = d
or_text (c ∷ s) d = c ∷ s

unfoldable pub next_counter : ℕ → ℕ
next_counter n = if ltb n 10000 then n + 1 else 0

-- `name`, with the time, the process, a random text, the counter and the host name at hand.
unfoldable pub name : ℕ → ℕ → Text → ℕ → Text → Parts → Text
unfolding hostname next_counter
name time pid unique last host o = join (95 ∷ []) (
    decimal (or_number o.arrival time)
    ∷ decimal (or_number o.next_attempt time)
    ∷ decimal o.attempts
    ∷ decimal (or_number o.pid pid)
    ∷ or_text o.uid unique
    ∷ decimal (next_counter last)
    ∷ hostname (or_text o.host host)
    ∷ [])

-- `parseInt`, of the digits that a text begins with.
unfoldable pub parse_from : ℕ → Text → ℕ
unfolding is_digit
parse_from n [] = n
parse_from n (c ∷ s) = let rest = parse_from (n * 10 + (c - 48)) s in if is_digit c then rest else n

unfoldable pub parse_int : Text → Option ℕ
unfolding parse_from is_digit
parse_int [] = none
parse_int (c ∷ s) = if is_digit c then some (parse_from 0 (c ∷ s)) else none

-- What `parts` gives: a number that is not there is NaN, which is `none` here.
pub record ReadParts : Type 0 where
  pub arrival : Option ℕ
  pub next_attempt : Option ℕ
  pub attempts : Option ℕ
  pub pid : Option ℕ
  pub uid : Text
  pub counter : Option ℕ
  pub host : Text

abbrev read_parts : Text → Text → Text → Text → Text → Text → Text → ReadParts
read_parts a n t p u c h = record {
  arrival = parse_int a;
  next_attempt = parse_int n;
  attempts = parse_int t;
  pid = parse_int p;
  uid = u;
  counter = parse_int c;
  host = h;
}

-- What the code gives for a file name: an exception, null, or the fields.
pub data Read : Type 0 where
  threw bad : Read
  good : ReadParts → Read

-- `/^\d+\.(.*)$/`, the end of the older form of a name: what stands behind the first dot, if only
-- digits stand before it.
unfoldable pub after_digits : Bool → Text → Option Text
unfolding is_digit
after_digits some_digit [] = none
after_digits some_digit (c ∷ s) =
    let rest = after_digits true s in
    if is_digit c
    then rest
    else if some_digit && (c == 46 && length (until_eol s) == length s)
    then some s
    else none

unfoldable pub is_number : Text → Bool
unfolding is_digit
is_number s = not (is_empty s) && all is_digit s

-- The fields by the pieces: seven, or the four of the older form, which has no time of arrival.
unfoldable pub of_pieces : ℕ → Text → ℕ → List Text → Read
unfolding parse_int after_digits is_number next_counter
of_pieces time unique last (a ∷ n ∷ t ∷ p ∷ u ∷ c ∷ h ∷ []) = good (read_parts a n t p u c h)
of_pieces time unique last (n ∷ t ∷ p ∷ rest ∷ []) = elim (after_digits false rest) [
  | none ↦ bad
  | some h ↦
      if is_number n && (is_number t && is_number p)
      then good (record {
        arrival = some time;
        next_attempt = parse_int n;
        attempts = parse_int t;
        pid = parse_int p;
        uid = unique;
        counter = some (next_counter last);
        host = h;
      })
      else bad
]
of_pieces time unique last _ = bad

unfoldable pub parts : ℕ → Text → ℕ → Text → Read
unfolding of_pieces
parts time unique last [] = threw
parts time unique last (c ∷ s) = of_pieces time unique last (split_at 95 (c ∷ s))
