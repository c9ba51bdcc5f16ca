-- ===== src/Transaction/DotStuff/Wire.antt =====
-- What a receiver makes of data that email/transaction.js has dot-stuffed.
use companyly_microservices.Base.{
  ℕ, ◌*◌, ◌≤◌, Bool, true, false, ◌≡◌, refl, ◌∙◌, Option, none, some, [], ◌∷◌, ◌++◌, Text, ◌==◌,
  ◌&&◌, ◌||◌, not, arith, if◌then◌else◌, length,
}
use companyly_microservices.Transaction.DotStuff.{add_dot_stuffing_and_ensure_crlf_newlines}
use companyly_microservices.Transaction.DotStuff.Reference.{stuff, escape}
use companyly_microservices.Transaction.DotStuff.Loop.{add_dot_stuffing-eq-stuff}

-- A line starts at the beginning and behind each LF.
abbrev starts_line : Option ℕ → Bool
starts_line none = true
starts_line (some b) = b == 0x0A

abbrev after_cr : Option ℕ → Bool
after_cr none = false
after_cr (some b) = b == 0x0D

-- RFC 5321 4.5.2: the receiver deletes the first dot of each line.
unfoldable pub unstuff : Option ℕ → Text → Text
unstuff prev [] = []
unstuff prev (c ∷ s) =
    let rest = unstuff (some c) s in if starts_line prev && c == 0x2E then rest else c ∷ rest

-- Each LF with no CR before it gets one.
unfoldable pub to_crlf : Option ℕ → Text → Text
to_crlf prev [] = []
to_crlf prev (c ∷ s) =
    if c == 0x0A && not (after_cr prev)
    then 0x0D ∷ c ∷ to_crlf (some c) s
    else c ∷ to_crlf (some c) s

-- Whether some LF has no CR before it.
unfoldable pub has_bare_lf : Option ℕ → Text → Bool
has_bare_lf prev [] = false
has_bare_lf prev (c ∷ s) = (c == 0x0A && not (after_cr prev)) || has_bare_lf (some c) s

begins_line_end : Text → Bool
begins_line_end [] = false
begins_line_end (c ∷ s) = c == 0x0D || c == 0x0A

-- Whether a line begins with a dot and a CR or LF, which ends the message.
unfoldable pub has_dot_line : Option ℕ → Text → Bool
unfolding begins_line_end
has_dot_line prev [] = false
has_dot_line prev (c ∷ s) =
    (starts_line prev && (c == 0x2E && begins_line_end s)) || has_dot_line (some c) s

unstuff-stuff : (prev : Option ℕ) (s : Text) → unstuff prev (stuff prev s) ≡ to_crlf prev s
unfolding unstuff stuff to_crlf
unstuff-stuff prev [] = refl
unstuff-stuff none (c ∷ s) = ground (arith, unstuff-stuff (some c) s)
unstuff-stuff (some b) (c ∷ s) = ground (arith, unstuff-stuff (some c) s)

has_bare_lf-stuff : (prev : Option ℕ) (s : Text) → has_bare_lf prev (stuff prev s) ≡ false
unfolding stuff has_bare_lf
has_bare_lf-stuff prev [] = refl
has_bare_lf-stuff none (c ∷ s) = ground (arith, has_bare_lf-stuff (some c) s)
has_bare_lf-stuff (some b) (c ∷ s) = ground (arith, has_bare_lf-stuff (some c) s)

has_dot_line-escape :
    (prev : Option ℕ) (c : ℕ) (t : Text)
    → has_dot_line (some c) t ≡ false
    → has_dot_line prev (escape prev c ++ c ∷ t) ≡ false
unfolding escape has_dot_line
has_dot_line-escape none c t h = ground arith
has_dot_line-escape (some b) c t h = ground arith

has_dot_line-stuff : (prev : Option ℕ) (s : Text) → has_dot_line prev (stuff prev s) ≡ false
unfolding stuff
has_dot_line-stuff prev [] = unfold has_dot_line in refl
has_dot_line-stuff prev (c ∷ s) =
    has_dot_line-escape prev c (stuff (some c) s) (has_dot_line-stuff (some c) s)

to_crlf_self : (prev : Option ℕ) (s : Text) → has_bare_lf prev s ≡ false → to_crlf prev s ≡ s
unfolding to_crlf has_bare_lf
to_crlf_self prev [] h = refl
to_crlf_self prev (c ∷ s) h = ground (arith, to_crlf_self (some c) s)

length-stuff : (prev : Option ℕ) (s : Text) → length (stuff prev s) ≤ 2 * length s
unfolding stuff
length-stuff prev [] = omega arith
length-stuff prev (c ∷ s) = ground (arith, length-stuff (some c) s)

-- Whatever the data, a receiver that deletes the first dot of each line gets the data back, with a
-- CR put before each LF that had none.
pub unstuff-add_dot_stuffing :
    (s : Text) → unstuff none (add_dot_stuffing_and_ensure_crlf_newlines s) ≡ to_crlf none s
unstuff-add_dot_stuffing s = rw add_dot_stuffing-eq-stuff (unstuff-stuff none s)

-- Data in which every LF follows a CR comes through dot-stuffing and the receiver unchanged.
unstuff-add_dot_stuffing_self :
    (s : Text)
    → has_bare_lf none s ≡ false
    → unstuff none (add_dot_stuffing_and_ensure_crlf_newlines s) ≡ s
unstuff-add_dot_stuffing_self s h = unstuff-add_dot_stuffing s ∙ to_crlf_self none s h

-- Whatever the data, what is put on the wire has no line that begins with a dot and a line end, no
-- LF without a CR before it, and at most twice as many bytes, for which the method's buffer has
-- room.
pub add_dot_stuffing-safe :
    (s : Text)
    → (has_dot_line none (add_dot_stuffing_and_ensure_crlf_newlines s) ≡ false)
      × (has_bare_lf none (add_dot_stuffing_and_ensure_crlf_newlines s) ≡ false)
      × (length (add_dot_stuffing_and_ensure_crlf_newlines s) ≤ 2 * length s)
add_dot_stuffing-safe s =
    rw add_dot_stuffing-eq-stuff
      (has_dot_line-stuff none s, has_bare_lf-stuff none s, length-stuff none s)
