-- ===== src/Transaction/DotStuff.antt =====
-- `add_dot_stuffing_and_ensure_crlf_newlines` and `remove_final_cr` of email/transaction.js, over
-- bytes. The `while` loop takes fuel; `Transaction.DotStuff.Reference` shows that the length of the
-- data and one more are enough.
pub mod Reference
pub mod Loop
pub mod Wire
pub mod Tests
use companyly_microservices.Base.{
  ℕ, zero, suc, ◌+◌, ◌-◌, Bool, true, false, Option, none, some, List, [], ◌∷◌, ◌++◌, Text, ◌&&◌,
  ◌||◌, not, ◌==◌, ltb, if◌then◌else◌, get_elem?, take, drop, length, reverse,
}

-- `data.indexOf(byte, from)`, where `at` is the index of the list's head.
unfoldable pub find : ℕ → ℕ → Text → Option ℕ
find byte at [] = none
find byte at (c ∷ s) = if c == byte then some at else find byte (at + 1) s

abbrev pub index_of : ℕ → ℕ → Text → Option ℕ
index_of byte from s = find byte from (drop from s)

-- `x === byte`, where `x` may be undefined.
abbrev is_byte : Option ℕ → ℕ → Bool
is_byte none byte = false
is_byte (some c) byte = c == byte

-- `data[i] === byte`
abbrev pub has_at : Text → ℕ → ℕ → Bool
has_at s i byte = is_byte (get_elem? s i) byte

-- `data.slice(from, to)`
abbrev pub slice : ℕ → ℕ → Text → Text
slice from to s = take (to - from) (drop from s)

-- Whether the next stop is the dot: `next_dot !== -1 && (next_lf === -1 || next_dot < next_lf)`.
abbrev pub dot_first : Option ℕ → Option ℕ → Bool
dot_first none lf = false
dot_first (some d) none = true
dot_first (some d) (some l) = ltb d l

-- `run_end`; `none` where both are -1 and the loop ends.
abbrev pub run_end : Option ℕ → Option ℕ → Option ℕ
run_end none none = none
run_end none (some l) = some l
run_end (some d) none = some d
run_end (some d) (some l) = if ltb d l then some d else some l

-- The byte that is put in front of the stop `c`, where `prev` stands before it.
unfoldable pub extra_of : Option ℕ → Bool → Option ℕ → Text
extra_of c first prev =
    if is_byte c 0x2E && (first || is_byte prev 0x0A)
    then 0x2E ∷ []
    else if is_byte c 0x0A && (first || not (is_byte prev 0x0D))
    then 0x0D ∷ []
    else []

unfoldable pub extra : Text → ℕ → Text
extra s e = extra_of (get_elem? s e) (e == 0) (get_elem? s (e - 1))

-- The loop, with the output so far, `input_pos`, `next_dot` and `next_lf`; behind it the copy of
-- the rest.
unfoldable pub stuff_loop : ℕ → Text → Text → ℕ → Option ℕ → Option ℕ → Text
stuff_loop zero s out pos dot lf = out
stuff_loop (suc fuel) s out pos dot lf = elim (run_end dot lf) [
  | none ↦ out ++ drop pos s
  | some e ↦
      stuff_loop fuel s (out ++ (slice pos e s ++ (extra s e ++ slice e (e + 1) s))) (e + 1)
        (if dot_first dot lf then index_of 0x2E (e + 1) s else dot)
        (if dot_first dot lf then lf else index_of 0x0A (e + 1) s)
]

unfoldable pub add_dot_stuffing_and_ensure_crlf_newlines : Text → Text
unfolding stuff_loop
add_dot_stuffing_and_ensure_crlf_newlines s =
    stuff_loop (length s + 1) s [] 0 (index_of 0x2E 0 s) (index_of 0x0A 0 s)

-- Of a CRLF at the end the CR goes.
unfoldable pub remove_final_cr : Text → Text
remove_final_cr [] = []
remove_final_cr (c ∷ []) = c ∷ []
remove_final_cr (c ∷ d ∷ []) = if c == 0x0D && d == 0x0A then 0x0A ∷ [] else c ∷ d ∷ []
remove_final_cr (c ∷ d ∷ e ∷ s) = c ∷ remove_final_cr (d ∷ e ∷ s)
