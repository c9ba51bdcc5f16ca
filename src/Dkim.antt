-- ===== src/Dkim.antt =====
-- email/dkim.js: the body of a message as its hash takes it (`canonicalize`, `add_body_line`), and the
-- overall result of `DKIMVerifyStream`. A line is the list of its bytes.

pub mod Relaxed
pub mod Body
pub mod Tests
use companyly_microservices.Base.{
  ℕ, ◌+◌, ◌-◌, Bool, true, false, List, [], ◌∷◌, ◌++◌, Text, ◌==◌, ◌&&◌, ◌||◌, not, if◌then◌else◌,
  take, drop, join,
}

abbrev pub is_wsp : ℕ → Bool
is_wsp c = c == 9 || c == 32

abbrev pub is_newline : ℕ → Bool
is_newline c = c == 13 || c == 10

abbrev pub crlf : Text
crlf = 13 ∷ 10 ∷ []

unfoldable pub slice : ℕ → ℕ → Text → Text
slice from to buf = take (to - from) (drop from buf)

-- The loop of `canonicalize` from a place on: the buffer, what is left of it, `idx`,
-- `last_chunk_idx`, `idx_wsp`, `in_wsp`, and the chunks so far, joined.
unfoldable pub canonicalize_from : Text → Text → ℕ → ℕ → ℕ → Bool → Text → Text
unfolding slice
canonicalize_from buf [] idx last wsp in_wsp out = out ++ crlf
canonicalize_from buf (c ∷ left) idx last wsp in_wsp out =
    let ends_run = not (is_wsp c) && in_wsp in
    let rest =
      canonicalize_from buf left (idx + 1) (if ends_run then idx else last)
        (if is_wsp c && not in_wsp then idx else wsp) (is_wsp c)
        (if ends_run then out ++ (slice last wsp buf ++ 32 ∷ []) else out) in
    if is_newline c then out ++ (slice last (if in_wsp then wsp else idx) buf ++ crlf) else rest

unfoldable pub canonicalize : Text → Text
unfolding canonicalize_from
canonicalize buf = canonicalize_from buf buf 0 0 0 false []

-- What a signature keeps of the body: the bytes given to its hash, the blank lines that are held back,
-- and whether it has its result already.
pub record DkimObject : Type 0 where
  pub relaxed : Bool
  pub run_cb : Bool
  pub hashed : Text
  pub line_buffer : List Text

unfoldable pub is_blank : Text → Bool
is_blank (a ∷ []) = a == 10
is_blank (a ∷ b ∷ []) = a == 13 && b == 10
is_blank _ = false

unfoldable pub add_body_line : Text → DkimObject → DkimObject
unfolding canonicalize is_blank join
add_body_line line d =
    let line' = if d.relaxed then canonicalize line else line in
    if d.run_cb
    then d
    else if is_blank line'
    then record d { line_buffer = d.line_buffer ++ line' ∷ [] }
    else record d { hashed = d.hashed ++ (join [] d.line_buffer ++ line'); line_buffer = [] }

unfoldable pub add_body_lines : List Text → DkimObject → DkimObject
unfolding add_body_line
add_body_lines [] d = d
add_body_lines (line ∷ lines) d = add_body_lines lines (add_body_line line d)

pub data Result : Type 0 where
  pass tempfail fail invalid none : Result

unfoldable result_eq : Result → Result → Bool
result_eq pass pass = true
result_eq tempfail tempfail = true
result_eq fail fail = true
result_eq invalid invalid = true
result_eq none none = true
result_eq _ _ = false

-- The loop over the order of precedence in `callback`.
unfoldable pub precedence : List Result → Result → Result → Result
unfolding result_eq
precedence [] overall r = overall
precedence (p ∷ ps) overall r =
    precedence ps (if not (result_eq overall p) && result_eq r p then p else overall) r

unfoldable pub callback : Result → Result → Result
unfolding precedence
callback overall r = precedence (pass ∷ tempfail ∷ fail ∷ invalid ∷ none ∷ []) overall r
