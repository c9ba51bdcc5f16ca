-- ===== src/Transaction/Message/Lines.antt =====
-- The lines of a message on their way through `add_data` of email/transaction.js.
use companyly_microservices.Base.{
  ℕ, false, ◌≡◌, refl, ◌⊎◌, inl, inr, List, [], ◌∷◌, ◌≤◌, Text, arith, length, length-append,
  Bool-cases, ltb, ◌==◌, ◌&&◌,
}
use companyly_microservices.Transaction.DotStuff.{remove_final_cr}
use companyly_microservices.Transaction.State.{Parser, Transaction}
use companyly_microservices.Transaction.Message.{
  is_separator, strip_dot, add_line, end_of_header, header_line, add_data,
}

-- The stream, newest line first, has each line in turn, whole or without a leading dot.
abbrev pub Streams : List Text → List Text → List Text → Type 0
Streams [] old new = new ≡ old
Streams (line ∷ ls) old new =
    (k : Text) × ((k ≡ line) ⊎ (k ≡ strip_dot line)) × Streams ls (k ∷ old) new

Streams-along :
    (ls : List Text) (old old' new : List Text)
    → old ≡ old'
    → Streams ls old new
    → Streams ls old' new
Streams-along ls old old' new e s = rw e at s

module _ {M : Type 0} (parser : Parser M) (max : ℕ) where
  -- One line.
  record Taken (line : Text) (t u : Transaction M) : Type 0 where
    still_whole : u.parse_body ≡ false
    still_kept : u.discard_data ≡ false
    bounded : length u.header_lines ≤ max
    streamed : (k : Text) × ((k ≡ line) ⊎ (k ≡ strip_dot line)) × (u.stream ≡ k ∷ t.stream)

  module _ (line : Text) (t : Transaction M) (whole : t.parse_body ≡ false)
      (kept : t.discard_data ≡ false) (short : length t.header_lines ≤ max) where
    add_line-Taken : Taken line t (add_line parser line t)
    unfolding add_line
    add_line-Taken = record {
      still_whole = ground arith;
      still_kept = ground arith;
      bounded = ground arith;
      streamed = (line, inl refl, ground arith);
    }

    end_of_header-Taken : Taken line t (add_line parser line (end_of_header parser t))
    unfolding add_line end_of_header
    end_of_header-Taken = record {
      still_whole = ground arith;
      still_kept = ground arith;
      bounded = ground arith;
      streamed = (line, inl refl, ground arith);
    }

    header_line-Taken : Taken line t (header_line parser max line t)
    unfolding header_line add_line
    header_line-Taken = elim (Bool-cases (ltb (length t.header_lines) max)) [
      | inl e ↦ record {
        still_whole = ground arith;
        still_kept = ground arith;
        bounded =
            ground (arith, length-append t.header_lines (remove_final_cr (strip_dot line) ∷ []));
        streamed = (strip_dot line, inr refl, ground arith);
      }
      | inr e ↦ record {
        still_whole = ground arith;
        still_kept = ground arith;
        bounded = ground arith;
        streamed = (line, inl refl, ground arith);
      }
    ]

    add_data-body :
        (t.header_pos == 0) ≡ false → add_data parser max line t ≡ add_line parser line t
    unfolding add_data
    add_data-body z = ground arith

    add_data-Taken : Taken line t (add_data parser max line t)
    unfolding add_data
    add_data-Taken = elim (Bool-cases (t.header_pos == 0 && is_separator line)) [
      | inl e ↦ rw e end_of_header-Taken
      | inr e ↦ elim (Bool-cases (t.header_pos == 0)) [
        | inl z ↦ rw (e, z) header_line-Taken
        | inr z ↦ rw (add_data-body z) add_line-Taken
      ]
    ]

  abbrev pub add_all : List Text → Transaction M → Transaction M
  add_all [] t = t
  add_all (line ∷ ls) t = add_all ls (add_data parser max line t)

  -- Of a message whose body is not parsed, whose data is kept and that holds no more header lines
  -- than the limit: each line that comes reaches the stream once and in order, whole or without a
  -- leading dot, and never are more header lines held than the limit allows.
  pub add_data-Streams :
      (ls : List Text) (t : Transaction M)
      → t.parse_body ≡ false
      → t.discard_data ≡ false
      → length t.header_lines ≤ max
      → Streams ls t.stream (add_all ls t).stream × (length (add_all ls t).header_lines ≤ max)
  add_data-Streams [] t whole kept short = (refl, short)
  add_data-Streams (line ∷ ls) t whole kept short =
      let h = add_data-Taken line t whole kept short in
      let (k, is, e) = h.streamed in
      let (s, b) = add_data-Streams ls _ h.still_whole h.still_kept h.bounded in
      ((k, is, Streams-along ls _ _ _ e s), b)
