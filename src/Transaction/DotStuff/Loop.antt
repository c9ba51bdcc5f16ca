-- ===== src/Transaction/DotStuff/Loop.antt =====
-- The loop of `add_dot_stuffing_and_ensure_crlf_newlines` computes the reference, and the fuel that
-- it is given is enough.
use mathlib.Core.List.{append-nil, append_assoc}
use companyly_microservices.Base.{
  ℕ, zero, suc, ◌+◌, ◌≤◌, ◌<◌, Bool, false, ◌≡◌, Option, none, some, [], ◌∷◌, ◌++◌, Text, ◌==◌,
  arith, if◌then◌else◌, drop, length, inl, inr, Bool-cases, length-append, drop-append,
}
use companyly_microservices.Transaction.DotStuff.{
  find, index_of, slice, extra, dot_first, run_end, stuff_loop,
  add_dot_stuffing_and_ensure_crlf_newlines,
}
use companyly_microservices.Transaction.DotStuff.Reference.{
  stuff, escape, last, last-snoc, extra-eq-escape, find-ge, run_end-dot, run_end-lf, slice_run,
  slice_stop, drop-snoc,
}

-- What the proof says of the loop at a position.
abbrev Copies : Text → Type 0
Copies rest =
    (front out : Text) (p fuel : ℕ)
    → p ≤ length front
    → length rest < fuel
    → stuff_loop fuel (front ++ rest) out p (find 0x2E (length front) rest)
        (find 0x0A (length front) rest)
      ≡ out ++ (drop p front ++ stuff (last none front) rest)

stuff_loop-stop :
    (fuel : ℕ) (s out : Text) (p : ℕ) (dot lf : Option ℕ) {e : ℕ} {b : Bool}
    → run_end dot lf ≡ some e
    → dot_first dot lf ≡ b
    → stuff_loop (suc fuel) s out p dot lf
      ≡ stuff_loop fuel s
          (out ++ (slice p e s ++ (extra s e ++ slice e (e + 1) s)))
          (e + 1)
          (if b then index_of 0x2E (e + 1) s else dot)
          (if b then lf else index_of 0x0A (e + 1) s)
unfolding stuff_loop
stuff_loop-stop fuel s out p dot lf h k = rw (h, stuff_loop) (rw k)

-- The output behind a stop, in the reference's words.
stuff-stop :
    (front r out : Text) (c p : ℕ)
    → p ≤ length front
    → (out
          ++ (slice p (length front) (front ++ c ∷ r)
              ++ (extra (front ++ c ∷ r) (length front)
                  ++ slice (length front) (length front + 1) (front ++ c ∷ r))))
        ++ stuff (some c) r
      ≡ out ++ (drop p front ++ stuff (last none front) (c ∷ r))
unfolding stuff
stuff-stop front r out c p h =
    simp (slice_run p front (c ∷ r) h, extra-eq-escape, slice_stop, append_assoc)

-- The state behind a stop is the state that the proof speaks of.
Copies-next :
    (front r out : Text) (c fuel : ℕ)
    → Copies r
    → length r < fuel
    → stuff_loop fuel
        (front ++ c ∷ r)
        out
        (length front + 1)
        (find 0x2E (length front + 1) r)
        (find 0x0A (length front + 1) r)
      ≡ out ++ stuff (some c) r
Copies-next front r out c fuel ih h =
    let l : length (front ++ c ∷ []) ≡ length front + 1 = length-append front (c ∷ []) in
    let d : drop (length front + 1) (front ++ c ∷ []) ≡ [] = drop-snoc front [] c in
    let a : (front ++ c ∷ []) ++ r ≡ front ++ c ∷ r = append_assoc front (c ∷ []) r in
    rw (l, a, d, last-snoc) at
      (ih (front ++ c ∷ []) out (length front + 1) fuel (omega (arith, l)) h)

-- A byte that is no stop joins the run.
Copies-skip :
    (front r out : Text) (c p fuel : ℕ)
    → Copies r
    → p ≤ length front
    → length r < fuel
    → stuff_loop fuel
        (front ++ c ∷ r)
        out
        p
        (find 0x2E (length front + 1) r)
        (find 0x0A (length front + 1) r)
      ≡ out ++ (drop p front ++ c ∷ stuff (some c) r)
Copies-skip front r out c p fuel ih q h =
    let l : length (front ++ c ∷ []) ≡ length front + 1 = length-append front (c ∷ []) in
    let a : (front ++ c ∷ []) ++ r ≡ front ++ c ∷ r = append_assoc front (c ∷ []) r in
    let d : drop p (front ++ c ∷ []) ≡ drop p front ++ c ∷ [] = drop-append p front (c ∷ []) q in
    simp (l, a, d, last-snoc, append_assoc) at
      (ih (front ++ c ∷ []) out p fuel (omega (arith, l)) h)

find-cons : (b at c : ℕ) (r : Text) → c ≡ b → find b at (c ∷ r) ≡ some at
unfolding find
find-cons b at c r h = ground arith

find-skip : (b at c : ℕ) (r : Text) → (c == b) ≡ false → find b at (c ∷ r) ≡ find b (at + 1) r
unfolding find
find-skip b at c r h = ground arith

index_of-next :
    (b : ℕ) (front r : Text) (c : ℕ)
    → index_of b (length front + 1) (front ++ c ∷ r) ≡ find b (length front + 1) r
index_of-next b front r c = rw drop-snoc

escape-plain :
    (prev : Option ℕ) (c : ℕ) → (c == 0x2E) ≡ false → (c == 0x0A) ≡ false → escape prev c ≡ []
unfolding escape
escape-plain prev c n m = rw (n, m)

module _ (front r out : Text) (c p fuel : ℕ) (ih : Copies r) (q : p ≤ length front)
    (h : length r < fuel) where
  Copies-dot :
      c ≡ 0x2E
      → stuff_loop
          (suc fuel)
          (front ++ c ∷ r)
          out
          p
          (find 0x2E (length front) (c ∷ r))
          (find 0x0A (length front) (c ∷ r))
        ≡ out ++ (drop p front ++ stuff (last none front) (c ∷ r))
  Copies-dot e =
      let stop =
        run_end-dot (length front) (find 0x0A (length front + 1) r)
          (λ l k. omega (arith, find-ge 0x0A (length front + 1) r l k)) in
      rw
        (
          find-cons 0x2E (length front) c r e,
          find-skip 0x0A (length front) c r (ground arith),
          stuff_loop-stop fuel (front ++ c ∷ r) out p _ _ stop.0 stop.1,
          index_of-next 0x2E front r c,
          Copies-next front r _ c fuel ih h,
        )
        (stuff-stop front r out c p q)

  Copies-lf :
      c ≡ 0x0A
      → stuff_loop
          (suc fuel)
          (front ++ c ∷ r)
          out
          p
          (find 0x2E (length front) (c ∷ r))
          (find 0x0A (length front) (c ∷ r))
        ≡ out ++ (drop p front ++ stuff (last none front) (c ∷ r))
  Copies-lf e =
      let stop =
        run_end-lf (length front) (find 0x2E (length front + 1) r)
          (λ l k. omega (arith, find-ge 0x2E (length front + 1) r l k)) in
      rw
        (
          find-cons 0x0A (length front) c r e,
          find-skip 0x2E (length front) c r (ground arith),
          stuff_loop-stop fuel (front ++ c ∷ r) out p _ _ stop.0 stop.1,
          index_of-next 0x0A front r c,
          Copies-next front r _ c fuel ih h,
        )
        (stuff-stop front r out c p q)

Copies-all : (rest : Text) → Copies rest
unfolding stuff
Copies-all rest front out p zero q h = absurd (omega arith)
Copies-all [] front out p (suc f) q h = unfold stuff_loop find in simp append-nil
Copies-all (c ∷ r) front out p (suc f) q h =
    let ih = Copies-all r in
    elim (Bool-cases (c == 0x2E)) [
      | inl e ↦ Copies-dot front r out c p f ih q (omega arith) (ground arith)
      | inr n ↦ elim (Bool-cases (c == 0x0A)) [
        | inl e ↦ Copies-lf front r out c p f ih q (omega arith) (ground arith)
        | inr m ↦
            rw
              (
                find-skip 0x2E (length front) c r n,
                find-skip 0x0A (length front) c r m,
                escape-plain (last none front) c n m,
              )
              (Copies-skip front r out c p (suc f) ih q (omega arith))
      ]
    ]

-- The method and the byte-by-byte definition agree on all data; in particular the loop never runs
-- out of its fuel.
pub add_dot_stuffing-eq-stuff :
    (s : Text) → add_dot_stuffing_and_ensure_crlf_newlines s ≡ stuff none s
unfolding add_dot_stuffing_and_ensure_crlf_newlines
add_dot_stuffing-eq-stuff s = Copies-all s [] [] 0 (length s + 1) (omega arith) (omega arith)
