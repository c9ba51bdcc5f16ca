-- ===== src/Dkim/Relaxed.antt =====
-- `canonicalize` of email/dkim.js, against the relaxed algorithm of RFC 6376 on one line.
use companyly_microservices.Base.{
  ℕ, ◌+◌, ◌-◌, Bool, true, false, [], ◌∷◌, ◌++◌, Text, ◌≡◌, refl, sym, ap, ◌∙◌, inl, inr, ◌==◌,
  ◌&&◌, not, if◌then◌else◌, length, drop, arith, Bool-cases, length-append, drop-append,
  drop-length, take-length_append,
}
use mathlib.Core.List.{append_assoc}
use companyly_microservices.Dkim.{is_wsp, is_newline, crlf, slice, canonicalize_from, canonicalize}

-- Whether white space in front of a text that has been squeezed goes: at the end of the line, and
-- before other white space.
abbrev absorbs : Text → Bool
absorbs [] = true
absorbs (c ∷ s) = c == 32

abbrev pad : Text → Text
pad t = if absorbs t then t else 32 ∷ t

-- Each run of white space is one space, and there is none at the end.
abbrev squeeze : Text → Text
squeeze [] = []
squeeze (c ∷ s) = if is_wsp c then pad (squeeze s) else c ∷ squeeze s

abbrev no_newline : Text → Bool
no_newline [] = true
no_newline (c ∷ s) = not (is_newline c) && no_newline s

slice-mid : (a m r : Text) → slice (length a) (length a + length m) (a ++ (m ++ r)) ≡ m
unfolding slice
slice-mid a m r =
    let n : (length a + length m) - length a ≡ length m = omega arith in
    let d : drop (length a) (a ++ (m ++ r)) ≡ m ++ r =
      drop-append (length a) a (m ++ r) (omega arith) ∙ ap (◌++ (m ++ r)) (drop-length a) in
    rw (n, d) (take-length_append m r)

pad-pad : (t : Text) → pad (pad t) ≡ pad t
pad-pad [] = refl
pad-pad (c ∷ s) = ground arith

slice-eq :
    (a m r buf : Text) (from to : ℕ)
    → buf ≡ a ++ (m ++ r)
    → from ≡ length a
    → to ≡ length a + length m
    → slice from to buf ≡ m
slice-eq a m r buf from to e f t = rw (e, f, t) (slice-mid a m r)

snoc-eq : (m : Text) (c : ℕ) (r : Text) → (m ++ c ∷ []) ++ r ≡ m ++ c ∷ r
snoc-eq m c r = append_assoc m (c ∷ []) r

-- The output of a space and of a character that is none.
spaced :
    (out m : Text) (c : ℕ) (t : Text)
    → is_wsp c ≡ false
    → (out ++ (m ++ 32 ∷ [])) ++ ((c ∷ []) ++ t) ≡ out ++ (m ++ 32 ∷ c ∷ t)
spaced out m c t h = append_assoc out (m ++ 32 ∷ []) (c ∷ t) ∙ ap (out ++◌) (snoc-eq m 32 (c ∷ t))

pad-other : (c : ℕ) (t : Text) → is_wsp c ≡ false → pad (c ∷ t) ≡ 32 ∷ c ∷ t
pad-other c t h = let e : (c == 32) ≡ false = ground arith in rw e refl

mutual
  unfolding canonicalize_from

  -- The loop outside white space: behind the chunks that are out, `m` is the chunk that is going on.
  in_chunk :
      (p a m junk out buf : Text) (nl idx last wsp : ℕ)
      → buf ≡ a ++ (m ++ (p ++ nl ∷ junk))
      → idx ≡ length a + length m
      → last ≡ length a
      → no_newline p ≡ true
      → is_newline nl ≡ true
      → canonicalize_from buf (p ++ nl ∷ junk) idx last wsp false out
        ≡ out ++ (m ++ (squeeze p ++ crlf))
  in_chunk [] a m junk out buf nl idx last wsp e i l ok end =
      rw end (ap (λ x. out ++ (x ++ crlf)) (slice-eq a m (nl ∷ junk) buf last idx e l i))
  in_chunk (c ∷ p) a m junk out buf nl idx last wsp e i l ok end =
      let going : is_newline c ≡ false = ground arith in
      elim (Bool-cases (is_wsp c)) [
        | inl w ↦
            rw (going, w)
              (in_run p a m (c ∷ []) junk out buf nl (idx + 1) last idx e (omega arith) l i
                (ground arith) end)
        | inr w ↦
            rw (going, w)
              (in_chunk p a (m ++ c ∷ []) junk out buf nl (idx + 1) last wsp
                  (e ∙ ap (a ++◌) (sym (snoc-eq m c (p ++ nl ∷ junk))))
                  (omega (arith, length-append m (c ∷ []))) l (ground arith) end
                ∙ ap (out ++◌) (snoc-eq m c (squeeze p ++ crlf)))
      ]

  -- The loop inside white space, of which the characters `w` have been seen.
  in_run :
      (p a m w junk out buf : Text) (nl idx last wsp : ℕ)
      → buf ≡ a ++ (m ++ (w ++ (p ++ nl ∷ junk)))
      → idx ≡ length a + (length m + length w)
      → last ≡ length a
      → wsp ≡ length a + length m
      → no_newline p ≡ true
      → is_newline nl ≡ true
      → canonicalize_from buf (p ++ nl ∷ junk) idx last wsp true out
        ≡ out ++ (m ++ (pad (squeeze p) ++ crlf))
  in_run [] a m w junk out buf nl idx last wsp e i l k ok end =
      rw end (ap (λ x. out ++ (x ++ crlf)) (slice-eq a m (w ++ nl ∷ junk) buf last wsp e l k))
  in_run (c ∷ p) a m w junk out buf nl idx last wsp e i l k ok end =
      let going : is_newline c ≡ false = ground arith in
      elim (Bool-cases (is_wsp c)) [
        | inl h ↦
            rw (going, h)
              (in_run p a m (w ++ c ∷ []) junk out buf nl (idx + 1) last wsp
                  (e ∙ ap (λ x. a ++ (m ++ x)) (sym (snoc-eq w c (p ++ nl ∷ junk))))
                  (omega (arith, length-append w (c ∷ []))) l k (ground arith) end
                ∙ ap (λ x. out ++ (m ++ (x ++ crlf))) (sym (pad-pad (squeeze p))))
        | inr h ↦
            rw (going, h, slice-eq a m (w ++ c ∷ (p ++ nl ∷ junk)) buf last wsp e l k)
              (in_chunk p (a ++ (m ++ w)) (c ∷ []) junk (out ++ (m ++ 32 ∷ [])) buf nl (idx + 1) idx
                  wsp
                  (e
                    ∙ sym (
                        append_assoc a (m ++ w) (c ∷ (p ++ nl ∷ junk))
                        ∙ ap (a ++◌) (append_assoc m w (c ∷ (p ++ nl ∷ junk)))))
                  (omega (arith, length-append a (m ++ w), length-append m w))
                  (omega (arith, length-append a (m ++ w), length-append m w)) (ground arith) end
                ∙ (spaced out m c (squeeze p ++ crlf) h
                    ∙ ap (λ x. out ++ (m ++ (x ++ crlf))) (sym (pad-other c (squeeze p) h))))
      ]

-- Of a line that has a CR or an LF, `canonicalize` gives what stands before the first of them, with its
-- white space as the relaxed algorithm has it, and CRLF. What stands behind a CR inside the line is
-- lost, so that it can be changed without changing the hash.
pub canonicalize-squeeze :
    (p junk : Text) (nl : ℕ)
    → no_newline p ≡ true
    → is_newline nl ≡ true
    → canonicalize (p ++ nl ∷ junk) ≡ squeeze p ++ crlf
unfolding canonicalize
canonicalize-squeeze p junk nl ok end =
    in_chunk p [] [] junk [] (p ++ nl ∷ junk) nl 0 0 0 refl (omega arith) refl ok end
