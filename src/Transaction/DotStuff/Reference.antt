-- ===== src/Transaction/DotStuff/Reference.antt =====
-- The loop of email/transaction.js against a definition by one pass over the bytes.
use companyly_microservices.Base.{
  ℕ, suc, ◌+◌, ◌-◌, ◌≤◌, ◌<◌, true, false, ◌≡◌, refl, Option, none, some, [], ◌∷◌, ◌++◌, Text, ◌&&◌,
  not, ◌==◌, arith, if◌then◌else◌, get_elem?, drop, length, drop-append, drop-length,
  take-length_append, length-drop, get_elem?-length_append,
}
use companyly_microservices.Transaction.DotStuff.{find, slice, extra, extra_of, dot_first, run_end}

-- `prev` is the byte before, if there is one.
unfoldable pub escape : Option ℕ → ℕ → Text
escape prev c =
    if c == 0x2E && elim prev [ none ↦ true | some b ↦ b == 0x0A ]
    then 0x2E ∷ []
    else if c == 0x0A && elim prev [ none ↦ true | some b ↦ not (b == 0x0D) ]
    then 0x0D ∷ []
    else []

-- The specification: byte by byte, an escape in front where one is due.
unfoldable pub stuff : Option ℕ → Text → Text
unfolding escape
stuff prev [] = []
stuff prev (c ∷ s) = escape prev c ++ c ∷ stuff (some c) s

-- The byte before what follows `s`, where `prev` stands before `s`.
abbrev pub last : Option ℕ → Text → Option ℕ
last prev [] = prev
last prev (c ∷ s) = last (some c) s

pub last-snoc : (prev : Option ℕ) (s : Text) (c : ℕ) → last prev (s ++ c ∷ []) ≡ some c
last-snoc prev [] c = refl
last-snoc prev (d ∷ s) c = last-snoc (some d) s c

get_elem?-last : (d : ℕ) (s r : Text) → get_elem? (d ∷ (s ++ r)) (length s) ≡ last (some d) s
get_elem?-last d [] r = refl
get_elem?-last d (c ∷ s) r = get_elem?-last c s r

last-some : (d : ℕ) (s : Text) → (b : ℕ) × (last (some d) s ≡ some b)
last-some d [] = (d, refl)
last-some d (c ∷ s) = last-some c s

extra_of-eq-escape : (b c : ℕ) → extra_of (some c) false (some b) ≡ escape (some b) c
unfolding extra_of escape
extra_of-eq-escape b c = ground arith

extra_of-first : (c : ℕ) (p : Option ℕ) → extra_of (some c) true p ≡ escape none c
unfolding extra_of escape
extra_of-first c p = ground arith

pub extra-eq-escape :
    (front : Text) (c : ℕ) (r : Text)
    → extra (front ++ c ∷ r) (length front) ≡ escape (last none front) c
unfolding extra
extra-eq-escape [] c r = extra_of-first c _
extra-eq-escape (d ∷ front) c r =
    let (b, l) = last-some d front in
    let e : suc (length front) - 1 ≡ length front = omega arith in
    let z : (suc (length front) == 0) ≡ false = ground arith in
    rw (e, z, get_elem?-length_append front r c, get_elem?-last d front (c ∷ r), l)
      (extra_of-eq-escape b c)

pub find-ge : (b at : ℕ) (s : Text) (i : ℕ) → find b at s ≡ some i → at ≤ i
unfolding find
find-ge b at [] i h = cc
find-ge b at (c ∷ s) i h = ground (arith, find-ge b (at + 1) s i)

pub run_end-dot :
    (e : ℕ) (lf : Option ℕ)
    → ((l : ℕ) → lf ≡ some l → e < l)
    → (run_end (some e) lf ≡ some e) × (dot_first (some e) lf ≡ true)
run_end-dot e none h = (refl, refl)
run_end-dot e (some l) h = ground (arith, h l refl)

pub run_end-lf :
    (e : ℕ) (dot : Option ℕ)
    → ((d : ℕ) → dot ≡ some d → e < d)
    → (run_end dot (some e) ≡ some e) × (dot_first dot (some e) ≡ false)
run_end-lf e none h = (refl, refl)
run_end-lf e (some d) h = ground (arith, h d refl)

-- What the loop copies up to the stop: the run, and the stop itself.
pub slice_run :
    (p : ℕ) (front rest : Text)
    → p ≤ length front
    → slice p (length front) (front ++ rest) ≡ drop p front
slice_run p front rest h =
    let e : length (drop p front) ≡ length front - p = length-drop p front in
    rw (drop-append p front rest h, ← e) (take-length_append (drop p front) rest)

pub slice_stop :
    (front r : Text) (c : ℕ) → slice (length front) (length front + 1) (front ++ c ∷ r) ≡ c ∷ []
slice_stop front r c =
    let e : length front + 1 - length front ≡ 1 = omega arith in
    rw (e, drop-append (length front) front (c ∷ r) (omega arith), drop-length front)

pub drop-snoc : (front r : Text) (c : ℕ) → drop (length front + 1) (front ++ c ∷ r) ≡ r
drop-snoc [] r c = refl
drop-snoc (d ∷ front) r c =
    let e : suc (length front) + 1 ≡ suc (length front + 1) = omega arith in
    rw e (drop-snoc front r c)
