-- ===== src/Outbound/Qfile/Names.antt =====
-- The names of email/outbound/qfile.js are read as they were written.
use companyly_microservices.Base.{
  ℕ, Bool, true, ◌≡◌, refl, ap, ◌∙◌, some, List, [], ◌∷◌, ◌++◌, Text, ◌==◌, not, split_at, join,
  decimal, codes, arith, Bool-cases, and_true, inl, inr,
}
use companyly_microservices.Rfc1869.{all}
use companyly_microservices.Outbound.Delivery.Reply.{is_digit}
use companyly_microservices.Outbound.Qfile.{
  Parts, or_number, or_text, next_counter, hostname, replace_char, name, good, of_pieces, parts,
}
use companyly_microservices.Outbound.Qfile.Digits.{decimal-IsDigits, parse_int-decimal}

-- A text without the underscore.
abbrev is_free : ℕ → Bool
is_free c = not (c == 95)

abbrev IsFree : Text → Type 0
IsFree s = all is_free s ≡ true

digit_free : (c : ℕ) → is_digit c ≡ true → is_free c ≡ true
unfolding is_digit
digit_free c h = ground arith

digits-IsFree : (s : Text) → all is_digit s ≡ true → IsFree s
unfolding all
digits-IsFree [] h = refl
digits-IsFree (c ∷ s) h =
    let (first, rest) = and_true (is_digit c) (all is_digit s) h in
    rw (digit_free c first) (digits-IsFree s rest)

decimal-IsFree : (n : ℕ) → IsFree (decimal n)
decimal-IsFree n = digits-IsFree (decimal n) (decimal-IsDigits n)

append-IsFree : (s t : Text) → IsFree s → IsFree t → IsFree (s ++ t)
unfolding all
append-IsFree [] t h k = k
append-IsFree (c ∷ s) t h k =
    let (first, rest) = and_true (is_free c) (all is_free s) h in
    rw first (append-IsFree s t rest k)

replace_char-IsFree : (new s : Text) → IsFree new → IsFree (replace_char 95 new s)
unfolding replace_char all
replace_char-IsFree new [] h = refl
replace_char-IsFree new (d ∷ s) h = elim (Bool-cases (d == 95)) [
  | inl e ↦
      rw (e, replace_char)
        (append-IsFree new (replace_char 95 new s) h (replace_char-IsFree new s h))
  | inr e ↦ rw (e, replace_char) (rw e (replace_char-IsFree new s h))
]

hostname-IsFree : (s : Text) → IsFree (hostname s)
unfolding hostname all
hostname-IsFree s =
    replace_char-IsFree (codes "\\137")
      (replace_char 58 (codes "\\072") (replace_char 92 (codes "\\057") s)) refl

split_at-free : (w : Text) → IsFree w → split_at 95 w ≡ w ∷ []
unfolding split_at all
split_at-free [] h = refl
split_at-free (c ∷ w) h =
    let (first, rest) = and_true (is_free c) (all is_free w) h in
    rw (split_at-free w rest, split_at) (ground arith)

split_at-first :
    (w s v : Text) (ws : List Text)
    → IsFree w
    → split_at 95 s ≡ v ∷ ws
    → split_at 95 (w ++ (95 ∷ s)) ≡ w ∷ v ∷ ws
unfolding split_at all
split_at-first [] s v ws h e = rw (e, split_at) refl
split_at-first (c ∷ w) s v ws h e =
    let (first, rest) = and_true (is_free c) (all is_free w) h in
    rw (split_at-first w s v ws rest e, split_at) (ground arith)

parts-split :
    (time last : ℕ) (unique a s : Text)
    → parts time unique last (a ++ (95 ∷ s))
      ≡ of_pieces time unique last (split_at 95 (a ++ (95 ∷ s)))
unfolding parts
parts-split time last unique [] s = refl
parts-split time last unique (c ∷ a) s = refl

pieces :
    (time last : ℕ) (unique : Text) (a n t p c : ℕ) (u h : Text)
    → of_pieces time unique last
        (decimal a ∷ decimal n ∷ decimal t ∷ decimal p ∷ u ∷ decimal c ∷ h ∷ [])
      ≡ good (record {
        arrival = some a;
        next_attempt = some n;
        attempts = some t;
        pid = some p;
        uid = u;
        counter = some c;
        host = h;
      })
unfolding of_pieces
pieces time last unique a n t p c u h =
    rw (parse_int-decimal a) rw (parse_int-decimal n) rw (parse_int-decimal t) rw
      (parse_int-decimal p) rw (parse_int-decimal c) refl

-- What `name` has written, `parts` reads: with a unique text that has no underscore, the fields come
-- back as they were given, or as `name` has filled them in, and the host as `hostname` escapes it.
pub parts-name :
    (time pid last : ℕ) (unique host : Text) (o : Parts) (time' last' : ℕ) (unique' : Text)
    → IsFree (or_text o.uid unique)
    → parts time' unique' last' (name time pid unique last host o)
      ≡ good (record {
        arrival = some (or_number o.arrival time);
        next_attempt = some (or_number o.next_attempt time);
        attempts = some o.attempts;
        pid = some (or_number o.pid pid);
        uid = or_text o.uid unique;
        counter = some (next_counter last);
        host = hostname (or_text o.host host);
      })
unfolding name join
parts-name time pid last unique host o time' last' unique' free =
    let a = decimal (or_number o.arrival time) in
    let n = decimal (or_number o.next_attempt time) in
    let t = decimal o.attempts in
    let p = decimal (or_number o.pid pid) in
    let u = or_text o.uid unique in
    let c = decimal (next_counter last) in
    let h = hostname (or_text o.host host) in
    let s7 = split_at-free h (hostname-IsFree (or_text o.host host)) in
    let s6 = split_at-first c h h [] (decimal-IsFree (next_counter last)) s7 in
    let s5 = split_at-first u _ c (h ∷ []) free s6 in
    let s4 = split_at-first p _ u (c ∷ h ∷ []) (decimal-IsFree (or_number o.pid pid)) s5 in
    let s3 = split_at-first t _ p (u ∷ c ∷ h ∷ []) (decimal-IsFree o.attempts) s4 in
    let s2 =
      split_at-first n _ t (p ∷ u ∷ c ∷ h ∷ []) (decimal-IsFree (or_number o.next_attempt time))
        s3 in
    let s1 =
      split_at-first a _ n (t ∷ p ∷ u ∷ c ∷ h ∷ []) (decimal-IsFree (or_number o.arrival time))
        s2 in
    parts-split time' last' unique' a _
    ∙ ap (of_pieces time' unique' last') s1
    ∙ pieces time' last' unique' (or_number o.arrival time) (or_number o.next_attempt time)
        o.attempts (or_number o.pid pid) (next_counter last) u h
