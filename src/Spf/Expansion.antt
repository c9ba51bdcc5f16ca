-- ===== src/Spf/Expansion.antt =====
-- The values of the macros in email/spf.js: what holds no macro before its transformers holds none after.
use companyly_microservices.Base.{
  ℕ, zero, suc, ◌+◌, ◌≤◌, Bool, true, false, not, ◌&&◌, ◌||◌, ◌==◌, if◌then◌else◌, ◌≡◌, refl, sym,
  ap, ◌∙◌, inl, inr, Option, some, List, [], ◌∷◌, ◌++◌, Text, All, codes, split_at, join, is_empty,
  drop, take, reverse, any, arith, Bool-cases,
}
use mathlib.Core.List.{reverse_aux}
use companyly_microservices.Outbound.Qfile.{parse_from}
use companyly_microservices.Spf.Net.{Version, ipv4, ipv6}
use companyly_microservices.Spf.Macros.{Macro, part_of, value_of, separator, transform, dollars}
use companyly_microservices.Spf.{Spf}

abbrev pub percents : Text → ℕ
percents [] = 0
percents (c ∷ s) = (if c == 37 then 1 else 0) + percents s

-- No per cent sign and no dollar.
abbrev pub is_quiet : Text → Bool
is_quiet [] = true
is_quiet (c ∷ s) = not (c == 37 || c == 36) && is_quiet s

-- Every value of a macro is quiet.
abbrev pub Quiet : Spf → Type 0
Quiet spf = (c : ℕ) (v : Text) → value_of c spf ≡ some v → is_quiet v ≡ true

pub percents-append : (s t : Text) → percents (s ++ t) ≡ percents s + percents t
percents-append [] t = omega arith
percents-append (c ∷ s) t = omega (arith, percents-append s t)

pub percents-quiet : (s : Text) → is_quiet s ≡ true → percents s ≡ 0
percents-quiet [] q = refl
percents-quiet (c ∷ s) q = let ih = percents-quiet s (ground arith) in ground arith

pub percents-drop : (n : ℕ) (s : Text) → percents (drop n s) ≤ percents s
percents-drop zero s = omega arith
percents-drop (suc n) [] = omega arith
percents-drop (suc n) (c ∷ s) = omega (arith, percents-drop n s)

drop-nil : (n : ℕ) → drop {A = ℕ} n [] ≡ []
drop-nil zero = refl
drop-nil (suc n) = refl

pub drop-drop : (n k : ℕ) (s : Text) → drop (n + k) s ≡ drop k (drop n s)
drop-drop zero k s = ap (λ i. drop i s) (omega arith)
drop-drop (suc n) k [] = drop-nil (suc n + k) ∙ sym (drop-nil k)
drop-drop (suc n) k (c ∷ s) =
    let e : suc n + k ≡ suc (n + k) = omega arith in rw e (drop-drop n k s)

is_quiet-append : (s t : Text) → is_quiet s ≡ true → is_quiet t ≡ true → is_quiet (s ++ t) ≡ true
is_quiet-append [] t p q = q
is_quiet-append (c ∷ s) t p q = let ih = is_quiet-append s t (ground arith) q in ground arith

pub dollars-quiet :
    (word before behind s : Text) → is_quiet s ≡ true → dollars word before behind s ≡ s
unfolding dollars
dollars-quiet word before behind [] q = refl
dollars-quiet word before behind (c ∷ []) q = refl
dollars-quiet word before behind (c ∷ d ∷ s) q =
    let ih = dollars-quiet word before behind (d ∷ s) (ground arith) in
    let e : (c == 36) ≡ false = ground arith in rw (e, dollars) (ap (c ∷◌) ih)

abbrev AllQuiet : List Text → Type 0
AllQuiet ws = All (λ w. is_quiet w ≡ true) ws

split_step :
    (sep c : ℕ) (ws : List Text)
    → not (c == 37 || c == 36) ≡ true
    → AllQuiet ws
    → AllQuiet
        (elim ws [ [] ↦ [] ∷ [] | w ∷ ws' ↦ if c == sep then [] ∷ w ∷ ws' else (c ∷ w) ∷ ws' ])
split_step sep c [] h p = (refl, tt)
split_step sep c (w ∷ ws) h (p, ps) = elim (Bool-cases (c == sep)) [
  | inl e ↦ rw e (refl, (p, ps))
  | inr e ↦ rw e (ground arith, ps)
]

split_at-quiet : (sep : ℕ) (s : Text) → is_quiet s ≡ true → AllQuiet (split_at sep s)
unfolding split_at
split_at-quiet sep [] q = (refl, tt)
split_at-quiet sep (c ∷ s) q =
    split_step sep c (split_at sep s) (ground arith) (split_at-quiet sep s (ground arith))

some_inj {ℓ} : {A : Type ℓ} {a b : A} → some a ≡ some b → b ≡ a
some_inj e = cc

-- Whatever a value is, it is quiet.
abbrev QuietValue : Option Text → Type 0
QuietValue o = (v : Text) → o ≡ some v → is_quiet v ≡ true

quiet_some : (w : Text) → is_quiet w ≡ true → QuietValue (some w)
quiet_some w q v e = let same : v ≡ w = some_inj e in rw same q

quiet_if :
    (b : Bool) (x y : Option Text) → QuietValue x → QuietValue y → QuietValue (if b then x else y)
quiet_if true x y p q = p
quiet_if false x y p q = q

quiet_part : (i : ℕ) (ws : List Text) → AllQuiet ws → QuietValue (part_of i ws)
unfolding part_of
quiet_part i [] q v e = absurd (cc)
quiet_part zero (w ∷ ws) q v e = quiet_some w q.0 v e
quiet_part (suc i) (w ∷ ws) q v e = quiet_part i ws q.1 v e

-- The values are quiet if the fields are that they come from.
pub fields-Quiet :
    (spf : Spf)
    → is_quiet spf.mail_from ≡ true
    → is_quiet spf.domain ≡ true
    → is_quiet spf.ip ≡ true
    → is_quiet spf.helo ≡ true
    → Quiet spf
unfolding value_of
fields-Quiet spf from domain ip helo c =
    let parts = split_at-quiet 64 spf.mail_from from in
    quiet_if (c == 115) _ _ (quiet_some _ from) (
      quiet_if (c == 108) _ _ (quiet_part 0 _ parts) (
        quiet_if (c == 111) _ _ (quiet_part 1 _ parts) (
          quiet_if (c == 100) _ _ (quiet_some _ domain) (
            quiet_if (c == 105) _ _ (quiet_some _ ip) (
              quiet_if (c == 112) _ _ (quiet_some _ refl) (
                quiet_if (c == 118) _ _ (quiet_some _ (version spf.ip_ver))
                  (quiet_if (c == 104) _ _ (quiet_some _ helo) (λ v e. absurd (cc)))))))))
  where
    version :
        (v : Version) → is_quiet (elim v [ ipv4 ↦ codes "in-addr" | ipv6 ↦ codes "ip6" ]) ≡ true
    version ipv4 = refl
    version ipv6 = refl

take-quiet : (n : ℕ) (ws : List Text) → AllQuiet ws → AllQuiet (take n ws)
take-quiet zero ws q = tt
take-quiet (suc n) [] q = tt
take-quiet (suc n) (w ∷ ws) q = (q.0, take-quiet n ws q.1)

reverse_aux-quiet : (ws r : List Text) → AllQuiet ws → AllQuiet r → AllQuiet (reverse_aux ws r)
reverse_aux-quiet [] r q p = p
reverse_aux-quiet (w ∷ ws) r q p = reverse_aux-quiet ws (w ∷ r) q.1 (q.0, p)

join-quiet : (ws : List Text) → AllQuiet ws → is_quiet (join (codes ".") ws) ≡ true
unfolding join
join-quiet [] q = refl
join-quiet (w ∷ []) q = q.0
join-quiet (w ∷ v ∷ ws) q = is_quiet-append w _ q.0 (join-quiet (v ∷ ws) q.1)

if_quiet : (b : Bool) (x y : List Text) → AllQuiet x → AllQuiet y → AllQuiet (if b then x else y)
if_quiet true x y p q = p
if_quiet false x y p q = q

either :
    (b : Bool) (x y : Text)
    → is_quiet x ≡ true
    → is_quiet y ≡ true
    → is_quiet (if b then x else y) ≡ true
either true x y p q = p
either false x y p q = q

pub transform-quiet : (m : Macro) (v : Text) → is_quiet v ≡ true → is_quiet (transform m v) ≡ true
unfolding transform
transform-quiet m v q =
    let reversed = any (λ c. c == 114) m.flag in
    let words = split_at (separator m) v in
    let kept = if is_empty m.digits then words else take (parse_from 0 m.digits) words in
    let whole : AllQuiet words = split_at-quiet (separator m) v q in
    let kept_quiet : AllQuiet kept =
      if_quiet (is_empty m.digits) words _ whole (take-quiet (parse_from 0 m.digits) words whole) in
    either (reversed || not (is_empty m.digits)) _ v
      (join-quiet _ (
        if_quiet reversed (reverse kept) kept (reverse_aux-quiet kept [] kept_quiet tt) kept_quiet))
      q
