-- ===== src/Spf/Exchanges.antt =====
-- `mech_mx` of email/spf.js: how often it calls back, and with what.
use companyly_microservices.Base.{
  ℕ, ◌+◌, ◌-◌, ◌<◌, ◌≡◌, refl, ap, ◌∙◌, Bool, true, false, inl, inr, Option, List, [], ◌∷◌, ◌++◌,
  Text, length, ◌==◌, ◌||◌, arith, if◌then◌else◌, Bool-cases, length-append,
}
use companyly_microservices.Spf.Net.{Answer, found, absent, failed, Net}
use companyly_microservices.Spf.Run.{done}
use companyly_microservices.Spf.Mechanisms.{is_client, any_client, verdict, any_name}
use companyly_microservices.Spf.MxCalls.{MxWait, mx_verdict, mx_finish, mx_reply, mx_replies}
use companyly_microservices.Spf.{Spf}

-- A lookup that fails otherwise than by an absence.
abbrev is_failed : Answer (List Text) → Bool
is_failed failed = true
is_failed _ = false

-- How many lookups fail so, and whether the last reply is no such failure.
abbrev pub failures : List (Answer (List Text)) → ℕ
failures [] = 0
failures (r ∷ rs) = (if is_failed r then 1 else 0) + failures rs

abbrev pub ends_well : List (Answer (List Text)) → ℕ
ends_well [] = 0
ends_well (r ∷ []) = if is_failed r then 0 else 1
ends_well (r ∷ s ∷ rs) = ends_well (s ∷ rs)

module _ (net : Net) (spf : Spf) (q : ℕ) (cidr : Option Text) where
  mx_finish-length :
      (w : MxWait)
      → length (mx_finish net spf q cidr w).calls
        ≡ length w.calls + (if w.pending == 0 then 1 else 0)
  unfolding mx_finish
  mx_finish-length w = elim (Bool-cases (w.pending == 0)) [
    | inl e ↦ rw (e, mx_finish) (omega (arith, length-append w.calls (_ ∷ [])))
    | inr e ↦ rw (e, mx_finish) (omega arith)
  ]

  reply-length :
      (r : Answer (List Text)) (w : MxWait)
      → length (mx_reply net spf q cidr r w).calls
        ≡ length w.calls + (if is_failed r then 1 else (if (w.pending - 1) == 0 then 1 else 0))
  unfolding mx_reply
  reply-length (found l) w = mx_finish-length _
  reply-length absent w = mx_finish-length _
  reply-length failed w = length-append w.calls (_ ∷ [])

  reply-pending :
      (r : Answer (List Text)) (w : MxWait) → (mx_reply net spf q cidr r w).pending ≡ w.pending - 1
  unfolding mx_reply mx_finish
  reply-pending (found l) w = ground arith
  reply-pending absent w = ground arith
  reply-pending failed w = refl

  pub mx_replies-length :
      (rs : List (Answer (List Text))) (w : MxWait)
      → w.pending ≡ length rs
      → length (mx_replies net spf q cidr rs w).calls
        ≡ length w.calls + (failures rs + ends_well rs)
  unfolding mx_replies
  mx_replies-length [] w e = omega arith
  mx_replies-length (r ∷ []) w e =
      let h = reply-length r w in
      elim (Bool-cases (is_failed r)) [
        | inl f ↦ rw f (rw f at h ∙ omega arith)
        | inr f ↦ ground arith
      ]
  mx_replies-length (r ∷ s ∷ rs) w e =
      let h = reply-length r w in
      let p = reply-pending r w in
      let ih = mx_replies-length (s ∷ rs) (mx_reply net spf q cidr r w) (omega arith) in
      ground arith

-- Whether some reply holds an address of which the test holds.
abbrev pub heard : (Text → Bool) → List (Answer (List Text)) → Bool
heard hit [] = false
heard hit (found l ∷ rs) = any_name hit l || heard hit rs
heard hit (_ ∷ rs) = heard hit rs

heard-cons :
    (hit : Text → Bool) (r : Answer (List Text)) (rs : List (Answer (List Text))) (b : Bool)
    → (b || heard hit (r ∷ [])) || heard hit rs ≡ b || heard hit (r ∷ rs)
heard-cons hit (found l) rs b = ground arith
heard-cons hit absent rs b = ground arith
heard-cons hit failed rs b = ground arith

any_name-append :
    (hit : Text → Bool) (l r : List Text) → any_name hit (l ++ r) ≡ any_name hit l || any_name hit r
unfolding any_name
any_name-append hit [] r = refl
any_name-append hit (a ∷ l) r = let ih = any_name-append hit l r in ground arith

module _ (net : Net) (spf : Spf) (q : ℕ) (cidr : Option Text) (hit : Text → Bool)
    (tests : (a : Text) → is_client net spf cidr a ≡ done (hit a)) where
  any_client-any_name : (l : List Text) → any_client net spf cidr l ≡ done (any_name hit l)
  unfolding any_client any_name
  any_client-any_name [] = refl
  any_client-any_name (a ∷ l) =
      rw (tests a, any_client)
        (elim (Bool-cases (hit a)) [ inl e ↦ rw e refl | inr e ↦ rw e (any_client-any_name l) ])

  settled :
      (w : MxWait)
      → w.pending ≡ 0
      → w.calls ≡ []
      → (mx_finish net spf q cidr w).calls ≡ done (verdict q (any_name hit w.addresses)) ∷ []
  unfolding mx_finish
  settled w e c = rw (e, mx_finish) (rw (c, any_client-any_name w.addresses, mx_verdict) refl)

  -- The last reply decides by all the addresses.
  last_reply :
      (r : Answer (List Text)) (w : MxWait)
      → w.pending ≡ 1
      → w.calls ≡ []
      → is_failed r ≡ false
      → (mx_reply net spf q cidr r w).calls
        ≡ done (verdict q (any_name hit w.addresses || heard hit (r ∷ []))) ∷ []
  unfolding mx_reply
  last_reply (found l) w e c f =
      settled (record w { pending = w.pending - 1; addresses = l ++ w.addresses }) (omega arith) c
      ∙ ap (λ b. done (verdict q b) ∷ []) (any_name-append hit l w.addresses ∙ ground arith)
  last_reply absent w e c f =
      settled (record w { pending = w.pending - 1 }) (omega arith) c
      ∙ ap (λ b. done (verdict q b) ∷ []) (ground arith)
  last_reply failed w e c f = absurd (cc)

  -- An earlier reply only adds its addresses.
  early_reply :
      (r : Answer (List Text)) (w : MxWait)
      → (w.pending - 1 == 0) ≡ false
      → is_failed r ≡ false
      → let w' = mx_reply net spf q cidr r w in
        (w'.calls ≡ w.calls)
        × (any_name hit w'.addresses ≡ any_name hit w.addresses || heard hit (r ∷ []))
  unfolding mx_reply mx_finish
  early_reply (found l) w e f =
      rw (e, mx_finish) (refl, any_name-append hit l w.addresses ∙ ground arith)
  early_reply absent w e f = rw (e, mx_finish) (refl, ground arith)
  early_reply failed w e f = absurd (cc)

  replies_settled :
      (r : Answer (List Text)) (rs : List (Answer (List Text))) (w : MxWait)
      → w.pending ≡ length (r ∷ rs)
      → w.calls ≡ []
      → failures (r ∷ rs) ≡ 0
      → (mx_replies net spf q cidr (r ∷ rs) w).calls
        ≡ done (verdict q (any_name hit w.addresses || heard hit (r ∷ rs))) ∷ []
  unfolding mx_replies
  replies_settled r [] w e c f = last_reply r w e c (ground arith)
  replies_settled r (s ∷ rs) w e c f =
      let (c', a') = early_reply r w (ground arith) (ground arith) in
      replies_settled s rs (mx_reply net spf q cidr r w)
        (omega (arith, reply-pending net spf q cidr r w)) (c' ∙ c) (ground arith)
      ∙ ap (λ b. done (verdict q b) ∷ [])
          (ap (◌|| heard hit (s ∷ rs)) a' ∙ heard-cons hit r (s ∷ rs) _)

module _ (net : Net) (spf : Spf) (q : ℕ) (cidr : Option Text) (hit : Text → Bool)
    (tests : (a : Text) → is_client net spf cidr a ≡ done (hit a)) where
  pub all_settled :
      (rs : List (Answer (List Text))) (w : MxWait)
      → 0 < length rs
      → w.pending ≡ length rs
      → w.calls ≡ []
      → failures rs ≡ 0
      → (mx_replies net spf q cidr rs w).calls
        ≡ done (verdict q (any_name hit w.addresses || heard hit rs)) ∷ []
  all_settled [] w more e c f = absurd (omega arith)
  all_settled (r ∷ rs) w more e c f = replies_settled net spf q cidr hit tests r rs w e c f
