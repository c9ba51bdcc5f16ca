-- ===== src/Outbound/TimerQueue/Order.antt =====
-- What `add` and `discard` of email/outbound/timer_queue.js do to the order of the queue.
use mathlib.Core.List.{Perm}
use mathlib.Core.List.Perm
use companyly_microservices.Base.{
  ℕ, ◌+◌, ◌≤◌, String, true, false, ◌≡◌, ◌≢◌, refl, ap, inl, inr, some, List, [], ◌∷◌, ◌++◌, arith,
  All, ltb, eq_iff, if◌then◌else◌, Bool-cases,
}
use companyly_microservices.Outbound.TimerQueue.{Timer, cancel, at_end, insert_before, add, discard}

module _ {ℓ} {A : Type ℓ} where
  -- Earlier timers stand first.
  abbrev pub IsSorted : List (Timer A) → Type 0
  IsSorted [] = Unit
  IsSorted (t ∷ q) = All (λ u. t.fire_time ≤ u.fire_time) q × IsSorted q

  -- The reference: behind every timer that fires no later.
  unfoldable pub place : Timer A → List (Timer A) → List (Timer A)
  place t [] = t ∷ []
  place t (u ∷ q) = if ltb t.fire_time u.fire_time then t ∷ u ∷ q else u ∷ place t q

  insert_before-eq-place :
      (t : Timer A) (q : List (Timer A))
      → at_end t.fire_time q ≡ false
      → insert_before t q ≡ some (place t q)
  unfolding at_end insert_before place
  insert_before-eq-place t [] h = cc
  insert_before-eq-place t (u ∷ []) h = ground arith
  insert_before-eq-place t (u ∷ v ∷ q) h = ground (arith, insert_before-eq-place t (v ∷ q))

  -- In a sorted queue the test of the last timer holds for the first one too.
  first-le-of_at_end :
      (ft : ℕ) (u : Timer A) (q : List (Timer A))
      → IsSorted (u ∷ q)
      → at_end ft (u ∷ q) ≡ true
      → u.fire_time ≤ ft
  unfolding at_end
  first-le-of_at_end ft u [] s h = ground arith
  first-le-of_at_end ft u (v ∷ q) s h = omega (arith, first-le-of_at_end ft v q s.1 h, s.0.0)

  place-append :
      (t : Timer A) (q : List (Timer A))
      → IsSorted q
      → at_end t.fire_time q ≡ true
      → q ++ t ∷ [] ≡ place t q
  unfolding at_end place
  place-append t [] s h = refl
  place-append t (u ∷ []) s h = ground arith
  place-append t (u ∷ v ∷ q) s h =
      ground (arith, first-le-of_at_end t.fire_time u (v ∷ q) s h, place-append t (v ∷ q) s.1 h)

  place-perm : (t : Timer A) (q : List (Timer A)) → Perm (place t q) (t ∷ q)
  unfolding place
  place-perm t [] = Perm.refl _
  place-perm t (u ∷ q) = elim (Bool-cases (ltb t.fire_time u.fire_time)) [
    | inl e ↦ rw e (Perm.refl _)
    | inr e ↦ rw e (Perm.trans (Perm.cons u (place-perm t q)) (Perm.swap t u q))
  ]

  All-place :
      (n : ℕ) (t : Timer A) (q : List (Timer A))
      → n ≤ t.fire_time
      → All (λ u. n ≤ u.fire_time) q
      → All (λ u. n ≤ u.fire_time) (place t q)
  unfolding place
  All-place n t [] h a = (h, tt)
  All-place n t (u ∷ q) h a = ground (arith, All-place n t q h a.1)

  All-le_trans :
      (m n : ℕ) (q : List (Timer A))
      → m ≤ n
      → All (λ u. n ≤ u.fire_time) q
      → All (λ u. m ≤ u.fire_time) q
  All-le_trans m n [] h a = tt
  All-le_trans m n (u ∷ q) h a = (omega (arith, a.0), All-le_trans m n q h a.1)

  place-IsSorted : (t : Timer A) (q : List (Timer A)) → IsSorted q → IsSorted (place t q)
  unfolding place
  place-IsSorted t [] s = (tt, tt)
  place-IsSorted t (u ∷ q) s = elim (Bool-cases (ltb t.fire_time u.fire_time)) [
    | inl e ↦ rw e (((ground arith), All-le_trans t.fire_time u.fire_time q (ground arith) s.0), s)
    | inr e ↦ rw e (All-place u.fire_time t q (ground arith) s.0, place-IsSorted t q s.1)
  ]

module _ {ℓ} {A : Type ℓ} (now : ℕ) (id : String) (ms : ℕ) (cb : A) where
  abbrev pub timer : Timer A
  timer = record { id = id; fire_time = now + ms; cb = some cb }

  -- `add` never reaches its `throw`, sorted or not.
  pub add_total : (q : List (Timer A)) → (r : List (Timer A)) × (add now id ms cb q ≡ some r)
  unfolding add
  add_total q = elim (Bool-cases (at_end (now + ms) q)) [
    | inl e ↦ (q ++ timer ∷ [], rw e)
    | inr e ↦ (place timer q, rw e (insert_before-eq-place timer q e))
  ]

  -- On a sorted queue `add` is the insertion behind every timer that fires no later.
  add-eq-place : (q : List (Timer A)) → IsSorted q → add now id ms cb q ≡ some (place timer q)
  unfolding add
  add-eq-place q s = elim (Bool-cases (at_end (now + ms) q)) [
    | inl e ↦ rw e (ap some (place-append timer q s e))
    | inr e ↦ rw e (insert_before-eq-place timer q e)
  ]

  -- `add` on a sorted queue succeeds, keeps the queue sorted, and its result holds exactly the old
  -- timers and the new one.
  pub add-IsSorted :
      (q : List (Timer A))
      → IsSorted q
      → (r : List (Timer A)) × (add now id ms cb q ≡ some r) × IsSorted r × Perm r (timer ∷ q)
  add-IsSorted q s = (place timer q, add-eq-place q s, place-IsSorted timer q s, place-perm timer q)

  discard-place :
      (q : List (Timer A))
      → All (λ u. u.id ≢ id) q
      → discard id (place timer q) ≡ some (cancel timer, q)
  unfolding discard place
  discard-place [] f = ground (arith, eq_iff id id)
  discard-place (u ∷ q) f = ground (arith, eq_iff id id, eq_iff u.id id, discard-place q f.1)

  -- A timer added to a sorted queue under an id that no queued timer has is the one that `discard`
  -- takes out, cancelled, and the queue is then what it was before.
  discard-add :
      (q : List (Timer A))
      → IsSorted q
      → All (λ u. u.id ≢ id) q
      → (r : List (Timer A)) × (add now id ms cb q ≡ some r)
        × (discard id r ≡ some (cancel timer, q))
  discard-add q s f = (place timer q, add-eq-place q s, discard-place q f)
