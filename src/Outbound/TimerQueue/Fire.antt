-- ===== src/Outbound/TimerQueue/Fire.antt =====
-- What `fire` and `drain` of email/outbound/timer_queue.js call, and what they leave queued.
use companyly_microservices.Base.{
  ℕ, ◌≤◌, Bool, false, ◌≡◌, refl, List, [], ◌∷◌, ◌++◌, arith, All, ltb, leb, if◌then◌else◌,
}
use companyly_microservices.Outbound.TimerQueue.{Timer, call, fire, drain}
use companyly_microservices.Outbound.TimerQueue.Order.{IsSorted}

module _ {ℓ} {A : Type ℓ} where
  -- The timers that pass a test, in order.
  abbrev pub select : (Timer A → Bool) → List (Timer A) → List (Timer A)
  select p [] = []
  select p (t ∷ q) = if p t then t ∷ select p q else select p q

  -- The callbacks of timers that were not cancelled, in order.
  abbrev pub callbacks : List (Timer A) → List A
  callbacks [] = []
  callbacks (t ∷ q) = call t (callbacks q)

  abbrev is_due : ℕ → Timer A → Bool
  is_due now t = leb t.fire_time now

  abbrev is_later : ℕ → Timer A → Bool
  is_later now t = ltb now t.fire_time

  none_due :
      (now : ℕ) (u : Timer A) (q : List (Timer A))
      → is_due now u ≡ false
      → All (λ t. u.fire_time ≤ t.fire_time) q
      → (select (is_due now) q ≡ []) × (select (is_later now) q ≡ q)
  none_due now u [] h a = (refl, refl)
  none_due now u (t ∷ q) h a = ground (arith, none_due now u q h a.1)

  -- On a sorted queue `fire` calls, in order, the callbacks of exactly the timers that are due and
  -- not cancelled, and leaves exactly the later timers, in order.
  pub fire-select :
      (now : ℕ) (q : List (Timer A))
      → IsSorted q
      → fire now q ≡ (callbacks (select (is_due now) q), select (is_later now) q)
  unfolding fire
  fire-select now [] s = refl
  fire-select now (t ∷ q) s = ground (arith, fire-select now q s.1, none_due now t q)

  drain-eq-callbacks : (q : List (Timer A)) → drain q ≡ callbacks q
  unfolding drain
  drain-eq-callbacks [] = refl
  drain-eq-callbacks (t ∷ q) = ground (arith, drain-eq-callbacks q)

  -- Nothing is lost or called twice: what `fire` calls, and then `drain` on the queue that it
  -- leaves, is what `drain` calls on the whole queue, in the same order.
  drain-fire : (now : ℕ) (q : List (Timer A)) → (fire now q).0 ++ drain (fire now q).1 ≡ drain q
  unfolding fire drain
  drain-fire now [] = refl
  drain-fire now (t ∷ q) = ground (arith, drain-fire now q)
