-- ===== src/Outbound/TimerQueue.antt =====
-- email/outbound/timer_queue.js: the queue of delayed deliveries. A timer's callback is a value of
-- any type `A`; the clock is an argument; what `fire` and `drain` call is returned in order. An
-- exception is `none`.
pub mod Order
pub mod Fire
pub mod Tests
use companyly_microservices.Base.{
  ℕ, zero, suc, ◌+◌, String, Bool, ◌||◌, true, false, Option, none, some, List, [], ◌∷◌, ◌++◌,
  length, leb, ltb, str_eq, if◌then◌else◌,
}

pub record Timer {ℓ} (A : Type ℓ) : Type ℓ where
  pub id : String
  pub fire_time : ℕ
  pub cb : Option A

module _ {ℓ} {A : Type ℓ} where
  unfoldable pub cancel : Timer A → Timer A
  cancel t = record t { cb = none }

  -- The test of `add`: an empty queue, or a last timer that fires no later.
  unfoldable pub at_end : ℕ → List (Timer A) → Bool
  at_end fire_time [] = true
  at_end fire_time (t ∷ []) = leb t.fire_time fire_time
  at_end fire_time (t ∷ u ∷ q) = at_end fire_time (u ∷ q)

  -- The loop of `add`: before the first timer that fires later.
  unfoldable pub insert_before : Timer A → List (Timer A) → Option (List (Timer A))
  insert_before t [] = none
  insert_before t (u ∷ q) =
      if ltb t.fire_time u.fire_time
      then some (t ∷ u ∷ q)
      else elim (insert_before t q) [ none ↦ none | some r ↦ some (u ∷ r) ]

  unfoldable pub add : ℕ → String → ℕ → A → List (Timer A) → Option (List (Timer A))
  add now id ms cb q =
      let timer : Timer A = record { id = id; fire_time = now + ms; cb = some cb } in
      if at_end timer.fire_time q then some (q ++ timer ∷ []) else insert_before timer q

  -- The removed timer, cancelled, and what is left.
  unfoldable pub discard : String → List (Timer A) → Option (Timer A × List (Timer A))
  unfolding cancel
  discard id [] = none
  discard id (t ∷ q) =
      if str_eq t.id id
      then some (cancel t, q)
      else elim (discard id q) [ none ↦ none | some (found, rest) ↦ some (found, t ∷ rest) ]

  -- `if (to_run.cb) to_run.cb()`
  abbrev call : Timer A → List A → List A
  call t done = elim t.cb [ none ↦ done | some f ↦ f ∷ done ]

  -- The calls made, in order, and the queue that is left.
  unfoldable pub fire : ℕ → List (Timer A) → List A × List (Timer A)
  fire now [] = ([], [])
  fire now (t ∷ q) =
      let later = fire now q in
      if leb t.fire_time now then (call t later.0, later.1) else ([], t ∷ q)

  unfoldable pub drain : List (Timer A) → List A
  drain [] = []
  drain (t ∷ q) = call t (drain q)
