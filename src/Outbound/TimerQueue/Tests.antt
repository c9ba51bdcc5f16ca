-- ===== src/Outbound/TimerQueue/Tests.antt =====
-- The timer queue of email/outbound/timer_queue.js at concrete inputs.
use mathlib.Core.List.{Perm}
use companyly_microservices.Base.{ℕ, ◌≡◌, none, some, List, [], ◌∷◌, arith}
use companyly_microservices.Outbound.TimerQueue.{Timer, add, fire}
use companyly_microservices.Outbound.TimerQueue.Order.{IsSorted, timer, add-IsSorted}
use companyly_microservices.Outbound.TimerQueue.Fire.{fire-select}

-- Two timers, the second cancelled.
abbrev queued : List (Timer ℕ)
queued =
    record { id = "a"; fire_time = 10; cb = some 1 }
    ∷ record { id = "b"; fire_time = 20; cb = none }
    ∷ []

queued-IsSorted : IsSorted queued
queued-IsSorted = omega arith

add-IsSorted_example :
    (r : List (Timer ℕ)) × (add 5 "c" 10 7 queued ≡ some r)
    × IsSorted r
    × Perm r (timer 5 "c" 10 7 ∷ queued)
add-IsSorted_example = add-IsSorted 5 "c" 10 7 queued queued-IsSorted

fire-select_example : fire 15 queued ≡ (1 ∷ [], record { id = "b"; fire_time = 20; cb = none } ∷ [])
fire-select_example = fire-select 15 queued queued-IsSorted
