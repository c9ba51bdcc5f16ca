-- ===== src/Outbound/Item/Retries.antt =====
-- How often email/outbound/hmail.js tries a message again, and when its file goes.
use companyly_microservices.Base.{
  ℕ, ◌+◌, ◌-◌, ◌*◌, ◌≤◌, ◌<◌, zero, suc, ◌≡◌, refl, sym, ap, ◌∙◌, none, some, List, [], ◌∷◌, ◌++◌,
  Text, length, get_elem?, codes, arith, get_elem?-length_append, length-append,
}
use mathlib.Core.List.{append_assoc, append-nil}
use companyly_microservices.Outbound.Item.State.{
  cont, Event, later, next_cb, unlink, requeue, hook_deferred, hook_bounce, fail_all, Todo,
  HMailItem, Config,
}
use companyly_microservices.Outbound.Item.{
  discard, bounce, convert_temp_failed_to_bounce, deferred_respond, renamed, temp_fail,
}

module _ {B : Type 0} where
  -- The delays after which the message is tried again, the latest first.
  abbrev pub waits : List (Event B) → List ℕ
  waits [] = []
  waits (later ms ∷ es) = ms ∷ waits es
  waits (e ∷ es) = waits es

-- The intervals in milliseconds, in front of others.
abbrev onto : List ℕ → List ℕ → List ℕ
onto [] acc = acc
onto (w ∷ ws) acc = onto ws (w * 1000 ∷ acc)

module _ {A B : Type 0} where
  -- What follows an event where no plugin objects to a deferral and the file can be renamed.
  unfoldable pub follow : Event B → HMailItem A B → HMailItem A B
  follow (hook_deferred wait err) h = deferred_respond cont 0 wait h
  follow (requeue ms failures) h = renamed none ms h
  follow e h = h

  unfoldable pub follow_latest : HMailItem A B → HMailItem A B
  unfolding follow
  follow_latest h = elim h.events [ [] ↦ h | e ∷ es ↦ follow e h ]

module _ {A B : Type 0} (cfg : Config B) where
  -- A failed delivery, and the two callbacks that may follow it.
  unfoldable pub failure : Text → HMailItem A B → HMailItem A B
  unfolding follow_latest
  failure err h = follow_latest (follow_latest (temp_fail cfg err h))

  unfoldable pub failures : List Text → HMailItem A B → HMailItem A B
  unfolding failure
  failures [] h = h
  failures (err ∷ errs) h = failures errs (failure err h)

  temp_fail-defers :
      (err : Text) (h : HMailItem A B) (w : ℕ)
      → h.num_failures < length cfg.temp_fail_intervals
      → get_elem? cfg.temp_fail_intervals h.num_failures ≡ some w
      → temp_fail cfg err h
        ≡ record h { num_failures = h.num_failures + 1; events = hook_deferred w err ∷ h.events }
  unfolding temp_fail
  temp_fail-defers err h w few at =
      let same : h.num_failures + 1 - 1 ≡ h.num_failures = omega arith in
      rw (same, temp_fail) rw at (ground arith)

  temp_fail-bounces :
      (err : Text) (h : HMailItem A B) (t : Todo A)
      → length cfg.temp_fail_intervals ≤ h.num_failures
      → h.todo ≡ some t
      → (temp_fail cfg err h).events
        ≡ hook_bounce (codes "Too many failures (" ++ (err ++ codes ")")) ∷ fail_all ∷ h.events
  unfolding temp_fail convert_temp_failed_to_bounce bounce
  temp_fail-bounces err h t many at = ground arith

  failure-defers :
      (err : Text) (h : HMailItem A B) (w : ℕ)
      → h.num_failures < length cfg.temp_fail_intervals
      → get_elem? cfg.temp_fail_intervals h.num_failures ≡ some w
      → failure err h ≡ record h {
        num_failures = h.num_failures + 1;
        events =
            later (w * 1000)
            ∷ next_cb
            ∷ requeue (w * 1000) (h.num_failures + 1)
            ∷ hook_deferred w err
            ∷ h.events;
      }
  unfolding failure deferred_respond renamed
  failure-defers err h w few at = rw (temp_fail-defers err h w few at, failure) refl

  failures_from :
      (done ws : List ℕ) (errs : List Text) (h : HMailItem A B)
      → cfg.temp_fail_intervals ≡ done ++ ws
      → h.num_failures ≡ length done
      → length errs ≡ length ws
      → ((failures errs h).num_failures ≡ length cfg.temp_fail_intervals)
        × (waits (failures errs h).events ≡ onto ws (waits h.events))
        × ((failures errs h).todo ≡ h.todo)
  unfolding failures
  failures_from done [] [] h all_of tried same =
      (tried ∙ sym (ap length (all_of ∙ append-nil done)), refl, refl)
  failures_from done [] (err ∷ errs) h all_of tried same = absurd (omega (arith, same))
  failures_from done (w ∷ ws) [] h all_of tried same = absurd (omega (arith, same))
  failures_from done (w ∷ ws) (err ∷ errs) h all_of tried same =
      let long = length-append done (w ∷ ws) in
      let size = ap length all_of in
      rw
        (
          failure-defers err h w (omega (arith, tried, long, size))
              (rw tried (rw all_of (get_elem?-length_append done ws w))),
          failures,
        )
        (failures_from (done ++ w ∷ []) ws errs _ (all_of ∙ sym (append_assoc done (w ∷ []) ws))
          (omega (arith, tried, length-append done (w ∷ []))) (omega (arith, same)))

  -- A message that has not failed yet fails as many times as there are intervals, with whatever
  -- errors, no plugin objecting to a deferral and the file being renamed each time: it is put on the
  -- queue of delayed items after each failure, with the configured intervals in their order. Its next
  -- failure bounces it for all recipients.
  pub failures_bounce :
      (h : HMailItem A B) (t : Todo A) (errs : List Text) (err : Text)
      → h.num_failures ≡ 0
      → h.todo ≡ some t
      → length errs ≡ length cfg.temp_fail_intervals
      → (waits (failures errs h).events ≡ onto cfg.temp_fail_intervals (waits h.events))
        × ((temp_fail cfg err (failures errs h)).events
            ≡ hook_bounce (codes "Too many failures (" ++ (err ++ codes ")"))
              ∷ fail_all
              ∷ (failures errs h).events)
  failures_bounce h t errs err new at as_many =
      let (tried, delays, same) =
        failures_from [] cfg.temp_fail_intervals errs h refl new as_many in
      (delays, temp_fail-bounces err (failures errs h) t (omega (arith, tried)) (same ∙ at))

module _ {A B : Type 0} where
  unfoldable discards : ℕ → HMailItem A B → HMailItem A B
  discards zero h = h
  discards (suc n) h = discards n (discard h)

  discard-counts :
      (k : ℕ) (h : HMailItem A B)
      → h.refcount ≡ suc (suc k)
      → discard h ≡ record h { refcount = suc k }
  unfolding discard
  discard-counts k h count = ground arith

  discards_before :
      (n m : ℕ) (h : HMailItem A B)
      → h.refcount ≡ n + suc m
      → discards n h ≡ record h { refcount = suc m }
  unfolding discards discard
  discards_before zero m h count = ground arith
  discards_before (suc n) m h count =
      rw (discard-counts (n + m) h (omega (arith, count)), discards)
        (discards_before n m (record h { refcount = suc (n + m) }) (omega arith))

  -- An item that is referred to by some deliveries is removed by the last of them that lets it go,
  -- and not before.
  discards_last :
      (n : ℕ) (h : HMailItem A B)
      → h.refcount ≡ n + 1
      → ((discards n h).events ≡ h.events)
        × ((discard (discards n h)).events ≡ next_cb ∷ unlink ∷ h.events)
  unfolding discard
  discards_last n h count = rw (discards_before n 0 h (omega (arith, count))) (refl, refl)
