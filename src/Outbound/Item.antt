-- ===== src/Outbound/Item.antt =====
-- The operations of a queued message in email/outbound/hmail.js: deferral, bounce and removal.
pub mod State
pub mod Hosts
pub mod Retries
pub mod Attempts
pub mod Tests
use companyly_microservices.Base.{
  ℕ, ◌+◌, ◌-◌, ◌*◌, zero, suc, Bool, true, false, Option, none, some, List, [], ◌∷◌, ◌++◌, Text,
  ◌&&◌, ◌==◌, ltb, if◌then◌else◌, length, get_elem?, codes, is_empty,
}
use companyly_microservices.Outbound.Item.State.{
  Verdict, cont, ok, deny, denysoft, delay, Dsn, sys_unspecified, Event, retry_send, await_ready,
  hook_send_email, hook_deferred, hook_bounce, hook_delivered, note_dsn, fail_all, later, requeue,
  populate_bounce, send_bounce, unlink, next_cb, split_off, Todo, HMailItem, Config,
}

module _ {A B : Type 0} where
  abbrev pub emit : Event B → HMailItem A B → HMailItem A B
  emit e h = record h { events = e ∷ h.events }

  -- The file goes with the last reference. A count below zero, which another call would give, is
  -- kept as zero.
  unfoldable pub discard : HMailItem A B → HMailItem A B
  discard h =
      if h.refcount == 1
      then emit next_cb (emit unlink (record h { refcount = 0 }))
      else record h { refcount = h.refcount - 1 }

  unfoldable pub bounce : Text → HMailItem A B → HMailItem A B
  bounce err h = elim h.todo [ none ↦ emit await_ready h | some t ↦ emit (hook_bounce err) h ]

  unfoldable double_bounce : HMailItem A B → HMailItem A B
  double_bounce h = emit next_cb (emit unlink h)

  -- The recipients are marked as failed for good.
  unfoldable pub convert_temp_failed_to_bounce : Text → HMailItem A B → HMailItem A B
  unfolding bounce
  convert_temp_failed_to_bounce err h = bounce err (emit fail_all h)

  unfoldable bounce_respond : Verdict → HMailItem A B → HMailItem A B
  unfolding discard double_bounce
  bounce_respond cont h = elim h.todo [
    | none ↦ h
    | some t ↦ if is_empty t.mail_from_user then double_bounce h else emit populate_bounce h
  ]
  bounce_respond v h = discard h

  -- The callback of `populate_bounce_message`, by whether it failed, and that of `send_email`.
  unfoldable bounce_populated : Bool → HMailItem A B → HMailItem A B
  unfolding double_bounce
  bounce_populated failed h = if failed then double_bounce h else emit send_bounce h

  unfoldable bounce_sent : Verdict → HMailItem A B → HMailItem A B
  unfolding discard double_bounce
  bounce_sent deny h = double_bounce h
  bounce_sent v h = discard h

  unfoldable pub delivered : HMailItem A B → HMailItem A B
  delivered h = emit hook_delivered h

  unfoldable delivered_respond : HMailItem A B → HMailItem A B
  unfolding discard
  delivered_respond h = discard h

  -- `deferred_respond` up to the renaming of the file; `seconds` is what the plugin gives as `msg`.
  unfoldable pub deferred_respond : Verdict → ℕ → ℕ → HMailItem A B → HMailItem A B
  unfolding discard
  deferred_respond cont seconds wait h = emit (requeue (wait * 1000) h.num_failures) h
  deferred_respond denysoft seconds wait h = emit (requeue (seconds * 1000) h.num_failures) h
  deferred_respond v seconds wait h = discard h

  -- The callback of the renaming.
  unfoldable pub renamed : Option Text → ℕ → HMailItem A B → HMailItem A B
  unfolding bounce
  renamed (some err) ms h = bounce (codes "Error re-queueing email: " ++ err) h
  renamed none ms h = emit (later ms) (emit next_cb h)

  -- All recipients: the item itself, else a new file; the callback takes what comes of it.
  unfoldable pub split_to_new_recipients :
      List A → (HMailItem A B → HMailItem A B) → HMailItem A B → HMailItem A B
  split_to_new_recipients recipients cb h = elim h.todo [
    | none ↦ h
    | some t ↦
        if length recipients == length t.rcpt_to
        then cb (record h { refcount = h.refcount + 1 })
        else emit split_off h
  ]

  -- An error while the new file is written.
  unfoldable split_failed : Text → HMailItem A B → HMailItem A B
  unfolding bounce
  split_failed err h =
      let text = codes "Error splitting to new recipients: " ++ err in
      bounce text (emit (note_dsn (sys_unspecified text)) h)

module _ {A B : Type 0} (cfg : Config B) where
  unfoldable pub send : HMailItem A B → HMailItem A B
  send h =
      if cfg.disabled
      then emit retry_send h
      else elim h.todo [ none ↦ emit await_ready h | some t ↦ emit hook_send_email h ]

  unfoldable pub temp_fail : Text → HMailItem A B → HMailItem A B
  unfolding convert_temp_failed_to_bounce
  temp_fail err h =
      let h' = record h { num_failures = h.num_failures + 1 } in
      let too_many = codes "Too many failures (" ++ (err ++ codes ")") in
      if ltb (length cfg.temp_fail_intervals) h'.num_failures
      then convert_temp_failed_to_bounce too_many h'
      else elim (get_elem? cfg.temp_fail_intervals (h'.num_failures - 1)) [
        | none ↦ h'
        | some wait ↦ emit (hook_deferred wait err) h'
      ]
