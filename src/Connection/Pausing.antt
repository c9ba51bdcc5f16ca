-- ===== src/Connection/Pausing.antt =====
-- Pausing and resuming around the hook that ends a transaction, in email/connection.js, and what a
-- connection that is being closed still does.
use companyly_microservices.Base.{true, false, ◌≡◌, refl, ap, ◌∙◌, none, some, ◌∷◌, arith}
use companyly_microservices.Transaction.State.{Transaction}
use companyly_microservices.Connection.State.{
  pause_data, run, pause_client, resume_client, process_later, Connection, disconnect, reset,
  disconnecting, Callback, nothing, then_disconnect,
}
use companyly_microservices.Connection.Reset.{
  Env, closing, is_pause_data, run_hooks, pause, resume, call_back, reset_transaction,
  reset_transaction_respond, disconnect_now,
}
use companyly_microservices.Connection.Rest.{hooks}

module _ {M : Type 0} (env : Env M) where
  -- The connection while the reset hook runs.
  abbrev pub paused : Callback → Transaction M → Connection M → Connection M
  paused cb t c = record c {
    transaction = some (record t { resetting = true });
    prev_state = some c.state;
    state = pause_data;
    events = run (reset cb) ∷ pause_client ∷ c.events;
  }

  pub reset_transaction-eq-paused :
      (cb : Callback) (c : Connection M) (t : Transaction M)
      → c.transaction ≡ some t
      → t.resetting ≡ false
      → closing c.state ≡ false
      → is_pause_data c.state ≡ false
      → reset_transaction env cb c ≡ paused cb t c
  unfolding reset_transaction pause run_hooks
  reset_transaction-eq-paused cb c t at live open_now unpaused = ground arith

  -- The connection after the answer of the reset hook.
  abbrev resumed : Transaction M → Connection M → Connection M
  resumed t c = record c {
    transaction = none;
    prev_state = none;
    events = process_later ∷ resume_client ∷ run (reset nothing) ∷ pause_client ∷ c.events;
  }

  resumed_lem :
      (c : Connection M) (t : Transaction M)
      → closing c.state ≡ false
      → reset_transaction_respond env nothing (paused nothing t c) ≡ resumed t c
  unfolding reset_transaction_respond resume call_back
  resumed_lem c t h = refl

  -- Ending a transaction leaves the connection as it was, but for the transaction: on an open
  -- connection that is not paused and has a transaction that is not being reset,
  -- `reset_transaction` pauses the connection and starts exactly the reset hook; the hook's answer
  -- drops the transaction, puts every other field back but for the saved state, which is gone, and
  -- has the buffered input processed later.
  reset_transaction_resumes :
      (c : Connection M) (t : Transaction M)
      → c.transaction ≡ some t
      → t.resetting ≡ false
      → closing c.state ≡ false
      → is_pause_data c.state ≡ false
      → ((reset_transaction env nothing c).state ≡ pause_data)
        × (hooks (reset_transaction env nothing c).events ≡ reset nothing ∷ hooks c.events)
        × (reset_transaction_respond env nothing (reset_transaction env nothing c) ≡ resumed t c)
  reset_transaction_resumes c t at live open_now unpaused =
      let e = reset_transaction-eq-paused nothing c t at live open_now unpaused in
      (
        ap (λ d. d.state) e,
        ap (λ d. hooks d.events) e,
        ap (reset_transaction_respond env nothing) e ∙ resumed_lem c t open_now,
      )

  -- The connection that is being closed, while the reset hook runs and behind its answer.
  abbrev pub leaving : Connection M → Connection M
  leaving c = record c { state = disconnecting; current_data = none }

  pub disconnect_now-some :
      (c : Connection M) (t : Transaction M)
      → closing c.state ≡ false
      → c.transaction ≡ some t
      → t.resetting ≡ false
      → disconnect_now env c ≡ record (leaving c) {
        transaction = some (record t { resetting = true });
        events = run (reset then_disconnect) ∷ c.events;
      }
  unfolding disconnect_now reset_transaction run_hooks call_back pause
  disconnect_now-some c t h at live = ground arith

  left_lem :
      (c : Connection M) (t : Transaction M)
      → reset_transaction_respond env then_disconnect (record (leaving c) {
        transaction = some t;
        events = run (reset then_disconnect) ∷ c.events;
      })
        ≡ record (leaving c) {
          transaction = none;
          events = run disconnect ∷ run (reset then_disconnect) ∷ c.events;
        }
  unfolding reset_transaction_respond resume call_back run_hooks
  left_lem c t = refl

  -- Closing an open connection that has a transaction which is not being reset: the buffered input
  -- is dropped, nothing is sent and the reset hook is started; its answer drops the transaction and
  -- starts the disconnect hook. Nothing else changes.
  disconnect_now_runs :
      (c : Connection M) (t : Transaction M)
      → closing c.state ≡ false
      → c.transaction ≡ some t
      → t.resetting ≡ false
      → (disconnect_now env c ≡ record (leaving c) {
        transaction = some (record t { resetting = true });
        events = run (reset then_disconnect) ∷ c.events;
      })
        × (reset_transaction_respond env then_disconnect (disconnect_now env c)
            ≡ record (leaving c) {
              transaction = none;
              events = run disconnect ∷ run (reset then_disconnect) ∷ c.events;
            })
  disconnect_now_runs c t h at live =
      let e = disconnect_now-some c t h at live in
      (
        e,
        ap (reset_transaction_respond env then_disconnect) e
            ∙ left_lem c (record t { resetting = true }),
      )
