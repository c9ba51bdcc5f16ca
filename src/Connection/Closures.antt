-- ===== src/Connection/Closures.antt =====
-- The closures that the answers of email/connection.js give to `respond`, on any connection: what
-- they leave of the counters, of the hooks that are started and of the transaction.
use companyly_microservices.Base.{
  Bool, true, false, ◌≡◌, refl, sym, ap, ◌∙◌, Option, none, some, List, ◌∷◌, ℕ, arith, Text,
}
use companyly_microservices.Transaction.State.{Transaction, Count}
use companyly_microservices.Connection.State.{
  Config, Connection, Msg, Hook, run, reset, Callback, then_disconnect, then_resume,
}
use companyly_microservices.Connection.Reset.{
  Env, closing, is_pause_data, reset_transaction, disconnect_now,
}
use companyly_microservices.Connection.Envelope.{
  Action, accept, incr, drop_first, rcpt_incr, pop_rcpt, refuse_rcpt,
}
use companyly_microservices.Connection.Data.{has_status, count_msg}
use companyly_microservices.Connection.Queue.{finish_msg, finish_connection, accept_msg}
use companyly_microservices.Connection.Rest.{
  no_data, written, hooks, IsQuiet, replied, replied-IsReply, closing-IsReply,
  is_pause_data-IsReply,
}
use companyly_microservices.Connection.Pausing.{
  paused, leaving, reset_transaction-eq-paused, disconnect_now-some,
}

module _ {M : Type 0} where
  -- What is written, the counters, the hooks, the transaction, and whether the connection is closing.
  pub record Shows (rs : List (ℕ × Text)) (rcpts msgs : Count) (hs : List Hook) (t : Transaction M)
      (drop : Bool) (input : Option Text) (d : Connection M) : Type 0 where
    pub shown_written : written d.events ≡ rs
    pub shown_rcpts : d.rcpt_count ≡ rcpts
    pub shown_msgs : d.msg_count ≡ msgs
    pub shown_hooks : hooks d.events ≡ hs
    pub shown_transaction : d.transaction ≡ some t
    pub shown_closing : closing d.state ≡ drop
    pub shown_input : d.current_data ≡ input

  shown :
      (d : Connection M) (t : Transaction M)
      → d.transaction ≡ some t
      → Shows
          (written d.events)
          d.rcpt_count
          d.msg_count
          (hooks d.events)
          t
          (closing d.state)
          d.current_data
          d
  shown d t at = record {
    shown_written = refl;
    shown_rcpts = refl;
    shown_msgs = refl;
    shown_hooks = refl;
    shown_transaction = at;
    shown_closing = refl;
    shown_input = refl;
  }

  abbrev left : Env M → Transaction M → Connection M → Connection M
  left env t c = record (leaving env c) {
    transaction = some (record t { resetting = true });
    events = run (reset then_disconnect) ∷ c.events;
  }

  module _ (env : Env M) where
    reset_transaction-Shows :
        (cb : Callback) (c : Connection M) (t : Transaction M)
        → c.transaction ≡ some t
        → t.resetting ≡ false
        → closing c.state ≡ false
        → is_pause_data c.state ≡ false
        → Shows
            (written c.events)
            c.rcpt_count
            c.msg_count
            (reset cb ∷ hooks c.events)
            (record t { resetting = true })
            false
            c.current_data
            (reset_transaction env cb c)
    reset_transaction-Shows cb c t at live open_now unpaused =
        rw (reset_transaction-eq-paused env cb c t at live open_now unpaused)
          (shown (paused env cb t c) _ refl)

    disconnect_now-Shows :
        (c : Connection M) (t : Transaction M)
        → closing c.state ≡ false
        → c.transaction ≡ some t
        → t.resetting ≡ false
        → Shows
            (written c.events)
            c.rcpt_count
            c.msg_count
            (reset then_disconnect ∷ hooks c.events)
            (record t { resetting = true })
            true
            none
            (disconnect_now env c)
    disconnect_now-Shows c t open_now at live =
        rw (disconnect_now-some env c t open_now at live) (shown (left env t c) _ refl)

  -- The connection behind `count_msg` and behind `rcpt_incr`.
  abbrev pub noted : Action → Transaction M → Connection M → Connection M
  noted action t c = record c {
    msg_count = incr action c.msg_count;
    transaction = some (record t { msg_status = some (has_status action) });
  }

  abbrev tallied : Action → Transaction M → Connection M → Connection M
  tallied action t c = record c {
    rcpt_count = incr action c.rcpt_count;
    transaction = some (record t { rcpt_count = incr action t.rcpt_count });
  }

  module _ (c : Connection M) (t : Transaction M) (at : c.transaction ≡ some t)
      (open_now : closing c.state ≡ false) where
    count_msg-some :
        (action : Action) (after : Connection M → Connection M)
        → count_msg action after c ≡ after (noted action t c)
    unfolding count_msg
    count_msg-some action after = ground arith

    rcpt_incr-some : (action : Action) → rcpt_incr action c ≡ tallied action t c
    unfolding rcpt_incr
    rcpt_incr-some action = ground arith

    pub rcpt_incr-Shows :
        (action : Action)
        → Shows
            (written c.events)
            (incr action c.rcpt_count)
            c.msg_count
            (hooks c.events)
            (record t { rcpt_count = incr action t.rcpt_count })
            false
            c.current_data
            (rcpt_incr action c)
    rcpt_incr-Shows action =
        rw (sym open_now, rcpt_incr-some action) (shown (tallied action t c) _ refl)

    module _ (env : Env M) (live : t.resetting ≡ false) where
      -- A message that ends: the transaction is being reset, and the connection goes on or ends.
      pub finish_connection-Shows :
          (cfg : Config) (again : Connection M → Connection M) (action : Action)
          → Shows
              (written c.events)
              c.rcpt_count
              (incr action c.msg_count)
              (reset then_disconnect ∷ hooks c.events)
              (record t { msg_status = some (has_status action); resetting = true })
              true
              none
              (finish_connection env cfg again action c)
      finish_connection-Shows cfg again action =
          rw (count_msg-some action (disconnect_now env))
            (disconnect_now-Shows env (noted action t c) _ open_now refl live)

      pub finish_msg-Shows :
          (cfg : Config) (again : Connection M → Connection M) (action : Action)
          → is_pause_data c.state ≡ false
          → Shows
              (written c.events)
              c.rcpt_count
              (incr action c.msg_count)
              (reset then_resume ∷ hooks c.events)
              (record t { msg_status = some (has_status action); resetting = true })
              false
              c.current_data
              (finish_msg env cfg again action c)
      finish_msg-Shows cfg again action unpaused =
          rw (count_msg-some action (reset_transaction env then_resume)) (
            reset_transaction-Shows env then_resume (noted action t c) _ refl live open_now
              unpaused)

      pub accept_msg-Shows :
          (cfg : Config) (again : Connection M → Connection M)
          → is_pause_data c.state ≡ false
          → Shows
              (written c.events)
              c.rcpt_count
              (incr accept c.msg_count)
              (reset then_resume ∷ hooks c.events)
              (record t { msg_status = some (has_status accept); resetting = true })
              false
              c.current_data
              (accept_msg env cfg again c)
      unfolding accept_msg
      accept_msg-Shows cfg again unpaused =
          ground (arith, finish_msg-Shows cfg again accept unpaused)

      -- A recipient that is refused together with the connection.
      pub end_rcpt-Shows :
          (action : Action)
          → Shows
              (written c.events)
              (incr action c.rcpt_count)
              c.msg_count
              (reset then_disconnect ∷ hooks c.events)
              (record t { rcpt_count = incr action t.rcpt_count; resetting = true })
              true
              none
              (disconnect_now env (rcpt_incr action c))
      end_rcpt-Shows action =
          rw (rcpt_incr-some action)
            (disconnect_now-Shows env (tallied action t c) _ open_now refl live)

    -- A recipient that is refused on a connection that goes on.
    pub refuse_rcpt-Shows :
        (rcpt : Text) (rest : List Text) (action : Action)
        → t.rcpt_to ≡ rcpt ∷ rest
        → Shows
            (written c.events)
            (incr action c.rcpt_count)
            c.msg_count
            (hooks c.events)
            (record t { rcpt_count = incr action t.rcpt_count; rcpt_to = rest })
            false
            c.current_data
            (refuse_rcpt action c)
    unfolding pop_rcpt
    refuse_rcpt-Shows rcpt rest action last =
        rw (sym open_now, rcpt_incr-some action)
          (shown (pop_rcpt (tallied action t c)) _ (
            ap
              (λ l.
                some (record t { rcpt_count = incr action t.rcpt_count; rcpt_to = drop_first l }))
              last))

module _ {M : Type 0} (env : Env M) (cfg : Config) (c : Connection M) (t : Transaction M)
    (quiet : IsQuiet c) (at : c.transaction ≡ some t) where
  -- The connection on which the closure of a reply starts.
  pub at_replied :
      (code : ℕ) (msg : Msg)
      → ((replied env cfg code msg c).transaction ≡ some t)
        × (closing (replied env cfg code msg c).state ≡ false)
        × (is_pause_data (replied env cfg code msg c).state ≡ false)
        × (no_data (replied env cfg code msg c).current_data ≡ true)
  at_replied code msg =
      let r = replied-IsReply env cfg code msg c in
      (
        r.same_transaction ∙ at,
        closing-IsReply r,
        is_pause_data-IsReply r,
        ap no_data r.same_data ∙ quiet.2,
      )
