-- ===== src/Connection/Messages.antt =====
-- The end of a message: what email/connection.js does with each answer of the `queue` hook.
use companyly_microservices.Base.{
  ℕ, Bool, Option, true, false, ap, ◌∙◌, ◌≡◌, ◌≢◌, refl, some, [], ◌∷◌, ◌++◌, Text, arith,
  if◌then◌else◌, codes,
}
use companyly_microservices.Transaction.State.{Transaction}
use companyly_microservices.Connection.State.{
  Retval, ok, deny, denysoft, denydisconnect, denysoftdisconnect, Msg, text, Config, Connection,
  reset, then_resume, then_disconnect,
}
use companyly_microservices.Connection.Reset.{Env, closing}
use companyly_microservices.Connection.Respond.{code_of, or_default, respond}
use companyly_microservices.Connection.Envelope.{Action, accept, tempfail, reject, incr}
use companyly_microservices.Connection.Data.{has_status}
use companyly_microservices.Connection.Queue.{
  queue_msg, show_msg, with_uuid, finish_msg, finish_connection, queue_answer, queue_respond,
  accept_msg, queue_ok_respond,
}
use companyly_microservices.Connection.Rest.{
  no_data, replies, written, hooks, Rests, IsQuiet, respond-replied, replied, replied-IsReply,
}
use companyly_microservices.Connection.Heard.{replies-written}
use companyly_microservices.Connection.Closures.{
  Shows, at_replied, finish_msg-Shows, finish_connection-Shows, accept_msg-Shows,
}
use companyly_microservices.Connection.Verdicts.{Verdict}

-- What an answer of the `queue` hook other than OK means for the message.
abbrev pub queue_verdict : Retval → Verdict
queue_verdict deny = record { code = 550; action = reject; drop = false }
queue_verdict denydisconnect = record { code = 550; action = reject; drop = true }
queue_verdict denysoft = record { code = 450; action = tempfail; drop = false }
queue_verdict denysoftdisconnect = record { code = 450; action = tempfail; drop = true }
queue_verdict _ = record { code = 451; action = tempfail; drop = false }

append-eq-cons : (s : Text) (b : ℕ) (r : Text) → (a : ℕ) × (u : Text) × (s ++ b ∷ r ≡ a ∷ u)
append-eq-cons [] b r = (b, r, refl)
append-eq-cons (a ∷ s) b r = (a, s ++ b ∷ r, refl)

module _ {M : Type 0} where
  -- One reply; one more message with this outcome, and the outcome noted in the transaction; the
  -- reset of the transaction is under way, after which the connection resumes or ends.
  pub record Finished (v : Verdict) (c d : Connection M) : Type 0 where
    pub answered : replies d.events ≡ v.code ∷ replies c.events
    pub counted : d.msg_count ≡ incr v.action c.msg_count
    pub closed : closing d.state ≡ v.drop
    pub resets :
        hooks d.events ≡ reset (if v.drop then then_disconnect else then_resume) ∷ hooks c.events
    pub noted :
        (u : Transaction M) × (d.transaction ≡ some u)
        × (u.msg_status ≡ some (has_status v.action))
        × (u.resetting ≡ true)

  module _ (env : Env M) (cfg : Config) (again : Connection M → Connection M) (rests : Rests again)
      (c : Connection M) (t : Transaction M) (quiet : IsQuiet c) (at : c.transaction ≡ some t)
      (live : t.resetting ≡ false) where
    -- What a closure shows behind a reply, read as the outcome of the message.
    finished :
        (code : ℕ) (s : Text) (action : Action) (drop : Bool) (input : Option Text)
        (d : Connection M)
        → Shows
            (written (replied env cfg code (text s) c).events)
            (replied env cfg code (text s) c).rcpt_count
            (incr action (replied env cfg code (text s) c).msg_count)
            (reset (if drop then then_disconnect else then_resume)
              ∷ hooks (replied env cfg code (text s) c).events)
            (record t { msg_status = some (has_status action); resetting = true })
            drop
            input
            d
        → Finished (record { code = code; action = action; drop = drop }) c d
    unfolding code_of
    finished code s action drop input d h =
        let r = replied-IsReply env cfg code (text s) c in
        record {
          answered =
              replies-written d.events (replied env cfg code (text s) c).events h.shown_written
              ∙ r.one_reply;
          counted = h.shown_msgs ∙ ap (incr action) r.same_msg_count;
          closed = h.shown_closing;
          resets =
              h.shown_hooks
              ∙ ap (λ hs. reset (if drop then then_disconnect else then_resume) ∷ hs) r.same_hooks;
          noted = (
            record t { msg_status = some (has_status action); resetting = true },
            h.shown_transaction,
            refl,
            refl,
          );
        }

    goes_on :
        (code : ℕ) (s : Text) (action : Action)
        → Finished
            (record { code = code; action = action; drop = false })
            c
            (respond env cfg again code (text s) (finish_msg env cfg again action) c)
    goes_on code s action =
        let (is, open_now, unpaused, empty) = at_replied env cfg c t quiet at code (text s) in
        let h = finish_msg-Shows _ t is open_now env live cfg again action unpaused in
        rw
          (respond-replied env cfg again rests code (text s) (finish_msg env cfg again action) c
            quiet (ap no_data h.shown_input ∙ empty))
          (finished code s action false _ _ h)

    ends :
        (code : ℕ) (s : Text) (action : Action)
        → Finished
            (record { code = code; action = action; drop = true })
            c
            (respond env cfg again code (text s) (finish_connection env cfg again action) c)
    ends code s action =
        let (is, open_now, unpaused, empty) = at_replied env cfg c t quiet at code (text s) in
        let h = finish_connection-Shows _ t is open_now env live cfg again action in
        rw
          (respond-replied env cfg again rests code (text s)
            (finish_connection env cfg again action) c quiet (ap no_data h.shown_input))
          (finished code s action true _ _ h)

    queue_respond_lem :
        (retval : Retval) (msg : Msg)
        → queue_respond env cfg again retval msg c
          ≡ queue_answer env cfg again retval (with_uuid env (queue_msg retval msg) t) c
    unfolding queue_respond
    queue_respond_lem retval msg = ground arith

    queue_answer-Finished :
        (retval : Retval) (a : ℕ) (s : Text)
        → retval ≢ ok
        → Finished (queue_verdict retval) c (queue_answer env cfg again retval (text (a ∷ s)) c)
    unfolding queue_answer or_default
    queue_answer-Finished deny a s n = goes_on 550 _ reject
    queue_answer-Finished denydisconnect a s n = ends 550 _ reject
    queue_answer-Finished denysoft a s n = goes_on 450 _ tempfail
    queue_answer-Finished denysoftdisconnect a s n = ends 450 _ tempfail
    queue_answer-Finished ok a s n = absurd (n refl)
    queue_answer-Finished _ a s n = goes_on 451 _ tempfail

    -- The answer of the queue hook other than OK, for a client that has sent nothing ahead and a
    -- transaction that is not being reset: one reply with the code of the table, whatever code a
    -- DSN object has; one more message is counted with that outcome, which the transaction notes;
    -- and the transaction is being reset, after which the connection resumes or, exactly if the
    -- table says so, ends.
    pub queue_respond-Finished :
        (retval : Retval) (msg : Msg)
        → retval ≢ ok
        → Finished (queue_verdict retval) c (queue_respond env cfg again retval msg c)
    unfolding with_uuid
    queue_respond-Finished retval msg n =
        let (a, s, e) =
          append-eq-cons (show_msg env (queue_msg retval msg)) 32 (40 ∷ (t.uuid ++ codes ")")) in
        rw (queue_respond_lem retval msg, e) (queue_answer-Finished retval a s n)

    -- A message that a queue plugin has taken, with a message in text, for a client that has sent
    -- nothing ahead and a transaction that is not being reset: one reply 250, one more accepted
    -- message, noted in the transaction, and the transaction is being reset, after which the
    -- connection resumes.
    pub queue_ok_respond-Finished :
        (s : Text)
        → Finished
            (record { code = 250; action = accept; drop = false })
            c
            (queue_ok_respond env cfg again (text s) c)
    unfolding queue_ok_respond
    queue_ok_respond-Finished s =
        let (is, open_now, unpaused, empty) = at_replied env cfg c t quiet at 250 (text s) in
        let h = accept_msg-Shows _ t is open_now env live cfg again unpaused in
        rw
          (respond-replied env cfg again rests 250 (text s) (accept_msg env cfg again) c quiet
            (ap no_data h.shown_input ∙ empty))
          (finished 250 s accept false _ _ h)
