-- ===== src/Connection/Recipients.antt =====
-- The recipients of a message: what email/connection.js does with each answer of the RCPT hooks.
use companyly_microservices.Base.{
  ℕ, Bool, Option, ap, ◌∙◌, true, false, ◌≡◌, ◌≢◌, refl, some, List, ◌∷◌, Text, arith,
  if◌then◌else◌, ◌||◌, [], ◌++◌, is_space, codes,
}
use companyly_microservices.Transaction.State.{Transaction}
use companyly_microservices.Connection.State.{
  Retval, ok, cont, deny, denysoft, denydisconnect, denysoftdisconnect, Msg, Config, Connection,
  text, Hook,
}
use companyly_microservices.Connection.Reset.{Env, is_relaying, closing, disconnect_now}
use companyly_microservices.Connection.Respond.{or_default, respond}
use companyly_microservices.Connection.Envelope.{
  Action, accept, tempfail, reject, incr, rcpt_incr, refuse_rcpt, rcpt_ok_answer, rcpt_ok_respond,
  rcpt_answer, rcpt_respond,
}
use companyly_microservices.Connection.Rest.{
  no_data, replied, written, Rests, IsQuiet, respond-replied, replied-IsReply,
}
use companyly_microservices.Connection.Heard.{
  spoken, heard, says, says_or, heard-replied, says-text, says-or_default,
}
use companyly_microservices.Connection.Closures.{
  Shows, at_replied, rcpt_incr-Shows, end_rcpt-Shows, refuse_rcpt-Shows,
}
use companyly_microservices.Connection.Verdicts.{
  verdict, rcpt_verdict, rcpt_says, is_accept, Verdict,
}

module _ {M : Type 0} where
  -- What the client hears and the counters and the transaction show after an answer.
  pub record Decided (v : Verdict) (said : List ℕ) (t : Transaction M) (kept dropped : List Text)
      (c d : Connection M) : Type 0 where
    pub answered : heard d.events ≡ said ++ heard c.events
    pub counted : d.rcpt_count ≡ incr v.action c.rcpt_count
    pub closed : closing d.state ≡ v.drop
    pub recipients :
        (u : Transaction M) × (d.transaction ≡ some u)
        × (u.rcpt_to ≡ (if is_accept v.action || v.drop then kept else dropped))
        × (u.rcpt_count ≡ incr v.action t.rcpt_count)

  module _ (env : Env M) (cfg : Config) (again : Connection M → Connection M) (rests : Rests again)
      (c : Connection M) (t : Transaction M) (rcpt : Text) (rest : List Text) (quiet : IsQuiet c)
      (at : c.transaction ≡ some t) (last : t.rcpt_to ≡ rcpt ∷ rest)
      (live : t.resetting ≡ false) where
    -- What a closure shows behind a reply, read as the outcome for the recipient.
    decided :
        (code : ℕ) (msg : Msg) (action : Action) (drop : Bool) (hs : List Hook) (u : Transaction M)
        (input : Option Text) (d : Connection M)
        → Shows
            (written (replied env cfg code msg c).events)
            (incr action (replied env cfg code msg c).rcpt_count)
            (replied env cfg code msg c).msg_count
            hs
            u
            drop
            input
            d
        → u.rcpt_to ≡ (if is_accept action || drop then rcpt ∷ rest else rest)
        → u.rcpt_count ≡ incr action t.rcpt_count
        → Decided
            (record { code = code; action = action; drop = drop })
            (says code msg)
            t
            (rcpt ∷ rest)
            rest
            c
            d
    decided code msg action drop hs u input d h to count =
        let r = replied-IsReply env cfg code msg c in
        record {
          answered = ap spoken h.shown_written ∙ heard-replied env cfg c code msg;
          counted = h.shown_rcpts ∙ ap (incr action) r.same_rcpt_count;
          closed = h.shown_closing;
          recipients = (u, h.shown_transaction, to, count);
        }

    refused :
        (code : ℕ) (msg : Msg) (action : Action)
        → is_accept action ≡ false
        → Decided
            (record { code = code; action = action; drop = false })
            (says code msg)
            t
            (rcpt ∷ rest)
            rest
            c
            (respond env cfg again code msg (refuse_rcpt action) c)
    refused code msg action not_taken =
        let (is, open_now, unpaused, empty) = at_replied env cfg c t quiet at code msg in
        let h = refuse_rcpt-Shows _ t is open_now rcpt rest action last in
        rw
          (respond-replied env cfg again rests code msg (refuse_rcpt action) c quiet
            (ap no_data h.shown_input ∙ empty))
          (decided code msg action false _ _ _ _ h (ground arith) refl)

    ended :
        (code : ℕ) (msg : Msg) (action : Action)
        → Decided
            (record { code = code; action = action; drop = true })
            (says code msg)
            t
            (rcpt ∷ rest)
            rest
            c
            (respond env cfg again code msg (λ d. disconnect_now env (rcpt_incr action d)) c)
    ended code msg action =
        let (is, open_now, unpaused, empty) = at_replied env cfg c t quiet at code msg in
        let h = end_rcpt-Shows _ t is open_now env live action in
        rw
          (respond-replied env cfg again rests code msg
            (λ d. disconnect_now env (rcpt_incr action d)) c quiet (ap no_data h.shown_input))
          (decided code msg action true _ _ _ _ h (ground arith) refl)

    taken :
        (code : ℕ) (msg : Msg)
        → Decided
            (record { code = code; action = accept; drop = false })
            (says code msg)
            t
            (rcpt ∷ rest)
            rest
            c
            (respond env cfg again code msg (rcpt_incr accept) c)
    taken code msg =
        let (is, open_now, unpaused, empty) = at_replied env cfg c t quiet at code msg in
        let h = rcpt_incr-Shows _ t is open_now accept in
        rw
          (respond-replied env cfg again rests code msg (rcpt_incr accept) c quiet
            (ap no_data h.shown_input ∙ empty))
          (decided code msg accept false _ _ _ _ h last refl)

    printed_r : is_space 114 ≡ false
    unfolding is_space
    printed_r = refl

    -- The default texts begin with `r`.
    with_default :
        (v : Verdict) (code : ℕ) (msg : Msg) (s : Text) {d : Connection M}
        → Decided v (says code (or_default msg (text (114 ∷ s)))) t (rcpt ∷ rest) rest c d
        → Decided v (says_or code msg) t (rcpt ∷ rest) rest c d
    with_default v code msg s h = rw (says-or_default code msg 114 s printed_r) at h

    says-no_mail : (s : Text) → says 550 (text (73 ∷ s)) ≡ 550 ∷ []
    says-no_mail s = says-text 550 73 s (unfold is_space in refl)

    rcpt_ok_answer-Decided :
        (retval : Retval) (msg : Msg)
        → Decided
            (verdict retval)
            (says_or (verdict retval).code msg)
            t
            (rcpt ∷ rest)
            rest
            c
            (rcpt_ok_answer env cfg again rcpt retval msg c)
    unfolding rcpt_ok_answer
    rcpt_ok_answer-Decided deny msg = with_default _ 550 msg _ (refused 550 _ reject refl)
    rcpt_ok_answer-Decided denydisconnect msg = with_default _ 550 msg _ (ended 550 _ reject)
    rcpt_ok_answer-Decided denysoft msg = with_default _ 450 msg _ (refused 450 _ tempfail refl)
    rcpt_ok_answer-Decided denysoftdisconnect msg = with_default _ 450 msg _ (ended 450 _ tempfail)
    rcpt_ok_answer-Decided _ msg = with_default _ 250 msg _ (taken 250 _)

    rcpt_ok_respond_lem :
        (retval : Retval) (msg : Msg)
        → rcpt_ok_respond env cfg again retval msg c
          ≡ rcpt_ok_answer env cfg again rcpt retval (or_default msg c.last_rcpt_msg) c
    unfolding rcpt_ok_respond
    rcpt_ok_respond_lem retval msg = ground arith

    -- The answer to a recipient that some plugin has accepted, for a client that has sent nothing
    -- ahead and the last recipient of a transaction that is not being reset: the client hears one
    -- reply, or none where the message that is given holds nothing but blanks; its code is that of the
    -- table, or the one of the plugin's DSN object, whatever that is; the connection's and the
    -- transaction's count of the table's outcome grow by one; the recipient stays in the transaction
    -- unless the table refuses it on a connection that goes on; and the connection is being closed
    -- exactly if the table says so.
    pub rcpt_ok_respond-Decided :
        (retval : Retval) (msg : Msg)
        → Decided
            (verdict retval)
            (says_or (verdict retval).code (or_default msg c.last_rcpt_msg))
            t
            (rcpt ∷ rest)
            rest
            c
            (rcpt_ok_respond env cfg again retval msg c)
    rcpt_ok_respond-Decided retval msg =
        rw (rcpt_ok_respond_lem retval msg)
          (rcpt_ok_answer-Decided retval (or_default msg c.last_rcpt_msg))

    no_mail :
        Decided
          (record { code = 550; action = reject; drop = false })
          (550 ∷ [])
          t
          (rcpt ∷ rest)
          rest
          c
          (respond env cfg again 550
            (text (codes "I cannot deliver mail for " ++ rcpt))
            (refuse_rcpt reject)
            c)
    no_mail =
        rw (says-no_mail _) at
          (refused 550 (text (codes "I cannot deliver mail for " ++ rcpt)) reject refl)

    rcpt_answer-Decided :
        (retval : Retval) (msg : Msg)
        → retval ≢ ok
        → Decided
            (rcpt_verdict retval)
            (rcpt_says retval msg)
            t
            (rcpt ∷ rest)
            rest
            c
            (rcpt_answer env cfg again rcpt retval msg c)
    unfolding rcpt_answer
    rcpt_answer-Decided deny msg n = with_default _ 550 msg _ (refused 550 _ reject refl)
    rcpt_answer-Decided denydisconnect msg n = with_default _ 550 msg _ (ended 550 _ reject)
    rcpt_answer-Decided denysoft msg n = with_default _ 450 msg _ (refused 450 _ tempfail refl)
    rcpt_answer-Decided denysoftdisconnect msg n = with_default _ 450 msg _ (ended 450 _ tempfail)
    rcpt_answer-Decided ok msg n = absurd (n refl)
    rcpt_answer-Decided cont msg n = no_mail
    rcpt_answer-Decided _ msg n = no_mail

    rcpt_respond_lem :
        (retval : Retval) (msg : Msg)
        → is_relaying c ≡ false
        → rcpt_respond env cfg again retval msg c ≡ rcpt_answer env cfg again rcpt retval msg c
    unfolding rcpt_respond
    rcpt_respond_lem cont msg r = ground arith
    rcpt_respond_lem _ msg r = ground arith

    -- No open relay: for a client that has sent nothing ahead and is not relaying, and the last
    -- recipient of a transaction that is not being reset, no answer other than OK takes the recipient.
    -- It leaves the transaction unless the connection is being closed, which it is exactly for the
    -- disconnecting answers; the connection's and the transaction's count of the table's outcome, a
    -- refusal, grow by one; and the client hears one reply, or none where a refusing plugin gives a
    -- message of nothing but blanks: with the code of the table, or the one of the plugin's DSN object,
    -- whatever that is.
    pub rcpt_respond-Decided :
        (retval : Retval) (msg : Msg)
        → is_relaying c ≡ false
        → retval ≢ ok
        → Decided
            (rcpt_verdict retval)
            (rcpt_says retval msg)
            t
            (rcpt ∷ rest)
            rest
            c
            (rcpt_respond env cfg again retval msg c)
    rcpt_respond-Decided retval msg r n =
        rw (rcpt_respond_lem retval msg r) (rcpt_answer-Decided retval msg n)
