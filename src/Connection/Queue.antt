-- ===== src/Connection/Queue.antt =====
-- email/connection.js: the end of a message: the answers to the queue hooks and of the outbound
-- layer.
use companyly_microservices.Base.{none, some, [], ◌++◌, Text, codes, join}
use companyly_microservices.Transaction.State.{Transaction}
use companyly_microservices.Connection.State.{
  Retval, ok, deny, denysoft, denydisconnect, denysoftdisconnect, Msg, no_msg, text, lines, dsn,
  then_resume, queue_ok, type_error, send_email, Config, Connection,
}
use companyly_microservices.Connection.Reset.{
  Env, emit, run_hooks, reset_transaction, disconnect_now,
}
use companyly_microservices.Connection.Respond.{or_default, respond}
use companyly_microservices.Connection.Envelope.{Action, reject, tempfail, accept, incr}
use companyly_microservices.Connection.Data.{count_msg}

unfoldable pub queue_text : Retval → Text
queue_text ok = codes "Message Queued"
queue_text deny = codes "Message denied"
queue_text denydisconnect = codes "Message denied"
queue_text denysoft = codes "Message denied temporarily"
queue_text denysoftdisconnect = codes "Message denied temporarily"
queue_text _ = []

unfoldable pub queue_msg : Retval → Msg → Msg
queue_msg retval msg = or_default msg (text (queue_text retval))

module _ {M : Type 0} (env : Env M) where
  -- A message within a template literal.
  unfoldable pub show_msg : Msg → Text
  show_msg no_msg = codes "undefined"
  show_msg (text s) = s
  show_msg (lines ls) = join (codes ",") ls
  show_msg (dsn code s) = env.show_dsn code s

  -- `${msg} (${this.transaction.uuid})`
  unfoldable pub with_uuid : Msg → Transaction M → Msg
  with_uuid msg t = text (show_msg msg ++ (codes " (" ++ (t.uuid ++ codes ")")))

module _ {M : Type 0} (env : Env M) (cfg : Config) (again : Connection M → Connection M) where
  -- The closures of a refused message: without and with the end of the connection.
  abbrev pub finish_msg : Action → Connection M → Connection M
  finish_msg action = count_msg action (reset_transaction env then_resume)

  abbrev pub finish_connection : Action → Connection M → Connection M
  finish_connection action = count_msg action (disconnect_now env)

  unfoldable pub queue_outbound_answer : Retval → Msg → Connection M → Connection M
  queue_outbound_answer ok msg c = run_hooks (queue_ok msg) c
  queue_outbound_answer deny msg c = respond env cfg again 550 msg (finish_msg reject) c
  queue_outbound_answer denydisconnect msg c =
      respond env cfg again 550 msg (finish_connection reject) c
  queue_outbound_answer denysoft msg c = respond env cfg again 450 msg (finish_msg tempfail) c
  queue_outbound_answer denysoftdisconnect msg c =
      respond env cfg again 450 msg (finish_connection tempfail) c
  queue_outbound_answer _ msg c = emit send_email c

  unfoldable pub queue_outbound_respond : Retval → Msg → Connection M → Connection M
  queue_outbound_respond retval msg c = elim c.transaction [
    | none ↦ emit type_error c
    | some t ↦
        queue_outbound_answer retval
          (with_uuid env (or_default (queue_msg retval msg) (text (codes "Message Queued"))) t) c
  ]

  -- The callback of `outbound.send_email`, whose `msg` is the outer one.
  unfoldable pub send_email_answer : Msg → Retval → Msg → Connection M → Connection M
  send_email_answer msg ok msg2 c =
      run_hooks (queue_ok (or_default (or_default msg2 (queue_msg ok msg)) (queue_msg ok no_msg))) c
  send_email_answer msg deny msg2 c =
      respond env cfg again 550
        (or_default (or_default msg2 (queue_msg deny msg)) (queue_msg deny no_msg))
        (finish_msg reject) c
  send_email_answer msg retval msg2 c =
      respond env cfg again 550
        (or_default (or_default msg2 (queue_msg retval msg)) (text (codes "Internal Server Error")))
        (finish_msg reject) c

  unfoldable pub queue_answer : Retval → Msg → Connection M → Connection M
  queue_answer ok msg c = run_hooks (queue_ok msg) c
  queue_answer deny msg c = respond env cfg again 550 msg (finish_msg reject) c
  queue_answer denydisconnect msg c = respond env cfg again 550 msg (finish_connection reject) c
  queue_answer denysoft msg c = respond env cfg again 450 msg (finish_msg tempfail) c
  queue_answer denysoftdisconnect msg c =
      respond env cfg again 450 msg (finish_connection tempfail) c
  queue_answer _ msg c =
      respond env cfg again 451
        (or_default msg (text (codes "Queuing declined or disabled, try later")))
        (finish_msg tempfail) c

  unfoldable pub queue_respond : Retval → Msg → Connection M → Connection M
  queue_respond retval msg c = elim c.transaction [
    | none ↦ emit type_error c
    | some t ↦ queue_answer retval (with_uuid env (queue_msg retval msg) t) c
  ]

  -- The closure of `queue_ok_respond`, whose status is set only on a transaction that is there.
  unfoldable pub accept_msg : Connection M → Connection M
  accept_msg c = elim c.transaction [
    | none ↦ reset_transaction env then_resume (record c { msg_count = incr accept c.msg_count })
    | some t ↦ finish_msg accept c
  ]

  -- `params` is the message of the queue hook that succeeded.
  unfoldable pub queue_ok_respond : Msg → Connection M → Connection M
  queue_ok_respond params c = respond env cfg again 250 params accept_msg c
