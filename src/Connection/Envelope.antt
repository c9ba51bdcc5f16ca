-- ===== src/Connection/Envelope.antt =====
-- email/connection.js: the answers to the hooks of MAIL and RCPT. The log and the result store,
-- which only record what is done, are left out.
use companyly_microservices.Base.{◌+◌, none, some, List, [], ◌∷◌, ◌++◌, Text, if◌then◌else◌, codes}
use companyly_microservices.Transaction.State.{Count, Transaction}
use companyly_microservices.Connection.State.{
  Retval, ok, cont, deny, denysoft, denydisconnect, denysoftdisconnect, Msg, text, nothing, rcpt_ok,
  type_error, Config, Connection,
}
use companyly_microservices.Connection.Reset.{
  Env, emit, run_hooks, is_relaying, reset_transaction, disconnect_now,
}
use companyly_microservices.Connection.Respond.{or_default, respond, idle}

pub data Action : Type 0 where
  accept tempfail reject : Action

unfoldable pub incr : Action → Count → Count
incr accept n = record n { accept = n.accept + 1 }
incr tempfail n = record n { tempfail = n.tempfail + 1 }
incr reject n = record n { reject = n.reject + 1 }

-- `pop()`
abbrev pub drop_first : List Text → List Text
drop_first [] = []
drop_first (r ∷ rs) = rs

module _ {M : Type 0} where
  -- `this.transaction[…] = …` on a transaction that is there.
  abbrev pub with_transaction : (Transaction M → Transaction M) → Connection M → Connection M
  with_transaction f c = elim c.transaction [
    | none ↦ emit type_error c
    | some t ↦ record c { transaction = some (f t) }
  ]

  unfoldable pub rcpt_incr : Action → Connection M → Connection M
  unfolding incr
  rcpt_incr action c =
      with_transaction (λ t. record t { rcpt_count = incr action t.rcpt_count })
        (record c { rcpt_count = incr action c.rcpt_count })

  unfoldable pub pop_rcpt : Connection M → Connection M
  pop_rcpt c = with_transaction (λ t. record t { rcpt_to = drop_first t.rcpt_to }) c

  abbrev pub refuse_rcpt : Action → Connection M → Connection M
  refuse_rcpt action c = pop_rcpt (rcpt_incr action c)

  module _ (env : Env M) (cfg : Config) (again : Connection M → Connection M) where
    -- The answer, once the sender's address is known.
    unfoldable pub mail_answer : Text → Retval → Msg → Connection M → Connection M
    mail_answer from deny msg c =
        respond env cfg again 550
          (or_default msg (text (codes "sender " ++ from ++ codes " denied")))
          (reset_transaction env nothing) c
    mail_answer from denydisconnect msg c =
        respond env cfg again 550
          (or_default msg (text (codes "sender " ++ from ++ codes " denied"))) (disconnect_now env)
          c
    mail_answer from denysoft msg c =
        respond env cfg again 450
          (or_default msg (text (codes "sender " ++ from ++ codes " denied")))
          (reset_transaction env nothing) c
    mail_answer from denysoftdisconnect msg c =
        respond env cfg again 450
          (or_default msg (text (codes "sender " ++ from ++ codes " denied"))) (disconnect_now env)
          c
    mail_answer from _ msg c =
        respond env cfg again 250 (or_default msg (text (codes "sender " ++ from ++ codes " OK")))
          idle c

    unfoldable pub mail_respond : Retval → Msg → Connection M → Connection M
    mail_respond retval msg c = elim c.transaction [
      | none ↦ c
      | some t ↦ elim t.mail_from [
        | none ↦ emit type_error c
        | some from ↦ mail_answer from retval msg c
      ]
    ]

    unfoldable pub rcpt_ok_answer : Text → Retval → Msg → Connection M → Connection M
    rcpt_ok_answer rcpt deny msg c =
        respond env cfg again 550
          (or_default msg (text (codes "recipient " ++ rcpt ++ codes " denied")))
          (refuse_rcpt reject) c
    rcpt_ok_answer rcpt denydisconnect msg c =
        respond env cfg again 550
          (or_default msg (text (codes "recipient " ++ rcpt ++ codes " denied")))
          (λ d. disconnect_now env (rcpt_incr reject d)) c
    rcpt_ok_answer rcpt denysoft msg c =
        respond env cfg again 450
          (or_default msg (text (codes "recipient " ++ rcpt ++ codes " denied")))
          (refuse_rcpt tempfail) c
    rcpt_ok_answer rcpt denysoftdisconnect msg c =
        respond env cfg again 450
          (or_default msg (text (codes "recipient " ++ rcpt ++ codes " denied")))
          (λ d. disconnect_now env (rcpt_incr tempfail d)) c
    rcpt_ok_answer rcpt _ msg c =
        respond env cfg again 250
          (or_default msg (text (codes "recipient " ++ rcpt ++ codes " OK"))) (rcpt_incr accept) c

    unfoldable pub rcpt_ok_respond : Retval → Msg → Connection M → Connection M
    rcpt_ok_respond retval msg c = elim c.transaction [
      | none ↦ c
      | some t ↦ elim t.rcpt_to [
        | [] ↦ emit type_error c
        | rcpt ∷ _ ↦ rcpt_ok_answer rcpt retval (or_default msg c.last_rcpt_msg) c
      ]
    ]

    unfoldable pub rcpt_answer : Text → Retval → Msg → Connection M → Connection M
    rcpt_answer rcpt deny msg c =
        respond env cfg again 550
          (or_default msg (text (codes "recipient " ++ rcpt ++ codes " denied")))
          (refuse_rcpt reject) c
    rcpt_answer rcpt denydisconnect msg c =
        respond env cfg again 550
          (or_default msg (text (codes "recipient " ++ rcpt ++ codes " denied")))
          (λ d. disconnect_now env (rcpt_incr reject d)) c
    rcpt_answer rcpt denysoft msg c =
        respond env cfg again 450
          (or_default msg (text (codes "recipient " ++ rcpt ++ codes " denied")))
          (refuse_rcpt tempfail) c
    rcpt_answer rcpt denysoftdisconnect msg c =
        respond env cfg again 450
          (or_default msg (text (codes "recipient " ++ rcpt ++ codes " denied")))
          (λ d. disconnect_now env (rcpt_incr tempfail d)) c
    rcpt_answer rcpt ok msg c = run_hooks (rcpt_ok rcpt) (record c { last_rcpt_msg = msg })
    rcpt_answer rcpt _ msg c =
        respond env cfg again 550 (text (codes "I cannot deliver mail for " ++ rcpt))
          (refuse_rcpt reject) c

    -- `cont` counts as `ok` for a relaying client.
    abbrev relayed : Retval → Connection M → Retval
    relayed cont c = if is_relaying c then ok else cont
    relayed retval c = retval

    unfoldable pub rcpt_respond : Retval → Msg → Connection M → Connection M
    rcpt_respond retval msg c = elim c.transaction [
      | none ↦ c
      | some t ↦ elim t.rcpt_to [
        | [] ↦ emit type_error c
        | rcpt ∷ _ ↦ rcpt_answer rcpt (relayed retval c) msg c
      ]
    ]
