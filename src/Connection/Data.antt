-- ===== src/Connection/Data.antt =====
-- email/connection.js: the DATA command, its lines, and the answers to its hooks.
use companyly_microservices.Base.{
  ◌+◌, Bool, none, some, [], ◌∷◌, ◌++◌, Text, ◌&&◌, not, ◌==◌, leb, ltb, if◌then◌else◌, codes,
  length, is_empty,
}
use companyly_microservices.Transaction.State.{Transaction, Status, accepted, rejected, deferred}
use companyly_microservices.Transaction.DotStuff.{has_at}
use companyly_microservices.Transaction.Message.{
  add_data, add_header, add_leading_header, remove_header,
}
use companyly_microservices.Transaction.Message
use companyly_microservices.Connection.State.{
  data_lines, Retval, deny, denysoft, denydisconnect, denysoftdisconnect, Msg, text, nothing,
  then_resume, data_start, max_data_exceeded, data_post, queue, queue_outbound, type_error,
  end_data, Config, Connection,
}
use companyly_microservices.Connection.Reset.{
  Env, emit, run_hooks, pause, is_relaying, reset_transaction, disconnect_now,
}
use companyly_microservices.Connection.Respond.{or_default, respond, idle}
use companyly_microservices.Connection.Envelope.{
  Action, reject, tempfail, accept, incr, with_transaction,
}
use companyly_microservices.Connection.Headers.{received_line, auth_results, auth_results_clean}

-- `Look for .\r\n` and `Look for .\n`
unfoldable pub is_end : Text → Bool
is_end line = length line == 3 && (has_at line 0 0x2E && (has_at line 1 0x0D && has_at line 2 0x0A))

unfoldable pub is_bare_end : Text → Bool
is_bare_end line = length line == 2 && (has_at line 0 0x2E && has_at line 1 0x0A)

unfoldable pub has_status : Action → Status
has_status accept = accepted
has_status tempfail = deferred
has_status reject = rejected

module _ {M : Type 0} where
  -- The start of the closure of a reply that ends a message: the count and the status. With no
  -- transaction it throws, and what follows in the closure is not done.
  unfoldable pub count_msg : Action → (Connection M → Connection M) → Connection M → Connection M
  unfolding has_status incr
  count_msg action after c =
      let c' = record c { msg_count = incr action c.msg_count } in
      elim c.transaction [
        | none ↦ emit type_error c'
        | some t ↦
            after (record c' {
              transaction = some (record t { msg_status = some (has_status action) });
            })
      ]

  module _ (env : Env M) where
    -- The closure of `end_data`.
    unfoldable pub data_ended : Connection M → Connection M
    data_ended c = elim c.transaction [ none ↦ c | some t ↦ run_hooks data_post c ]

  module _ (env : Env M) (cfg : Config) (again : Connection M → Connection M) where
    -- The last part of `data_done`, for a message that is taken.
    unfoldable pub finish_data : Transaction M → Connection M → Connection M
    finish_data t c =
        let t1 = if cfg.clean_auth_results then auth_results_clean env t else t in
        let ar_field = auth_results env c in
        let t2 =
          if is_empty ar_field
          then t1
          else add_header env.parser (codes "Authentication-Results") ar_field t1 in
        let c' = record c { transaction = some (Message.end_data env.parser t2) } in
        if t.discard_data then data_ended env c' else emit end_data c'

    -- `data_done`, on the transaction that is there.
    unfoldable pub data_done : Transaction M → Connection M → Connection M
    data_done t c =
        let p = pause c in
        let c' = record p { totalbytes = p.totalbytes + t.data_bytes } in
        if not (cfg.max_bytes == 0) && ltb cfg.max_bytes t.data_bytes
        then run_hooks max_data_exceeded c'
        else if ltb cfg.max_received (length (env.parser.get_all (codes "received") t.message))
        then respond env cfg again 550
            (text (codes "Too many received headers - possible mail loop"))
            (reset_transaction env nothing) c'
        else finish_data t c'

    -- `accumulate_data`, once the bytes are counted.
    unfoldable pub take_line : Text → Transaction M → Connection M → Connection M
    take_line line t c =
        if is_end line
        then data_done t c
        else if is_bare_end line
        then respond env cfg again 451
            (text (codes "Bare line-feed; see http://haraka.github.io/barelf/"))
            (reset_transaction env nothing) c
        else if not (cfg.max_bytes == 0) && ltb cfg.max_bytes t.data_bytes
        then c
        else if leb cfg.max_mime_parts t.mime_part_count
        then respond env cfg again 554
            (text (codes "Transaction failed due to too many MIME parts")) (disconnect_now env) c
        else record c { transaction = some (add_data env.parser cfg.max_header_lines line t) }

    unfoldable pub accumulate_data : Text → Connection M → Connection M
    accumulate_data line c = elim c.transaction [
      | none ↦ emit type_error c
      | some t ↦
          let t' = record t { data_bytes = t.data_bytes + length line } in
          take_line line t' (record c { transaction = some t' })
    ]

    unfoldable pub cmd_data : Text → Connection M → Connection M
    cmd_data args c =
        if not (is_empty args)
        then respond env cfg again 501 (text (codes "Syntax error")) idle
            (record c { errors = c.errors + 1 })
        else elim c.transaction [
          | none ↦
              respond env cfg again 503 (text (codes "MAIL required first")) idle
                (record c { errors = c.errors + 1 })
          | some t ↦
              if is_empty t.rcpt_to
              then if c.pipelining
                then respond env cfg again 554 (text (codes "No valid recipients")) idle c
                else respond env cfg again 503 (text (codes "RCPT required first")) idle
                    (record c { errors = c.errors + 1 })
              else if cfg.add_received
              then run_hooks data_start (
                  accumulate_data (codes "Received: " ++ received_line env t c ++ (13 ∷ 10 ∷ [])) c)
              else run_hooks data_start c
        ]

    -- The closure of the 354 reply.
    unfoldable pub start_data : Connection M → Connection M
    start_data c =
        with_transaction (λ t. record t { data_bytes = 0 }) (record c { state = data_lines })

    unfoldable pub data_respond : Retval → Msg → Connection M → Connection M
    data_respond deny msg c =
        respond env cfg again 554 (or_default msg (text (codes "Message denied")))
          (reset_transaction env nothing) c
    data_respond denydisconnect msg c =
        respond env cfg again 554 (or_default msg (text (codes "Message denied")))
          (disconnect_now env) c
    data_respond denysoft msg c =
        respond env cfg again 451 (or_default msg (text (codes "Message denied")))
          (reset_transaction env nothing) c
    data_respond denysoftdisconnect msg c =
        respond env cfg again 451 (or_default msg (text (codes "Message denied")))
          (disconnect_now env) c
    data_respond _ msg c =
        respond env cfg again 354 (text (codes "go ahead, make my day")) start_data c

    unfoldable pub max_data_exceeded_respond : Retval → Connection M → Connection M
    max_data_exceeded_respond denysoft c =
        respond env cfg again 450 (text (codes "Message too big!")) (reset_transaction env nothing)
          c
    max_data_exceeded_respond _ c =
        respond env cfg again 550 (text (codes "Message too big!")) (reset_transaction env nothing)
          c

    -- The header that `data_post_respond` puts in front.
    unfoldable pub lead_auth_results : Transaction M → Connection M → Connection M
    lead_auth_results t c =
        let ar_field = auth_results env c in
        if is_empty ar_field then c else record c {
          transaction = some (
              add_leading_header env.parser (codes "Authentication-Results") ar_field
                (remove_header env.parser (codes "Authentication-Results") t));
        }

    unfoldable pub data_post_answer : Retval → Msg → Connection M → Connection M
    data_post_answer deny msg c =
        respond env cfg again 550 (or_default msg (text (codes "Message denied")))
          (count_msg reject (reset_transaction env then_resume)) c
    data_post_answer denydisconnect msg c =
        respond env cfg again 550 (or_default msg (text (codes "Message denied")))
          (count_msg reject (disconnect_now env)) c
    data_post_answer denysoft msg c =
        respond env cfg again 450 (or_default msg (text (codes "Message denied temporarily")))
          (count_msg tempfail (reset_transaction env then_resume)) c
    data_post_answer denysoftdisconnect msg c =
        respond env cfg again 450 (or_default msg (text (codes "Message denied temporarily")))
          (count_msg tempfail (disconnect_now env)) c
    data_post_answer _ msg c =
        if is_relaying c then run_hooks queue_outbound c else run_hooks queue c

    unfoldable pub data_post_respond : Retval → Msg → Connection M → Connection M
    data_post_respond retval msg c = elim c.transaction [
      | none ↦ c
      | some t ↦ data_post_answer retval msg (lead_auth_results t c)
    ]
