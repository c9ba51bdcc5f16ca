-- ===== src/Connection/Tests.antt =====
-- The theorems on `Connection` at concrete inputs.
use companyly_microservices.Base.{
  ℕ, ◌++◌, zero, suc, false, ◌≡◌, refl, none, some, List, [], ◌∷◌, Text, codes, arith,
}
use companyly_microservices.Transaction.DotStuff.{find}
use companyly_microservices.Transaction.Message.{create_transaction}
use companyly_microservices.Connection.State.{pause_smtp, cont, denysoft, no_msg, text, Connection}
use companyly_microservices.Connection.Reset.{is_relaying}
use companyly_microservices.Connection.Respond.{or_default}
use companyly_microservices.Connection.Envelope.{accept, rcpt_ok_respond, rcpt_respond}
use companyly_microservices.Connection.Data.{is_end, is_bare_end, accumulate_data, cmd_data}
use companyly_microservices.Connection.Queue.{queue_respond, queue_ok_respond}
use companyly_microservices.Connection.Input.{process_data}
use companyly_microservices.Connection.Socket.{new_connection}
use companyly_microservices.Connection.Sample.{
  sample_env, sample_config, sample_transaction, open_connection, in_transaction,
}
use companyly_microservices.Connection.Rest.{replies, hooks, Rests, process_data-Rests}
use companyly_microservices.Connection.Recipients.{
  Decided, rcpt_ok_respond-Decided, rcpt_respond-Decided,
}
use companyly_microservices.Connection.Verdicts.{verdict, rcpt_verdict}
use companyly_microservices.Connection.Messages.{
  Finished, queue_verdict, queue_respond-Finished, queue_ok_respond-Finished,
}
use companyly_microservices.Connection.Order.{Refused, cmd_data-Refused}
use companyly_microservices.Connection.Waiting.{Waits, process_data-Waits}
use companyly_microservices.Connection.Size.{accumulate_data-too_big}

abbrev again : Connection (List Text) → Connection (List Text)
unfolding find
again = process_data sample_env sample_config 9

no_line : (max : ℕ) → sample_env.index_of_lf [] max ≡ none
unfolding find
no_line zero = refl
no_line (suc n) = refl

process_data-Rests_example : Rests again
unfolding find
process_data-Rests_example = process_data-Rests sample_env sample_config no_line 9

abbrev both : List Text
both = codes "<y@z>" ∷ codes "<x@y>" ∷ []

-- A refusal for now by a plugin.
rcpt_ok_respond-Decided_example :
    Decided
      (verdict denysoft)
      (450 ∷ [])
      sample_transaction
      both
      (codes "<x@y>" ∷ [])
      in_transaction
      (rcpt_ok_respond sample_env sample_config again denysoft no_msg in_transaction)
unfolding or_default find new_connection create_transaction
rcpt_ok_respond-Decided_example =
    rcpt_ok_respond-Decided sample_env sample_config again
      (process_data-Rests sample_env sample_config no_line 9) in_transaction sample_transaction
      (codes "<y@z>") (codes "<x@y>" ∷ []) (refl, refl, refl) refl refl refl denysoft no_msg

-- No plugin knows the recipient.
rcpt_respond-Decided_example :
    Decided
      (rcpt_verdict cont)
      (550 ∷ [])
      sample_transaction
      both
      (codes "<x@y>" ∷ [])
      in_transaction
      (rcpt_respond sample_env sample_config again cont no_msg in_transaction)
unfolding find new_connection create_transaction is_relaying
rcpt_respond-Decided_example =
    rcpt_respond-Decided sample_env sample_config again
      (process_data-Rests sample_env sample_config no_line 9) in_transaction sample_transaction
      (codes "<y@z>") (codes "<x@y>" ∷ []) (refl, refl, refl) refl refl refl cont no_msg refl
      (λ e. cc)

queue_respond-Finished_example :
    Finished
      (queue_verdict cont)
      in_transaction
      (queue_respond sample_env sample_config again cont no_msg in_transaction)
unfolding find new_connection create_transaction
queue_respond-Finished_example =
    queue_respond-Finished sample_env sample_config again
      (process_data-Rests sample_env sample_config no_line 9) in_transaction sample_transaction
      (refl, refl, refl) refl refl cont no_msg (λ e. cc)

queue_ok_respond-Finished_example :
    Finished
      (record { code = 250; action = accept; drop = false })
      in_transaction
      (queue_ok_respond sample_env sample_config again (text (codes "Queued")) in_transaction)
unfolding find new_connection create_transaction
queue_ok_respond-Finished_example =
    queue_ok_respond-Finished sample_env sample_config again
      (process_data-Rests sample_env sample_config no_line 9) in_transaction sample_transaction
      (refl, refl, refl) refl refl (codes "Queued")

cmd_data-Refused_example :
    Refused 503 open_connection (cmd_data sample_env sample_config again [] open_connection)
unfolding find new_connection
cmd_data-Refused_example =
    cmd_data-Refused sample_env sample_config again
      (process_data-Rests sample_env sample_config no_line 9) [] open_connection (refl, refl, refl)
      refl

abbrev long_line : Text
long_line = codes "eleven more"

accumulate_data-too_big_example :
    ((accumulate_data sample_env sample_config again long_line in_transaction).transaction
      ≡ some (record sample_transaction { data_bytes = 101 }))
    × (replies (accumulate_data sample_env sample_config again long_line in_transaction).events
        ≡ [])
    × (hooks (accumulate_data sample_env sample_config again long_line in_transaction).events ≡ [])
unfolding find new_connection create_transaction is_end is_bare_end
accumulate_data-too_big_example =
    accumulate_data-too_big sample_env sample_config again long_line in_transaction
      sample_transaction refl refl (omega arith) (omega arith) refl

-- DATA, sent while a hook still decides on the recipient.
abbrev busy : Connection (List Text)
unfolding new_connection create_transaction
busy = record in_transaction {
  state = pause_smtp;
  current_data = some (codes "DATA" ++ 13 ∷ 10 ∷ []);
}

process_data-Waits_example : Waits busy (process_data sample_env sample_config 9 busy)
unfolding find new_connection create_transaction
process_data-Waits_example =
    process_data-Waits sample_env sample_config 7 busy (codes "DATA" ++ 13 ∷ 10 ∷ []) 5 refl refl
      refl refl
