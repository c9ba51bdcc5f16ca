-- ===== src/Connection/Answers.antt =====
-- email/connection.js as a whole: what can happen to a connection, from outside: bytes, the answers
-- of the hooks that it has started, and the other events that it waits for.
use companyly_microservices.Connection.State.{
  Retval, Msg, helo, ehlo, Hook, connect_init, lookup_rdns, connect, capabilities, quit, rset, vrfy,
  noop, unrecognized_command, hello, mail, rcpt, rcpt_ok, data_start, max_data_exceeded, data_post,
  queue, queue_outbound, queue_ok, reset, disconnect, named, Config, Connection,
}
use companyly_microservices.Connection.Reset.{Env, reset_transaction_respond, disconnect_respond}
use companyly_microservices.Connection.Greeting.{
  connect_init_respond, lookup_rdns_respond, unrecognized_command_respond, connect_respond,
  helo_respond, ehlo_respond, capabilities_respond, quit_respond, vrfy_respond, noop_respond,
  rset_respond,
}
use companyly_microservices.Connection.Envelope.{mail_respond, rcpt_ok_respond, rcpt_respond}
use companyly_microservices.Connection.Data.{
  data_respond, max_data_exceeded_respond, data_post_respond,
}
use companyly_microservices.Connection.Queue.{
  queue_outbound_respond, queue_respond, queue_ok_respond,
}

module _ {M : Type 0} (env : Env M) (cfg : Config) (again : Connection M → Connection M) where
  -- `object[respond_method](retval, msg, params)` of email/plugins.js, by the hook. A hook that a
  -- plugin has named has no answer here.
  unfoldable pub answer : Hook → Retval → Msg → Connection M → Connection M
  answer connect_init retval msg c = connect_init_respond c
  answer lookup_rdns retval msg c = lookup_rdns_respond env cfg again retval msg c
  answer connect retval msg c = connect_respond env cfg again retval msg c
  answer capabilities retval msg c = capabilities_respond env cfg again c
  answer quit retval msg c = quit_respond env cfg again msg c
  answer rset retval msg c = rset_respond env cfg again c
  answer vrfy retval msg c = vrfy_respond env cfg again retval msg c
  answer noop retval msg c = noop_respond env cfg again retval msg c
  answer (unrecognized_command args) retval msg c =
      unrecognized_command_respond env cfg again retval msg c
  answer (hello helo host) retval msg c = helo_respond env cfg again retval msg c
  answer (hello ehlo host) retval msg c = ehlo_respond env cfg again retval msg c
  answer (mail from params) retval msg c = mail_respond env cfg again retval msg c
  answer (rcpt to params) retval msg c = rcpt_respond env cfg again retval msg c
  answer (rcpt_ok to) retval msg c = rcpt_ok_respond env cfg again retval msg c
  answer data_start retval msg c = data_respond env cfg again retval msg c
  answer max_data_exceeded retval msg c = max_data_exceeded_respond env cfg again retval c
  answer data_post retval msg c = data_post_respond env cfg again retval msg c
  answer queue retval msg c = queue_respond env cfg again retval msg c
  answer queue_outbound retval msg c = queue_outbound_respond env cfg again retval msg c
  answer (queue_ok params) retval msg c = queue_ok_respond env cfg again params c
  answer (reset cb) retval msg c = reset_transaction_respond env cb c
  answer disconnect retval msg c = disconnect_respond env c
  answer (named h) retval msg c = c
