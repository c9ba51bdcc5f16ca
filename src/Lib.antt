-- ===== src/Lib.antt =====
-- The mail server of this repository, which is a copy of Haraka: email/connection.js, the server's
-- side of an SMTP connection, and what it stands on.
--
-- The parts. A connection (email/connection.js) takes bytes from its socket, cuts them into lines,
-- and takes each line as a command or as a line of a message. Most commands start a hook of the
-- plugins, and the plugins' answer comes back to a `…_respond` method, which replies to the client,
-- changes the counters and goes on with the input. The message that is being received is a
-- transaction (email/transaction.js). The arguments of MAIL and RCPT are read by email/rfc1869.js.
-- The hooks are run by the engine of email/plugins.js, which calls the plugins one after the other.
-- On the way out, an item of the queue (email/outbound/hmail.js) finds the hosts of its domain, talks
-- to one of them, and is deferred, bounced or removed by what the host answers; its state between
-- attempts is in the name of its file (email/outbound/qfile.js). A queue of timers
-- (email/outbound/timer_queue.js) holds the messages that wait for another attempt, and a pool of
-- hosts (email/host_pool.js) gives the next host that works. Plugins that forward mail use a client
-- of their own (email/smtp_client.js). The plugin email/plugins/spf.js asks at HELO and MAIL whether
-- the client may send for the domain, which email/spf.js finds out from the domain's SPF record. The
-- signatures of a message are checked by email/dkim.js.
--
-- Where to find what:
--   Base                   lists, texts and tests that the other modules share; bytes and
--                          characters are numbers, a text is a list of them
--   Connection.State       the fields of a connection, the hooks, and the events that it causes
--   Connection.Reset       run_hooks, pause, resume, reset_transaction, disconnect
--   Connection.Respond     respond and loop_respond
--   Connection.Greeting    connect_init_respond to rset_respond
--   Connection.Envelope    mail_respond, rcpt_respond, rcpt_ok_respond, rcpt_incr
--   Connection.Headers     received_line, auth_results, auth_results_clean
--   Connection.Data        cmd_data, accumulate_data, data_done and the answers to their hooks
--   Connection.Queue       queue_respond, queue_outbound_respond, queue_ok_respond
--   Connection.Words       the words and parameters of a command line
--   Connection.Commands    the other commands
--   Connection.Line        what a line is to the input loop
--   Connection.Input       process_data, _process_data and process_line
--   Connection.Socket      the constructor and the events of the socket
--   Connection.Answers     which method answers which hook
--   Connection.Rest        the input loop on an empty buffer, and what a reply changes
--   Connection.Heard       what the client hears of a reply
--   Connection.Recipients, Messages, Order, Size, Waiting, Pausing
--                          what is proved of the connection; Closures and Verdicts
--                          serve the first two
--   Transaction.State, Message
--                          the transaction, its header and body line by line
--   Transaction.Message.Lines
--                          what becomes of the lines of a message
--   Transaction.DotStuff   add_dot_stuffing_and_ensure_crlf_newlines, remove_final_cr
--   Rfc1869                parse; Chew and Addresses have what is proved of it
--   HostPool               failed, probe_dead_host, get_host
--   Plugins.State, Engine  run_hooks, run_next_hook, its callback, cancel and timer, get_denyfn;
--                          Order, Denial and Cancelling have what is proved of them
--   Outbound.TimerQueue    add, discard, fire, drain
--   Outbound.Mx            sort_mx, and the list of found_mx
--   Outbound.MxLookup      lookup_mx, over the answers of the resolver
--   Outbound.Item          send, temp_fail, deferred_respond, bounce, discard, splits; Hosts has
--                          get_mx_respond, found_mx, try_deliver and try_deliver_host; Retries and
--                          Attempts have what is proved of them
--   Outbound.Delivery      try_deliver_host_on_socket: Reply reads a line of the server, Ehlo
--                          its reply to EHLO, Dialog has the commands, TLS, AUTH and
--                          finish_processing_mail, Lines the line
--                          handler, Socket the start and the events of the socket; Recipients,
--                          Ending, Sorting, Lmtp, Tls and Clear have what is proved of them
--   Outbound.Bounce        populate_bounce_message_with_headers; Template has the words of the
--                          templates, Escape what is proved of them
--   Outbound.Qfile         hostname, name, parts
--   SmtpClient             the line handler of SMTPClient, release, destroy, closed; Release has
--                          what is proved of them
--   Spf.Macros             expand_macros; Expansion, Rounds and Endless have what is proved of it
--   Spf.Record, Chains     the record and its words, valid_ip: the first half of check_host
--   Spf.Mechanisms, MxCalls
--                          the mechanisms that look something up; Clients, Exchanges and Arrival
--                          have what is proved of them
--   Spf.Check              check_host, its chains, mech_include and mod_redirect; Levels and Decides
--                          have what is proved of them
--   Spf.Plugin, Hooks      the plugin: its settings, verdicts and hooks; Once has what is proved of
--                          them
--   Dkim                   canonicalize, add_body_line, the overall result; Relaxed and Body have
--                          what is proved of them
--   Spf.Net, Run           the parameters of the check, and how a part of it ends
--
-- How the code is modelled. A method that changes a connection is a function from connections to
-- connections. What it does outside the connection (a line sent, a hook started, the socket paused,
-- a callback left for later) is put in front of the list `events`, and what comes back later is a
-- function of its own: `answer` for a hook, `send_email_answer` for the outgoing queue,
-- `data_ended` for the end of the message's file, and the handlers of the socket. A closure that
-- the code gives to `reset_transaction` is a value of `Callback`, since it is called after the
-- hook's answer. A use of a missing transaction, which throws, is the event `type_error`.
--
-- `respond` goes on with the input, and the input loop calls `respond`; so every method takes the
-- input loop as the argument `again`, and `process_data` ties the knot on fuel, one unit for each
-- line or nested call. The theorems about answers and commands are about a client that has sent
-- nothing ahead, for whom `again` has nothing to do, which they take as the hypothesis `Rests again`
-- and which `process_data` meets. The loop of dot stuffing has the data's length for its fuel.
--
-- In the same way the delivery of a message is a record, `Dialog`, with the events of one attempt on
-- one socket: what is written, what is asked of the pool, and what is decided of the item, whose own
-- operations are those of `HMailItem`. The recipients are of any type. A plugin's call is an event
-- of the engine, and its answer is `callback` on the index of that call, at any time and as often
-- as it likes. The method that answers the hook `deny` may call itself, and is given a depth; one is
-- enough unless the hook `deny` was itself refused.
--
-- A check of SPF calls back, throws, or does neither; `Run` says which. Checks inside checks take a
-- level each, of which twelve are enough, since each counts a lookup and the limit is ten; the loop on
-- the macros takes rounds, which are an argument, since the program's own loop need not end. DNS,
-- ipaddr.js and RegExp are the record `Net`, the same at each call; replies to lookups that are made
-- together arrive in an order that `Net` gives. Where `mech_mx` calls back more than once, the check
-- goes on with the first call.
--
-- The environment is a record of parameters, `Env`: the mail parser, the tests on IP addresses, the
-- address constructor, the text decoder, the line feed finder and the date.
--
-- What is not modelled: the loading of plugins; the stores of results, notes and logs; body filters,
-- attachments and banners; texts outside ASCII in the patterns of the commands; a SIZE that is not a
-- decimal number; the reply 421 to a command whose method throws; the files of the queue, the resolver and the pool of connections; the
-- headers and keys of DKIM; TLS, the server's start and the plugins other than SPF.
pub mod Base
pub mod Outbound
pub mod Plugins
pub mod SmtpClient
pub mod Spf
pub mod Dkim
pub mod HostPool
pub mod Transaction
pub mod Rfc1869
pub mod Connection
