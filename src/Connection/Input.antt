-- ===== src/Connection/Input.antt =====
-- email/connection.js: the bytes that come in: `process_line` and the loop of `_process_data`.
-- `respond` calls `_process_data` again, from within the loop: `process_data` is given the number
-- of nested calls that it may make, and the loop the number of its rounds.
use companyly_microservices.Base.{
  ℕ, zero, suc, ◌+◌, ◌-◌, Bool, true, false, none, some, [], ◌∷◌, ◌++◌, Text, ◌&&◌, ◌||◌, not, leb,
  ltb, if◌then◌else◌, codes, length, is_empty, any, text_eq, map, to_upper, to_lower, take, drop,
}
use companyly_microservices.Connection.State.{
  State, cmd, loop, data_lines, pause_smtp, disconnecting, disconnected, helo, ehlo, text,
  unrecognized_command, type_error, process_later, pause_client, Config, Connection,
}
use companyly_microservices.Connection.Reset.{
  Env, closing, is_pause_data, emit, run_hooks, disconnect_now,
}
use companyly_microservices.Connection.Respond.{respond, idle}
use companyly_microservices.Connection.Data.{accumulate_data, cmd_data}
use companyly_microservices.Connection.Commands.{
  cmd_proxy, cmd_internalcmd, cmd_helo, cmd_ehlo, cmd_quit, cmd_rset, cmd_vrfy, cmd_noop, cmd_help,
  cmd_mail, cmd_rcpt,
}
use companyly_microservices.Connection.Words.{has_prefix}
use companyly_microservices.Connection.Line.{
  commands, lookup_command, remove_newline, match_command, is_tls_start, may_lead, is_pause,
  is_waiting, in_data, Command, proxy, internalcmd, helo_cmd, ehlo_cmd, quit_cmd, rset_cmd,
  vrfy_cmd, noop_cmd, help, mail_cmd, rcpt_cmd, data_cmd,
}

module _ {M : Type 0} where
  abbrev said_helo : Connection M → Bool
  said_helo c = elim c.hello.verb [ none ↦ false | some v ↦ elim v [ helo ↦ true | ehlo ↦ false ] ]

  module _ (env : Env M) (cfg : Config) (again : Connection M → Connection M) where
    -- The method of a command. Where it throws, that is the event `type_error`; the reply 421 and the
    -- disconnect of the handler of exceptions are not modelled.
    unfoldable pub run_command : Command → Text → Connection M → Connection M
    run_command proxy args = cmd_proxy env cfg again args
    run_command internalcmd args = cmd_internalcmd env cfg again args
    run_command helo_cmd args = cmd_helo env cfg again args
    run_command ehlo_cmd args = cmd_ehlo env cfg again args
    run_command quit_cmd args = cmd_quit env cfg again args
    run_command rset_cmd args = cmd_rset env cfg again args
    run_command vrfy_cmd args = cmd_vrfy env cfg again
    run_command noop_cmd args = cmd_noop env cfg again
    run_command help args = cmd_help env cfg again
    run_command mail_cmd args = cmd_mail env cfg again args
    run_command rcpt_cmd args = cmd_rcpt env cfg again args
    run_command data_cmd args = cmd_data env cfg again args

    -- A line in the state CMD, which becomes PAUSE_SMTP.
    unfoldable pub command_line : Text → Connection M → Connection M
    command_line line c = elim (match_command line) [
      | none ↦ run_hooks (unrecognized_command (line ∷ [])) c
      | some (name, remaining) ↦ elim (lookup_command (map to_lower name) commands) [
        | none ↦ run_hooks (unrecognized_command (name ∷ remaining ∷ [])) c
        | some m ↦ run_command m remaining c
      ]
    ]

    -- By the state, once the line is decoded.
    unfoldable pub dispatch_line : State → Text → Connection M → Connection M
    dispatch_line cmd line c = command_line line (record c { state = pause_smtp })
    dispatch_line loop line c =
        if text_eq (map to_upper line) (codes "QUIT")
        then cmd_quit env cfg again [] c
        else respond env cfg again c.loop_code c.loop_msg idle c
    dispatch_line _ line c = emit type_error c

    unfoldable pub text_line : Text → Connection M → Connection M
    text_line line c =
        if not (any (leb 128) line)
        then dispatch_line c.state line c
        else if is_tls_start line
        then disconnect_now env (
            respond env cfg again 501 (text (codes "SSL attempted over a non-SSL socket")) idle
              (record c { current_data = none }))
        else if said_helo c
        then respond env cfg again 501 (text (codes "Syntax error (8-bit characters not allowed)"))
            idle c
        else dispatch_line c.state line c

    unfoldable pub process_line : Text → Connection M → Connection M
    process_line line c = elim c.state [
      | data_lines ↦ accumulate_data env cfg again line c
      | disconnecting ↦ c
      | disconnected ↦ c
      | _ ↦
          let line' = remove_newline (env.decode c.binary line) in
          text_line line' (record c { current_line = line' })
    ]

    -- The early talker, and the end of the loop.
    abbrev early : Connection M → Connection M
    early c = emit process_later (record c { early_talker = true })

    -- A whole line that comes while a command is under way, after EHLO: `true` ends the method.
    unfoldable pub pipeline : Text → Text → Connection M → Connection M
    pipeline line rest c =
        if may_lead (map to_upper (take 4 line)) || is_empty rest
        then record c { pipelining = true }
        else early c

    -- The loop: the connection, and whether the method returns from within it.
    unfoldable pub line_loop : ℕ → ℕ → Connection M → Connection M × Bool
    line_loop zero max c = (c, true)
    line_loop (suc fuel) max c = elim c.current_data [
      | none ↦ (c, false)
      | some buf ↦ elim (env.index_of_lf buf max) [
        | none ↦ (c, false)
        | some offset ↦
            let line = take (offset + 1) buf in
            let rest = drop (offset + 1) buf in
            let starts_proxy = c.proxy.allowed && has_prefix (codes "PROXY ") line in
            let hello_line : Bool =
              c.proxy.allowed
              && (text_eq (map to_upper (take 5 line)) (codes "EHLO ")
                  || text_eq (map to_upper (take 5 line)) (codes "HELO ")) in
            let by_proxy = line_loop fuel max (
              process_line line (record c {
                state = cmd;
                current_data = some rest;
                proxy = record c.proxy { timer = false };
              })) in
            let next =
              line_loop fuel max (process_line line (record c { current_data = some rest })) in
            if is_pause_data c.state
            then (c, true)
            else if is_pause c.state && starts_proxy
            then by_proxy
            else if is_waiting c.state && not c.esmtp
            then (if hello_line then (c, true) else (early c, false))
            else if is_waiting c.state
            then (pipeline line rest c, false)
            else next
      ]
    ]

    -- Behind the loop: a line that is longer than the limit.
    unfoldable pub check_length : ℕ → Connection M → Connection M
    check_length max c = elim c.current_data [
      | none ↦ c
      | some buf ↦ elim (env.index_of_lf buf max) [
        | some offset ↦ c
        | none ↦
            if not (ltb max (length buf))
            then c
            else if in_data c.state
            then elim c.transaction [
              | none ↦ emit type_error c
              | some t ↦ again (record c {
                transaction = some (record t { line_length_exceeded = true });
                current_data = some (take (max - 2) buf ++ (13 ∷ 10 ∷ 32 ∷ drop (max - 2) buf));
              })
            ]
            else respond env cfg again 521 (text (codes "Command line too long"))
                (disconnect_now env) (emit pause_client (record c { current_data = none }))
      ]
    ]

  module _ (env : Env M) (cfg : Config) where
    -- `_process_data`
    unfoldable pub process_data : ℕ → Connection M → Connection M
    process_data zero c = c
    process_data (suc fuel) c =
        let again = process_data fuel in
        let max = if in_data c.state then cfg.max_data_line_length else cfg.max_line_length in
        let (c', returned) = line_loop env cfg again fuel max c in
        if closing c.state then c else if returned then c' else check_length env cfg again max c'

    -- `process_data`: the bytes join those that are left over.
    unfoldable receive : ℕ → Text → Connection M → Connection M
    receive fuel bytes c =
        if closing c.state
        then c
        else process_data fuel (record c {
          current_data = some (elim c.current_data [ none ↦ bytes | some old ↦ old ++ bytes ]);
        })
