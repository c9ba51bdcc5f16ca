-- ===== src/Connection/Commands.antt =====
-- email/connection.js: the SMTP commands other than DATA.
use companyly_microservices.Base.{
  ◌+◌, Bool, false, Option, none, some, List, [], ◌∷◌, ◌++◌, Text, ◌&&◌, ◌||◌, not, ◌==◌,
  if◌then◌else◌, codes, is_empty, text_eq, split_at, reverse,
}
use companyly_microservices.Transaction.State.{Transaction}
use companyly_microservices.Rfc1869
use companyly_microservices.Rfc1869.{Kind, skip_spaces, last_word, parse, all}
use companyly_microservices.Connection.State.{
  helo, ehlo, text, lines, Params, Proxied, then_hello, then_mail, then_proxy, quit, rset, vrfy,
  noop, rcpt, to_master, Config, Connection,
}
use companyly_microservices.Connection.Reset.{
  Env, emit, run_hooks, is_relaying, reset_transaction, disconnect_now,
}
use companyly_microservices.Connection.Respond.{respond, idle}
use companyly_microservices.Connection.Words.{
  split_spaces, first_word, other_words, contains, params_of, size_above, match_proxy,
}

module _ {M : Type 0} (env : Env M) (cfg : Config) (again : Connection M → Connection M) where
  -- The `switch` falls through from TCP4 to TCP6; UNKNOWN is refused.
  unfoldable pub has_valid_ips : Proxied → Bool
  has_valid_ips p =
      let v4 = env.is_valid_ipv4 p.src_ip && env.is_valid_ipv4 p.dst_ip in
      let v6 = env.is_valid_ipv6 p.src_ip && env.is_valid_ipv6 p.dst_ip in
      if text_eq p.proto (codes "TCP4")
      then v4 || v6
      else if text_eq p.proto (codes "TCP6")
      then v6
      else false

  unfoldable pub refuse_proxy : Text → Connection M → Connection M
  refuse_proxy msg c = disconnect_now env (respond env cfg again 421 (text msg) idle c)

  unfoldable pub cmd_proxy : Text → Connection M → Connection M
  cmd_proxy line c =
      if not c.proxy.allowed
      then refuse_proxy
          (codes "PROXY not allowed from "
            ++ elim c.remote.ip [ none ↦ codes "null" | some ip ↦ ip ])
          c
      else elim (match_proxy (reverse (split_at 32 line))) [
        | none ↦ refuse_proxy (codes "Invalid PROXY format") c
        | some p ↦
            if has_valid_ips p
            then reset_transaction env (then_proxy p) c
            else refuse_proxy (codes "Invalid PROXY format") c
      ]

  -- The command and its arguments, once the key is checked.
  unfoldable pub send_internal : List Text → Connection M → Connection M
  send_internal words c =
      if is_empty (first_word words)
      then respond env cfg again 501 (text (codes "No command given")) idle c
      else respond env cfg again 250
          (text (codes "Command sent for execution. Check Haraka logs for results.")) idle
          (emit (to_master (first_word words) (other_words words)) c)

  unfoldable pub cmd_internalcmd : Text → Connection M → Connection M
  cmd_internalcmd line c =
      let words = split_spaces line in
      let key : Text = elim cfg.internalcmd_key [ none ↦ codes "null" | some k ↦ k ] in
      let has_key : Bool = elim cfg.internalcmd_key [ none ↦ false | some k ↦ not (is_empty k) ] in
      if not c.remote.is_local
      then respond env cfg again 501 (text (codes "INTERNALCMD not allowed remotely")) idle c
      else if contains (codes "key:") (first_word words)
      then if text_eq (first_word words) (codes "key:" ++ key)
        then send_internal (other_words words) c
        else respond env cfg again 501 (text (codes "Invalid internalcmd_key - check config")) idle
            c
      else if has_key
      then respond env cfg again 501 (text (codes "Missing internalcmd_key - check config")) idle c
      else send_internal words c

  unfoldable pub cmd_helo : Text → Connection M → Connection M
  cmd_helo line c =
      let host = first_word (split_spaces line) in
      if is_empty host
      then respond env cfg again 501
          (text (codes "HELO requires domain/address - see RFC-2821 4.1.1.1")) idle c
      else reset_transaction env (then_hello helo host) c

  unfoldable pub cmd_ehlo : Text → Connection M → Connection M
  cmd_ehlo line c =
      let host = first_word (split_spaces line) in
      if is_empty host
      then respond env cfg again 501
          (text (codes "EHLO requires domain/address - see RFC-2821 4.1.1.1")) idle c
      else reset_transaction env (then_hello ehlo host) c

  unfoldable pub cmd_quit : Text → Connection M → Connection M
  cmd_quit args c =
      if is_empty args
      then run_hooks quit c
      else respond env cfg again 501 (text (codes "Syntax error")) idle c

  unfoldable pub cmd_rset : Text → Connection M → Connection M
  cmd_rset args c =
      if is_empty args
      then run_hooks rset c
      else respond env cfg again 501 (text (codes "Syntax error")) idle c

  unfoldable pub cmd_vrfy : Connection M → Connection M
  cmd_vrfy c = run_hooks vrfy c

  unfoldable pub cmd_noop : Connection M → Connection M
  cmd_noop c = run_hooks noop c

  unfoldable pub cmd_help : Connection M → Connection M
  cmd_help c = respond env cfg again 250 (text (codes "Not implemented")) idle c

  -- The address and the words behind it; `none` where the parser or the address throws.
  unfoldable pub parse_path : Kind → Text → Connection M → Option (Text × List Text)
  parse_path kind line c = elim (parse kind line (cfg.strict_rfc1869 && not (is_relaying c))) [
    | none ↦ none
    | some words ↦ elim (env.new_address (first_word words)) [
      | none ↦ none
      | some a ↦ some (a, other_words words)
    ]
  ]

  -- The second line of the reply is the error's text, which is not modelled.
  unfoldable pub parse_failed : Connection M → Connection M
  parse_failed c =
      respond env cfg again 501 (lines (codes "Command parsing failed" ∷ [])) idle
        (record c { errors = c.errors + 1 })

  -- `cmd_mail`, once the path is parsed.
  unfoldable pub take_mail : Text → Params → Connection M → Connection M
  take_mail from params c =
      if not c.esmtp && not (is_empty params)
      then respond env cfg again 555 (text (codes "Invalid command parameters")) idle c
      else if size_above 0 params && (not (cfg.max_bytes == 0) && size_above cfg.max_bytes params)
      then respond env cfg again 550 (text (codes "Message too big!")) idle c
      else reset_transaction env (then_mail from params) c

  unfoldable pub cmd_mail : Text → Connection M → Connection M
  cmd_mail line c =
      let greeted : Bool = elim c.hello.host [ none ↦ false | some h ↦ not (is_empty h) ] in
      if not greeted
      then respond env cfg again 503 (text (codes "Use EHLO/HELO before MAIL")) idle
          (record c { errors = c.errors + 1 })
      else if not (is_relaying c) && (c.local.port == 587 || c.local.port == 465)
      then respond env cfg again 550 (text (codes "Authentication required")) idle
          (record c { errors = c.errors + 1 })
      else elim (parse_path Rfc1869.mail line c) [
        | none ↦ parse_failed c
        | some (from, words) ↦ take_mail from (params_of words) c
      ]

  -- `cmd_rcpt`, once the path is parsed.
  unfoldable pub take_rcpt : Text → Params → Transaction M → Connection M → Connection M
  take_rcpt to params t c =
      if not c.esmtp && not (is_empty params)
      then respond env cfg again 555 (text (codes "Invalid command parameters")) idle c
      else run_hooks (rcpt to params)
          (record c { transaction = some (record t { rcpt_to = to ∷ t.rcpt_to }) })

  unfoldable pub need_mail : Connection M → Connection M
  need_mail c =
      respond env cfg again 503 (text (codes "Use MAIL before RCPT")) idle
        (record c { errors = c.errors + 1 })

  unfoldable pub cmd_rcpt : Text → Connection M → Connection M
  cmd_rcpt line c = elim c.transaction [
    | none ↦ need_mail c
    | some t ↦ elim t.mail_from [
      | none ↦ need_mail c
      | some from ↦ elim (parse_path Rfc1869.rcpt line c) [
        | none ↦ parse_failed c
        | some (to, words) ↦ take_rcpt to (params_of words) t c
      ]
    ]
  ]
