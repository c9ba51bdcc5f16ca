-- ===== src/Connection/Greeting.antt =====
-- email/connection.js: the answers to the hooks before and beside a transaction: connect, rDNS,
-- HELO, EHLO, QUIT, VRFY, NOOP, RSET and unknown commands.
use companyly_microservices.Base.{
  ◌+◌, true, Option, none, some, List, [], ◌∷◌, ◌++◌, Text, ◌||◌, if◌then◌else◌, codes, decimal,
  is_empty, text_eq,
}
use companyly_microservices.Connection.State.{
  Retval, ok, deny, denysoft, denydisconnect, denysoftdisconnect, next_hook, Msg, text, lines,
  lookup_rdns, connect, capabilities, named, reverse_dns, Config, Connection, nothing,
}
use companyly_microservices.Connection.Reset.{
  Env, emit, run_hooks, set_hello, reset_transaction, disconnect_now,
}
use companyly_microservices.Connection.Respond.{or_default, respond, loop_respond, idle}

-- A literal as a message.
abbrev pub say : Text → Msg
say s = text s

-- The text of a plugin's message, `msg || 'Unknown'` being put in the host's place.
unfoldable pub text_or : Msg → Text → Text
text_or (text []) d = d
text_or (text (c ∷ s)) d = c ∷ s
text_or _ d = d

abbrev first_line : List Text → (Text → Text) → List Text
first_line [] f = []
first_line (s ∷ ls) f = f s ∷ ls

-- The answer of the resolver.
pub data Resolved : Type 0 where
  not_found failed : Resolved
  domains : List Text → Resolved

module _ {M : Type 0} where
  -- `get_remote`, of the host or of the info.
  unfoldable pub get_remote : Option Text → Connection M → Text
  get_remote prop c =
      let ip : Text = elim c.remote.ip [ none ↦ codes "null" | some s ↦ s ] in
      let unknown : Text = codes "[" ++ ip ++ codes "]" in
      elim prop [
        | none ↦ unknown
        | some s ↦
            if is_empty s || text_eq s (codes "NXDOMAIN") || text_eq s (codes "DNSERROR")
            then unknown
            else s ++ codes " [" ++ ip ++ codes "]"
      ]

  -- `remote.info || remote.host`
  unfoldable pub set_remote_host : Text → Connection M → Connection M
  set_remote_host host c = record c {
    remote = record c.remote {
      host = some host;
      info = elim c.remote.info [
        | none ↦ some host
        | some s ↦ if is_empty s then some host else some s
      ];
    };
  }

  unfoldable pub connect_init_respond : Connection M → Connection M
  connect_init_respond c = run_hooks lookup_rdns c

  unfoldable rdns_response : Resolved → Connection M → Connection M
  rdns_response not_found c = run_hooks connect (set_remote_host (codes "NXDOMAIN") c)
  rdns_response failed c = run_hooks connect (set_remote_host (codes "DNSERROR") c)
  rdns_response (domains []) c = run_hooks connect (set_remote_host (codes "Unknown") c)
  rdns_response (domains (d ∷ ds)) c =
      run_hooks connect (set_remote_host (if is_empty d then codes "Unknown" else d) c)

  module _ (env : Env M) (cfg : Config) (again : Connection M → Connection M) where
    unfoldable pub lookup_rdns_respond : Retval → Msg → Connection M → Connection M
    lookup_rdns_respond ok msg c =
        run_hooks connect (set_remote_host (text_or msg (codes "Unknown")) c)
    lookup_rdns_respond deny msg c =
        loop_respond env cfg again 554 (or_default msg (say (codes "rDNS Lookup Failed"))) c
    lookup_rdns_respond denydisconnect msg c =
        respond env cfg again 554 (or_default msg (say (codes "rDNS Lookup Failed")))
          (disconnect_now env) c
    lookup_rdns_respond denysoft msg c =
        loop_respond env cfg again 421 (or_default msg (say (codes "rDNS Temporary Failure"))) c
    lookup_rdns_respond denysoftdisconnect msg c =
        respond env cfg again 421 (or_default msg (say (codes "rDNS Temporary Failure")))
          (disconnect_now env) c
    lookup_rdns_respond _ msg c =
        emit (reverse_dns (elim c.remote.ip [ none ↦ [] | some ip ↦ ip ])) c

    unfoldable pub unrecognized_command_respond : Retval → Msg → Connection M → Connection M
    unrecognized_command_respond ok msg c = c
    unrecognized_command_respond next_hook msg c = run_hooks (named msg) c
    unrecognized_command_respond deny msg c =
        respond env cfg again 500 (or_default msg (say (codes "Unrecognized command"))) idle c
    unrecognized_command_respond denydisconnect msg c =
        respond env cfg again 521 (or_default msg (say (codes "Unrecognized command")))
          (disconnect_now env) c
    unrecognized_command_respond denysoftdisconnect msg c =
        respond env cfg again 421 (or_default msg (say (codes "Unrecognized command")))
          (disconnect_now env) c
    unrecognized_command_respond _ msg c =
        respond env cfg again 500 (or_default msg (say (codes "Unrecognized command"))) idle
          (record c { errors = c.errors + 1 })

    unfoldable pub greeting : Connection M → Msg
    greeting c =
        let tail : Text =
          if cfg.banner_includes_uuid then codes " (" ++ c.uuid ++ codes ")" else [] in
        if is_empty cfg.smtpgreeting
        then text (c.local.host ++ codes " ESMTP " ++ c.local.info ++ codes " ready" ++ tail)
        else lines (first_line cfg.smtpgreeting (λ s. c.local.host ++ codes " ESMTP " ++ s ++ tail))

    unfoldable pub connect_respond : Retval → Msg → Connection M → Connection M
    connect_respond deny msg c =
        loop_respond env cfg again 554
          (or_default msg (say (codes "Your mail is not welcome here"))) c
    connect_respond denydisconnect msg c =
        respond env cfg again 554 (or_default msg (say (codes "Your mail is not welcome here")))
          (disconnect_now env) c
    connect_respond denysoft msg c =
        loop_respond env cfg again 421 (or_default msg (say (codes "Come back later"))) c
    connect_respond denysoftdisconnect msg c =
        respond env cfg again 421 (or_default msg (say (codes "Come back later")))
          (disconnect_now env) c
    connect_respond _ msg c = respond env cfg again 220 (or_default msg (greeting c)) idle c

    -- The closure of a refused greeting.
    abbrev forget_hello : Connection M → Connection M
    forget_hello c = set_hello none none c

    unfoldable pub hello_text : Connection M → Text
    hello_text c =
        c.local.host ++ codes " Hello " ++ get_remote c.remote.host c ++ cfg.ehlo_hello_message

    unfoldable pub helo_respond : Retval → Msg → Connection M → Connection M
    helo_respond deny msg c =
        respond env cfg again 550 (or_default msg (say (codes "HELO denied"))) forget_hello c
    helo_respond denydisconnect msg c =
        respond env cfg again 550 (or_default msg (say (codes "HELO denied"))) (disconnect_now env)
          c
    helo_respond denysoft msg c =
        respond env cfg again 450 (or_default msg (say (codes "HELO denied"))) forget_hello c
    helo_respond denysoftdisconnect msg c =
        respond env cfg again 450 (or_default msg (say (codes "HELO denied"))) (disconnect_now env)
          c
    helo_respond _ msg c = respond env cfg again 250 (text (hello_text c)) idle c

    unfoldable pub capability_lines : Connection M → List Text
    capability_lines c =
        hello_text c
        ∷ codes "PIPELINING"
        ∷ codes "8BITMIME"
        ∷ ((if cfg.smtputf8 then codes "SMTPUTF8" ∷ [] else [])
            ++ (codes "SIZE " ++ decimal cfg.max_bytes) ∷ [])

    unfoldable pub ehlo_respond : Retval → Msg → Connection M → Connection M
    ehlo_respond deny msg c =
        respond env cfg again 550 (or_default msg (say (codes "EHLO denied"))) forget_hello c
    ehlo_respond denydisconnect msg c =
        respond env cfg again 550 (or_default msg (say (codes "EHLO denied"))) (disconnect_now env)
          c
    ehlo_respond denysoft msg c =
        respond env cfg again 450 (or_default msg (say (codes "EHLO denied"))) forget_hello c
    ehlo_respond denysoftdisconnect msg c =
        respond env cfg again 450 (or_default msg (say (codes "EHLO denied"))) (disconnect_now env)
          c
    ehlo_respond _ msg c =
        let c' = run_hooks capabilities (record c { capabilities = capability_lines c }) in
        record c' { esmtp = true }

    unfoldable pub capabilities_respond : Connection M → Connection M
    capabilities_respond c = respond env cfg again 250 (lines c.capabilities) idle c

    unfoldable pub quit_respond : Msg → Connection M → Connection M
    quit_respond msg c =
        respond env cfg again 221
          (or_default msg (text (c.local.host ++ codes " " ++ cfg.connection_close_message)))
          (disconnect_now env) c

    unfoldable pub vrfy_respond : Retval → Msg → Connection M → Connection M
    vrfy_respond deny msg c =
        respond env cfg again 550 (or_default msg (say (codes "Access Denied")))
          (reset_transaction env nothing) c
    vrfy_respond denydisconnect msg c =
        respond env cfg again 550 (or_default msg (say (codes "Access Denied")))
          (disconnect_now env) c
    vrfy_respond denysoft msg c =
        respond env cfg again 450 (or_default msg (say (codes "Lookup Failed")))
          (reset_transaction env nothing) c
    vrfy_respond denysoftdisconnect msg c =
        respond env cfg again 450 (or_default msg (say (codes "Lookup Failed")))
          (disconnect_now env) c
    vrfy_respond ok msg c =
        respond env cfg again 250 (or_default msg (say (codes "User OK"))) idle c
    vrfy_respond _ msg c =
        respond env cfg again 252
          (say (codes "Just try sending a mail and we'll see how it turns out...")) idle c

    unfoldable pub noop_respond : Retval → Msg → Connection M → Connection M
    noop_respond deny msg c =
        respond env cfg again 500 (or_default msg (say (codes "Stop wasting my time"))) idle c
    noop_respond denydisconnect msg c =
        respond env cfg again 500 (or_default msg (say (codes "Stop wasting my time")))
          (disconnect_now env) c
    noop_respond _ msg c = respond env cfg again 250 (say (codes "OK")) idle c

    unfoldable pub rset_respond : Connection M → Connection M
    rset_respond c = respond env cfg again 250 (say (codes "OK")) (reset_transaction env nothing) c
