-- ===== src/Connection/Reset.antt =====
-- email/connection.js: pausing, the end of a transaction and of the connection, and the closures
-- that `reset_transaction` is given. What `run_hooks` of email/plugins.js starts is an event; the
-- answer of the hook comes back as a call of its `_respond` method.
use companyly_microservices.Base.{
  ℕ, ◌+◌, Bool, true, false, Option, none, some, [], ◌∷◌, ◌++◌, Text, ◌&&◌, not, if◌then◌else◌,
  codes, decimal, ◌-◌, ◌*◌,
}
use companyly_microservices.Transaction.State.{Parser}
use companyly_microservices.Transaction.Message.{create_transaction}
use companyly_microservices.Connection.State.{
  State, pause_data, disconnecting, disconnected, Verb, helo, ehlo, Params, Proxied, Callback,
  nothing, then_resume, then_disconnect, then_hello, then_mail, then_proxy, Hook, connect_init,
  hello, mail, reset, disconnect, Event, run, pause_client, resume_client, end_client,
  process_later, Connection,
}

-- `state >= states.DISCONNECTING`
abbrev pub closing : State → Bool
closing disconnecting = true
closing disconnected = true
closing _ = false

abbrev pub is_pause_data : State → Bool
is_pause_data pause_data = true
is_pause_data _ = false

-- `is_required_hook` of email/plugins.js, but for `log`, which no connection runs itself.
abbrev pub is_required_hook : Hook → Bool
is_required_hook (reset cb) = true
is_required_hook disconnect = true
is_required_hook _ = false

-- `parseInt(s, 10)` of digits
unfoldable pub parse_int_from : ℕ → Text → ℕ
parse_int_from n [] = n
parse_int_from n (c ∷ s) = parse_int_from (n * 10 + (c - 48)) s

-- What the code calls of others: the mail parser, `net_utils`, `ipaddr.js` and the constructor of
-- `address-rfc2821`, which fails or gives an address, known here by its `format()`; the decoding of
-- bytes (`true` for binary), the text of a DSN object, the date, and `indexOfLF` of haraka-utils.
pub record Env (M : Type 0) : Type 0 where
  pub parser : Parser M
  pub is_local_ip : Text → Bool
  pub is_private_ipv4 : Text → Bool
  pub is_valid_ipv4 : Text → Bool
  pub is_valid_ipv6 : Text → Bool
  pub new_address : Text → Option Text
  pub decode : Bool → Text → Text
  pub show_dsn : ℕ → Text → Text
  pub date : Text
  pub index_of_lf : Text → ℕ → Option ℕ

module _ {M : Type 0} where
  abbrev pub emit : Event → Connection M → Connection M
  emit e c = record c { events = e ∷ c.events }

  -- The entry of `plugins.run_hooks`: a closed connection runs only the required hooks.
  unfoldable pub run_hooks : Hook → Connection M → Connection M
  run_hooks h c = if closing c.state && not (is_required_hook h) then c else emit (run h) c

  unfoldable pub pause : Connection M → Connection M
  pause c =
      if closing c.state
      then c
      else emit pause_client (record c {
        prev_state = if is_pause_data c.state then c.prev_state else some c.state;
        state = pause_data;
      })

  unfoldable pub resume : Connection M → Connection M
  resume c =
      if closing c.state
      then c
      else emit process_later (
          emit resume_client
            (elim c.prev_state [ none ↦ c | some s ↦ record c { state = s; prev_state = none } ]))

  unfoldable pub tran_uuid : Connection M → Connection M × Text
  tran_uuid c =
      let n = c.tran_count + 1 in (record c { tran_count = n }, c.uuid ++ codes "." ++ decimal n)

  -- `set('hello', …)`
  abbrev pub set_hello : Option Text → Option Verb → Connection M → Connection M
  set_hello host verb c = record c { hello = record { host = host; verb = verb } }

  -- The setter `relaying`: it writes to the transaction, if there is one.
  unfoldable pub set_relaying : Bool → Connection M → Connection M
  set_relaying b c = elim c.transaction [
    | none ↦ record c { relaying = b }
    | some t ↦ record c { transaction = some (record t { relaying = some b }) }
  ]

  unfoldable pub is_relaying : Connection M → Bool
  is_relaying c = elim c.transaction [
    | none ↦ c.relaying
    | some t ↦ elim t.relaying [ none ↦ c.relaying | some b ↦ b ]
  ]

  module _ (env : Env M) where
    -- `set('remote.ip', ip)`
    unfoldable pub set_remote_ip : Text → Connection M → Connection M
    set_remote_ip ip c = record c {
      remote = record c.remote {
        ip = some ip;
        is_local = env.is_local_ip ip;
        is_private = if env.is_local_ip ip then true else env.is_private_ipv4 ip;
      };
    }

    -- The closure of `cmd_proxy`.
    unfoldable pub apply_proxy : Proxied → Connection M → Connection M
    apply_proxy p c =
        let c1 = record c {
          proxy = record c.proxy { ip = c.remote.ip; type = some (codes "haproxy") };
        } in
        let c2 = set_relaying false c1 in
        let c3 = record c2 {
          local = record c2.local { ip = some p.dst_ip; port = parse_int_from 0 p.dst_port };
        } in
        let c4 = set_remote_ip p.src_ip c3 in
        run_hooks connect_init (record c4 {
          remote = record c4.remote { port = parse_int_from 0 p.src_port; host = none };
          hello = record c4.hello { host = none };
        })

    -- The closures of `init_transaction` and of `cmd_mail`.
    unfoldable pub begin_mail : Text → Params → Connection M → Connection M
    begin_mail from params c =
        let (c', uuid) = tran_uuid c in
        let t = create_transaction env.parser uuid in
        let helo_said : Bool = elim c.hello.verb [
          | none ↦ false
          | some v ↦ elim v [ helo ↦ true | ehlo ↦ false ]
        ] in
        run_hooks (mail from params) (record c' {
          transaction = some (record t { mail_from = some from; binary = helo_said });
          binary = if helo_said then true else c'.binary;
        })

    unfoldable pub call_back : Callback → Connection M → Connection M
    call_back nothing c = c
    call_back then_resume c = resume c
    call_back then_disconnect c = run_hooks disconnect c
    call_back (then_hello verb host) c =
        run_hooks (hello verb host) (set_hello (some host) (some verb) c)
    call_back (then_mail from params) c = begin_mail from params c
    call_back (then_proxy p) c = apply_proxy p c

    unfoldable pub reset_transaction : Callback → Connection M → Connection M
    reset_transaction cb c = elim c.transaction [
      | none ↦ call_back cb c
      | some t ↦
          if t.resetting
          then call_back cb (record c { transaction = none })
          else let c' = pause c in
            run_hooks (reset cb) (record c' { transaction = some (record t { resetting = true }) })
    ]

    unfoldable pub reset_transaction_respond : Callback → Connection M → Connection M
    reset_transaction_respond cb c = resume (call_back cb (record c { transaction = none }))

    unfoldable pub disconnect_now : Connection M → Connection M
    disconnect_now c =
        if closing c.state
        then c
        else reset_transaction then_disconnect
            (record c { state = disconnecting; current_data = none })

    -- `fail`; the plugins' list of hooks to run is emptied in `Plugins`.
    unfoldable pub fail : Connection M → Connection M
    fail c = disconnect_now c

    unfoldable pub disconnect_respond : Connection M → Connection M
    disconnect_respond c = emit end_client (record c { state = disconnected })
