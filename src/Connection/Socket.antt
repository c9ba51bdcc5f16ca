-- ===== src/Connection/Socket.antt =====
-- email/connection.js: a new connection and the events of its socket, and `setTLS`.
use companyly_microservices.Base.{
  ℕ, Bool, true, false, Option, none, some, [], Text, if◌then◌else◌, codes,
}
use companyly_microservices.Transaction.State.{no_count}
use companyly_microservices.Connection.State.{
  pause, text, no_msg, connect_init, destroy_client, Config, Connection,
}
use companyly_microservices.Connection.Reset.{
  Env, closing, emit, run_hooks, set_remote_ip, disconnect_now, fail,
}
use companyly_microservices.Connection.Respond.{is_disconnected, respond}

-- What the socket and the server say of the connection.
pub record Client : Type 0 where
  pub remote_address : Option Text
  pub remote_port : ℕ
  pub local_address : Text
  pub local_port : ℕ
  pub has_tls : Bool
  pub from_proxy : Bool

module _ {M : Type 0} where
  -- The constructor, up to `setupClient`, with the name of the host, the info line and the uuid.
  unfoldable pub new_connection : Text → Text → Text → Bool → Connection M
  new_connection host info uuid has_tls = record {
    local = record { ip = none; port = 0; host = host; info = info };
    remote = record {
      ip = none;
      port = 0;
      host = none;
      info = none;
      closed = false;
      is_private = false;
      is_local = false;
    };
    hello = record { host = none; verb = none };
    tls = record { enabled = has_tls; cipher = none };
    proxy = record { allowed = false; ip = none; type = none; timer = false };
    current_data = none;
    current_line = [];
    state = pause;
    prev_state = none;
    binary = false;
    loop_code = 0;
    loop_msg = no_msg;
    uuid = uuid;
    transaction = none;
    tran_count = 0;
    capabilities = [];
    early_talker = false;
    pipelining = false;
    relaying = false;
    esmtp = false;
    last_response = [];
    last_reject = [];
    totalbytes = 0;
    rcpt_count = no_count;
    msg_count = no_count;
    errors = 0;
    last_rcpt_msg = no_msg;
    authheader = none;
    auth_results = [];
    writable = true;
    events = [];
  }

  unfoldable set_tls : Option Text → Connection M → Connection M
  set_tls cipher c = record c {
    hello = record c.hello { host = none };
    tls = record { enabled = true; cipher = elim cipher [ none ↦ c.tls.cipher | some s ↦ some s ] };
  }

  module _ (env : Env M) where
    -- `setupClient`; `from_proxy` is the match of the remote address with the list of HAProxy hosts.
    unfoldable setup_client : Client → Connection M → Connection M
    setup_client cl c = elim cl.remote_address [
      | none ↦ emit destroy_client c
      | some ip ↦
          let c1 = set_remote_ip env ip (record c {
            local = record c.local { ip = some cl.local_address; port = cl.local_port };
          }) in
          let c2 = record c1 { remote = record c1.remote { port = cl.remote_port } } in
          if cl.from_proxy
          then record c2 { proxy = record c2.proxy { allowed = true; timer = true } }
          else run_hooks connect_init c2
    ]

    -- The events `end` and `close`.
    unfoldable client_closed : Connection M → Connection M
    client_closed c =
        if closing c.state
        then c
        else fail env (record c { remote = record c.remote { closed = true } })

    unfoldable client_error : Connection M → Connection M
    client_error c = if closing c.state then c else fail env c

  module _ (env : Env M) (cfg : Config) (again : Connection M → Connection M) where
    unfoldable client_timeout : Connection M → Connection M
    client_timeout c =
        if is_disconnected c.state
        then emit destroy_client c
        else if closing c.state
        then c
        else respond env cfg again 421 (text (codes "timeout")) (fail env) c

    -- The timer that waits for the PROXY command, when it fires.
    unfoldable proxy_timeout : Connection M → Connection M
    proxy_timeout c =
        if c.proxy.timer
        then respond env cfg again 421 (text (codes "PROXY timeout")) (disconnect_now env)
            (record c { proxy = record c.proxy { timer = false } })
        else c
