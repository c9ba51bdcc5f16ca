-- ===== src/Connection/State.antt =====
-- The state of email/connection.js, what a step does outside it, and what it uses of others.
use companyly_microservices.Base.{ℕ, Bool, Option, List, Text}
use companyly_microservices.Transaction.State.{Count, Transaction}

-- `constants.connection.state` of haraka-constants.
pub data State : Type 0 where
  cmd loop data_lines pause pause_smtp pause_data disconnecting disconnected : State

-- The return values of a hook. `disconnect` of haraka-constants is another name of
-- `denydisconnect`; `other` is any value that the code does not name.
pub data Retval : Type 0 where
  ok cont deny denysoft denydisconnect denysoftdisconnect next_hook other : Retval

-- What a plugin gives as `msg`.
pub data Msg : Type 0 where
  no_msg : Msg
  text : Text → Msg
  lines : List Text → Msg
  dsn : ℕ → Text → Msg

pub data Verb : Type 0 where
  helo ehlo : Verb

abbrev pub Params : Type 0
Params = List (Text × Option Text)

-- The PROXY command's five fields.
pub record Proxied : Type 0 where
  pub proto : Text
  pub src_ip : Text
  pub dst_ip : Text
  pub src_port : Text
  pub dst_port : Text

-- The closures that `reset_transaction` is given.
pub data Callback : Type 0 where
  nothing : Callback
  then_resume : Callback
  then_disconnect : Callback
  then_hello : Verb → Text → Callback
  then_mail : Text → Params → Callback
  then_proxy : Proxied → Callback

pub data Hook : Type 0 where
  connect_init lookup_rdns connect capabilities quit rset vrfy noop : Hook
  unrecognized_command : List Text → Hook
  hello : Verb → Text → Hook
  mail : Text → Params → Hook
  rcpt : Text → Params → Hook
  rcpt_ok : Text → Hook
  data_start max_data_exceeded data_post queue queue_outbound : Hook
  queue_ok : Msg → Hook
  reset : Callback → Hook
  disconnect : Hook
  named : Msg → Hook

-- What a step does outside the connection's own fields; `type_error` is a use of a missing value,
-- which throws. The code of a `write` is the number that
-- each of its lines begins with.
pub data Event : Type 0 where
  write : ℕ → Text → Event
  run : Hook → Event
  pause_client resume_client end_client destroy_client : Event
  process_later : Event
  reverse_dns : Text → Event
  send_email end_data : Event
  to_master : Text → List Text → Event
  type_error : Event

pub record Local : Type 0 where
  pub ip : Option Text
  pub port : ℕ
  pub host : Text
  pub info : Text

pub record Remote : Type 0 where
  pub ip : Option Text
  pub port : ℕ
  pub host : Option Text
  pub info : Option Text
  pub closed : Bool
  pub is_private : Bool
  pub is_local : Bool

pub record Hello : Type 0 where
  pub host : Option Text
  pub verb : Option Verb

pub record Tls : Type 0 where
  pub enabled : Bool
  pub cipher : Option Text

pub record Proxy : Type 0 where
  pub allowed : Bool
  pub ip : Option Text
  pub type : Option Text
  pub timer : Bool

-- What the constructor reads from the configuration, and the host's name.
pub record Config : Type 0 where
  pub ehlo_hello_message : Text
  pub connection_close_message : Text
  pub smtpgreeting : List Text
  pub banner_includes_uuid : Bool
  pub deny_includes_uuid : ℕ
  pub max_bytes : ℕ
  pub max_mime_parts : ℕ
  pub max_line_length : ℕ
  pub max_data_line_length : ℕ
  pub strict_rfc1869 : Bool
  pub smtputf8 : Bool
  pub add_received : Bool
  pub max_received : ℕ
  pub max_header_lines : ℕ
  pub clean_auth_results : Bool
  pub internalcmd_key : Option Text
  pub hostname : Text

-- A connection. The newest event stands first in `events`, the newest result in `auth_results`.
pub record Connection (M : Type 0) : Type 0 where
  pub local : Local
  pub remote : Remote
  pub hello : Hello
  pub tls : Tls
  pub proxy : Proxy
  pub current_data : Option Text
  pub current_line : Text
  pub state : State
  pub prev_state : Option State
  pub binary : Bool
  pub loop_code : ℕ
  pub loop_msg : Msg
  pub uuid : Text
  pub transaction : Option (Transaction M)
  pub tran_count : ℕ
  pub capabilities : List Text
  pub early_talker : Bool
  pub pipelining : Bool
  pub relaying : Bool
  pub esmtp : Bool
  pub last_response : Text
  pub last_reject : Text
  pub totalbytes : ℕ
  pub rcpt_count : Count
  pub msg_count : Count
  pub errors : ℕ
  pub last_rcpt_msg : Msg
  pub authheader : Option Text
  pub auth_results : List Text
  pub writable : Bool
  pub events : List Event
