-- ===== src/Outbound/Delivery/State.antt =====
-- What `try_deliver_host_on_socket` of email/outbound/hmail.js keeps while it talks to a server.
use companyly_microservices.Base.{ℕ, Bool, Option, List, Text}
use companyly_microservices.Outbound.Delivery.Reply.{Reply}

-- The command whose reply is awaited.
pub data Command : Type 0 where
  connect connect_lmtp ehlo lhlo helo starttls auth mail rcpt data_cmd dot dot_lmtp quit rset :
      Command

-- `dsn_action` of a recipient.
pub data Action : Type 0 where
  delayed failed : Action

-- What happens outside: lines written, calls of the pool and of the queue item, marks put on the
-- recipients, and callbacks that are waited for. `type_error` is a use of a missing recipient.
pub data Event (A : Type 0) : Type 0 where
  wrote : Text → Event A
  release : Bool → Event A
  retry_host : Event A
  temp_fail : Text → Event A
  bounce : Text → Event A
  split_deferred split_rejected : List A → Event A
  delivered : Text → Event A
  discard : Event A
  mark : A → Action → Reply → List Text → Event A
  unreadable : A → Text → Event A
  ask_nogo upgrade await_secure stream_body end_socket type_error : Event A

-- `smtp_properties`
pub record Props : Type 0 where
  pub tls : Bool
  pub max_size : Option Text
  pub eightbitmime : Bool
  pub enh_status_codes : Bool
  pub smtp_utf8 : Bool
  pub auth : Option (List Text)

pub record Mx : Type 0 where
  pub exchange : Text
  pub using_lmtp : Bool
  pub bind_helo : Text
  pub auth_user : Option Text
  pub auth_pass : Option Text
  pub auth_type : Option Text

-- The configuration that the dialogue reads, and what it calls of others: `no_tls` tells whether
-- the host or the domain is on the list without TLS.
pub record Config (A : Type 0) : Type 0 where
  pub pooling : Bool
  pub enable_tls : Bool
  pub tls_loaded : Bool
  pub no_tls : Bool
  pub force_tls : Bool
  pub mail_from : Bool → Text
  pub format : Bool → A → Text
  pub base64 : Text → Text
  pub cram_md5_response : Text → Text → Text → Text

pub record Dialog (A : Type 0) : Type 0 where
  pub processing_mail : Bool
  pub command : Command
  pub response : List Text
  pub recip_index : ℕ
  pub recipients : List A
  pub lmtp_rcpt_idx : ℕ
  pub last_recip : Option A
  pub ok_recips : List A
  pub fail_recips : List A
  pub bounce_recips : List A
  pub secured : Bool
  pub authenticating : Bool
  pub authenticated : Bool
  pub smtp_properties : Props
  pub mx : Mx
  pub fp_called : Bool
  pub fin_sent : Bool
  pub writable : Bool
  pub is_secure : Bool
  pub events : List (Event A)
