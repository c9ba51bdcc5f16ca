-- ===== src/SmtpClient/State.antt =====
-- What `SMTPClient` of email/smtp_client.js keeps of a connection to another server.
use companyly_microservices.Base.{Bool, List, Text}

pub data ClientState : Type 0 where
  idle active released destroyed : ClientState

pub data Command : Type 0 where
  greeting ehlo helo xclient starttls auth mail rcpt data_cmd mailbody dot rset quit : Command

-- The events that a client emits for those that listen.
pub data Signal : Type 0 where
  auth_username auth_password auth_done capabilities helo_done quit_done : Signal
  say_hello say_ehlo xclient_done : Signal
  replied : Command → Signal
  bad_code : Text → Text → Signal
  error connection_error : Text → Signal

-- What happens outside: lines written, calls of the pool and of the socket, and signals.
pub data Event : Type 0 where
  wrote : Text → Event
  signal : Signal → Event
  pool_release pool_destroy upgrade body_piped : Event

-- `returning` is set while the client's own listeners, which `release` puts in place of all others,
-- wait for the reply to RSET.
pub record Client : Type 0 where
  pub state : ClientState
  pub command : Command
  pub response : List Text
  pub connected : Bool
  pub authenticating : Bool
  pub authenticated : Bool
  pub xclient : Bool
  pub has_pool : Bool
  pub returning : Bool
  pub events : List Event
