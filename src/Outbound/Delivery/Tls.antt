-- ===== src/Outbound/Delivery/Tls.antt =====
-- Forced TLS in email/outbound/hmail.js: what becomes of a delivery whose command is held back.
use companyly_microservices.Base.{true, false, ◌≡◌, refl, [], ◌∷◌, ◌++◌, arith, Text}
use companyly_microservices.Outbound.Delivery.Reply.{Reply, class}
use companyly_microservices.Outbound.Delivery.State.{ehlo, release, Config, Dialog}
use companyly_microservices.Outbound.Delivery.Dialog.{send_command}
use companyly_microservices.Outbound.Delivery.Lines.{hear, on_reply, on_5xx, on_line}
use companyly_microservices.Outbound.Delivery.Socket.{socket_error, socket_close}
use companyly_microservices.Outbound.Delivery.Recipients.{outcomes}

module _ {A : Type 0} (cfg : Config A) where
  -- The dialogue that was held back.
  pub record Stranded (before after : Dialog A) : Type 0 where
    pub same_outcomes : outcomes after.events ≡ outcomes before.events
    pub ignores_lines : (line : Text) → on_line cfg line after ≡ after
    pub ignores_error : socket_error cfg after ≡ after
    pub ignores_close : socket_close cfg after ≡ after

  abbrev held : Reply → Dialog A → Dialog A
  held r d = record d {
    response = d.response ++ r.rest ∷ [];
    processing_mail = false;
    authenticating = false;
    events = release true ∷ d.events;
  }

  hear-eq-held :
      (r : Reply) (d : Dialog A)
      → d.command ≡ ehlo
      → class r ≡ 5
      → r.more ≡ false
      → d.writable ≡ true
      → cfg.force_tls ≡ true
      → d.is_secure ≡ false
      → hear cfg r d ≡ held r d
  unfolding hear on_reply on_5xx send_command
  hear-eq-held r d c k m w f u = ground arith

  held-Stranded : (r : Reply) (d : Dialog A) → d.command ≡ ehlo → Stranded d (held r d)
  unfolding on_line socket_error socket_close
  held-Stranded r d c = record {
    same_outcomes = refl;
    ignores_lines = λ line. rw c refl;
    ignores_error = refl;
    ignores_close = refl;
  }

  -- Forced TLS, a connection in the clear and a server that refuses EHLO: HELO is held back, and
  -- the delivery stops with no outcome for the message; no later line, error or close of the socket
  -- gives one.
  pub hear-Stranded :
      (r : Reply) (d : Dialog A)
      → d.command ≡ ehlo
      → class r ≡ 5
      → r.more ≡ false
      → d.writable ≡ true
      → cfg.force_tls ≡ true
      → d.is_secure ≡ false
      → Stranded d (hear cfg r d)
  hear-Stranded r d c k m w f u = rw (hear-eq-held r d c k m w f u) (held-Stranded r d c)
