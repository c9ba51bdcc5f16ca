-- ===== src/Outbound/Delivery/Dialog.antt =====
-- The commands of a delivery in email/outbound/hmail.js: `send_command`, the EHLO reply and the
-- choice of TLS and AUTH, and `finish_processing_mail`.
use companyly_microservices.Base.{
  Bool, true, false, Option, none, some, List, [], ◌∷◌, ◌++◌, Text, ◌&&◌, not, if◌then◌else◌,
  is_empty, any, text_eq, map, to_upper, join, codes,
}
use companyly_microservices.Outbound.Delivery.Ehlo.{set_ehlo_props}
use companyly_microservices.Outbound.Delivery.State.{
  Command, ehlo, lhlo, starttls, auth, mail, quit, rset, Event, wrote, release, retry_host,
  temp_fail, split_deferred, split_rejected, delivered, discard, ask_nogo, await_secure, end_socket,
  Config, Dialog,
}

abbrev pub is_hello : Command → Bool
is_hello ehlo = true
is_hello _ = false

abbrev pub is_starttls : Command → Bool
is_starttls starttls = true
is_starttls _ = false

abbrev pub list_includes : Text → List Text → Bool
list_includes w ws = any (λ v. text_eq v w) ws

-- A text that is not empty.
abbrev pub non_empty : Option Text → Option Text
non_empty none = none
non_empty (some []) = none
non_empty (some (c ∷ s)) = some (c ∷ s)

-- `${cmd}${data ? ` ${data}` : ''}`
abbrev pub with_data : Text → Text → Text
with_data cmd [] = cmd
with_data cmd (c ∷ s) = cmd ++ 32 ∷ c ∷ s

module _ {A : Type 0} where
  abbrev pub emit : Event A → Dialog A → Dialog A
  emit e d = record d { events = e ∷ d.events }

  -- `processing_mail = false`, and the socket goes back to be closed.
  abbrev pub give_back : Dialog A → Dialog A
  give_back d = emit (release true) (record d { processing_mail = false })

module _ {A : Type 0} (cfg : Config A) where
  -- The line that is written, and the command whose reply is then awaited. Only EHLO and STARTTLS
  -- may go in the clear to a host with forced TLS.
  unfoldable pub send_command : Command → Text → Dialog A → Dialog A
  send_command cmd line d =
      if not d.writable
      then (if d.processing_mail then emit retry_host (give_back d) else d)
      else if cfg.force_tls && (not (is_hello cmd) && (not (is_starttls cmd) && not d.is_secure))
      then give_back d
      else record d {
        command = if d.authenticating then auth else cmd;
        response = [];
        events = wrote line ∷ d.events;
      }

  unfoldable pub send_mail : Dialog A → Dialog A
  send_mail d =
      send_command mail (codes "MAIL FROM:" ++ cfg.mail_from (not d.smtp_properties.smtp_utf8)) d

  unfoldable pub say_hello : Dialog A → Dialog A
  say_hello d =
      if d.mx.using_lmtp
      then send_command lhlo (with_data (codes "LHLO") d.mx.bind_helo) d
      else send_command ehlo (with_data (codes "EHLO") d.mx.bind_helo) d

  -- The type that is chosen if the configuration names none.
  unfoldable pub choose_auth : List Text → Option Text → Option Text
  choose_auth offered (some t) = some t
  choose_auth offered none =
      if list_includes (codes "CRAM-MD5") offered
      then some (codes "CRAM-MD5")
      else if list_includes (codes "PLAIN") offered
      then some (codes "PLAIN")
      else if list_includes (codes "LOGIN") offered
      then some (codes "LOGIN")
      else none

  -- AUTH by the type that was chosen.
  unfoldable pub send_auth : Text → Text → Text → Dialog A → Dialog A
  send_auth user pass type d =
      let word = map to_upper type in
      if text_eq word (codes "PLAIN")
      then send_command auth (codes "AUTH PLAIN " ++ cfg.base64 (user ++ 0 ∷ (user ++ 0 ∷ pass))) d
      else if text_eq word (codes "LOGIN")
      then send_command auth (codes "AUTH LOGIN") (record d { authenticating = true })
      else if text_eq word (codes "CRAM-MD5")
      then send_command auth (codes "AUTH CRAM-MD5") (record d { authenticating = true })
      else send_mail d

  -- With the list of types that the server offers.
  unfoldable pub auth_phase : Text → Text → List Text → Dialog A → Dialog A
  auth_phase user pass offered d =
      let chosen = choose_auth offered (non_empty d.mx.auth_type) in
      let d' = record d { mx = record d.mx { auth_type = chosen } } in
      elim chosen [
        | none ↦ send_mail d'
        | some t ↦
            if list_includes (map to_upper t) offered
            then send_auth user pass t d'
            else send_mail d'
      ]

  unfoldable pub auth_and_mail_phase : Dialog A → Dialog A
  auth_and_mail_phase d = if d.authenticated then send_mail d else elim (non_empty d.mx.auth_user) [
    | none ↦ send_mail d
    | some user ↦ elim (non_empty d.mx.auth_pass) [
      | none ↦ send_mail d
      | some pass ↦ elim d.smtp_properties.auth [
        | none ↦ send_mail d
        | some [] ↦ send_mail d
        | some (o ∷ os) ↦ auth_phase user pass (o ∷ os) d
      ]
    ]
  ]

  -- `socket.once('secure', …)`, and STARTTLS.
  unfoldable pub start_tls : Dialog A → Dialog A
  start_tls d = send_command starttls (codes "STARTTLS") (emit await_secure d)

  unfoldable pub process_ehlo_data : Dialog A → Dialog A
  process_ehlo_data d' =
      let d = record d' { smtp_properties = set_ehlo_props (d'.response) d'.smtp_properties } in
      if d.secured
      then auth_and_mail_phase d
      else if cfg.force_tls
      then (if cfg.enable_tls && d.smtp_properties.tls
          then start_tls d
          else emit (temp_fail (codes "No TLS available but required by configuration.")) (
              emit (release true) (
                emit end_socket
                  (emit (wrote (codes "QUIT")) (record d { processing_mail = false })))))
      else if not cfg.enable_tls
      then auth_and_mail_phase d
      else if not d.smtp_properties.tls
      then auth_and_mail_phase d
      else if not cfg.tls_loaded
      then auth_and_mail_phase d
      else if cfg.no_tls
      then auth_and_mail_phase d
      else emit ask_nogo d

  -- The answers to `check_tls_nogo`, and the event `secure` of the socket.
  unfoldable tls_may_go : Dialog A → Dialog A
  tls_may_go d = start_tls d

  unfoldable tls_nogo : Dialog A → Dialog A
  tls_nogo d = auth_and_mail_phase d

  unfoldable secured_now : Dialog A → Dialog A
  secured_now d = say_hello (record d { secured = true; is_secure = true })

  -- The calls of `split_to_new_recipients`.
  unfoldable pub split_off : Dialog A → Dialog A
  split_off d =
      let d1 = if is_empty d.fail_recips then d else emit (split_deferred d.fail_recips) d in
      if is_empty d.bounce_recips then d1 else emit (split_rejected d.bounce_recips) d1

  -- What becomes of the connection.
  unfoldable pub leave : Bool → Dialog A → Dialog A
  leave success d =
      if cfg.pooling && success
      then emit (release d.fin_sent) d
      else if cfg.pooling && not d.mx.using_lmtp
      then send_command rset (codes "RSET") d
      else send_command quit (codes "QUIT") d

  unfoldable pub finish_processing_mail : Bool → Dialog A → Dialog A
  finish_processing_mail success d =
      if d.fp_called
      then d
      else let d1 = record (split_off (record d { fp_called = true })) {
        processing_mail = false;
      } in
        leave success (
          if success then emit (delivered (join (codes " ") (d1.response))) d1 else emit discard d1)
