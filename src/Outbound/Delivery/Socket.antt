-- ===== src/Outbound/Delivery/Socket.antt =====
-- The start of a delivery in email/outbound/hmail.js, and the events of its socket.
use companyly_microservices.Base.{
  Bool, true, false, none, some, List, [], ◌&&◌, not, if◌then◌else◌, codes,
}
use companyly_microservices.Outbound.Delivery.State.{
  connect, connect_lmtp, dot, dot_lmtp, release, temp_fail, end_socket, retry_host, Mx, Config,
  Dialog,
}
use companyly_microservices.Outbound.Delivery.Dialog.{emit, give_back, send_command, send_mail}
use companyly_microservices.Outbound.Delivery.Ehlo.{no_props}

module _ {A : Type 0} (cfg : Config A) where
  -- The end of the message's file, the callback of `upgrade`, and the events of the socket.
  unfoldable body_sent : Dialog A → Dialog A
  body_sent d =
      if d.mx.using_lmtp
      then send_command cfg dot_lmtp (codes ".") d
      else send_command cfg dot (codes ".") d

  unfoldable upgraded : Bool → Dialog A → Dialog A
  upgraded authorized d =
      if cfg.force_tls && not authorized
      then emit (release true) (
          emit (temp_fail (codes "Host failed TLS verification required by configuration."))
            (emit end_socket (record d { processing_mail = false })))
      else d

  unfoldable pub socket_error : Dialog A → Dialog A
  socket_error d = if d.processing_mail then emit retry_host (give_back d) else d

  unfoldable pub socket_close : Dialog A → Dialog A
  socket_close d = if d.processing_mail then emit retry_host (give_back d) else d

  unfoldable socket_end : Dialog A → Dialog A
  socket_end d =
      let d' = record d { fin_sent = true; writable = false } in
      if d.processing_mail then d' else emit (release true) d'

  -- The start, on a new connection or on one from the pool.
  unfoldable pub start : Bool → Bool → Mx → List A → Dialog A
  start from_pool encrypted mx recipients =
      let d : Dialog A = record {
        processing_mail = true;
        command = if mx.using_lmtp then connect_lmtp else connect;
        response = [];
        recip_index = 0;
        recipients = recipients;
        lmtp_rcpt_idx = 0;
        last_recip = none;
        ok_recips = [];
        fail_recips = [];
        bounce_recips = [];
        secured = from_pool && encrypted;
        authenticating = false;
        authenticated = false;
        smtp_properties = record no_props { auth = some [] };
        mx = mx;
        fp_called = false;
        fin_sent = false;
        writable = true;
        is_secure = encrypted;
        events = [];
      } in
      if from_pool then send_mail cfg d else d
