-- ===== src/Outbound/Delivery/Clear.antt =====
-- Forced TLS in email/outbound/hmail.js: what may be written on a connection in the clear.
pub mod Replies
use companyly_microservices.Base.{
  ◌+◌, Bool, true, false, ◌≡◌, refl, sym, ap, ◌∙◌, Option, none, some, List, [], ◌∷◌, ◌++◌, Text,
  ◌&&◌, ◌||◌, ◌==◌, not, if◌then◌else◌, is_empty, text_eq, map, to_upper, join, codes, arith,
  get_elem?, length, Option-cases, inl, inr,
}
use companyly_microservices.Outbound.Delivery.Reply.{Reply, class, read_reply}
use companyly_microservices.Outbound.Delivery.State.{
  Command, connect, connect_lmtp, ehlo, lhlo, helo, starttls, auth, mail, rcpt, data_cmd, dot,
  dot_lmtp, quit, rset, Action, delayed, failed, split_deferred, split_rejected, Event, wrote,
  release, retry_host, Config, Dialog,
}
use companyly_microservices.Outbound.Delivery.Dialog.{
  with_data, is_hello, is_starttls, emit, give_back, list_includes, non_empty, choose_auth,
  send_command, send_mail, send_auth, auth_phase, auth_and_mail_phase, start_tls, process_ehlo_data,
  split_off, leave, finish_processing_mail,
}
use companyly_microservices.Outbound.Delivery.Ehlo.{strip_prefix, set_ehlo_props}
use companyly_microservices.Outbound.Delivery.Lines.{
  mark_all, unreadable_all, unrecognized, quit_or_reset, defer_all, reject_all, challenge,
  next_recip, after_rcpt, rcpt_replied, dot_lmtp_replied, go_on, take_first, set_aside, refuse_rcpt,
  refuse_dot, on_4xx, on_5xx, on_reply, hear, on_line, is_data, is_rset, is_rcpt, is_dot_lmtp,
  is_ehlo,
}

-- EHLO, alone or with a name, STARTTLS and QUIT.
abbrev allowed : Text → Bool
allowed line = elim (strip_prefix (codes "EHLO ") line) [
  | some name ↦ true
  | none ↦
      text_eq line (codes "EHLO")
      || (text_eq line (codes "STARTTLS") || text_eq line (codes "QUIT"))
]

module _ {A : Type 0} where
  -- Every line that was written is one of these.
  unfoldable pub only_allowed : List (Event A) → Bool
  only_allowed [] = true
  only_allowed (wrote line ∷ es) = allowed line && only_allowed es
  only_allowed (e ∷ es) = only_allowed es

  -- A connection in the clear on which nothing else was written.
  pub record InClear (d : Dialog A) : Type 0 where
    pub insecure : d.is_secure ≡ false
    pub written : only_allowed d.events ≡ true

  pub keeps :
      {d e : Dialog A}
      → InClear d
      → e.is_secure ≡ d.is_secure
      → only_allowed e.events ≡ only_allowed d.events
      → InClear e
  keeps q s w = record { insecure = s ∙ q.insecure; written = w ∙ q.written }

  pub unless : (b : Bool) (x y : Dialog A) → InClear x → InClear y → InClear (if b then x else y)
  unless true x y p q = p
  unless false x y p q = q

  pub unless_none :
      {B : Type 0} (o : Option B) (x : Dialog A) (y : B → Dialog A)
      → InClear x
      → ((b : B) → InClear (y b))
      → InClear (elim o [ none ↦ x | some b ↦ y b ])
  unless_none none x y p q = p
  unless_none (some b) x y p q = q b

module _ {A : Type 0} (cfg : Config A) (forced : cfg.force_tls ≡ true) where
  pub send_command-InClear :
      (c : Command) (line : Text) (d : Dialog A)
      → is_hello c || is_starttls c ≡ false
      → InClear d
      → InClear (send_command cfg c line d)
  unfolding send_command only_allowed
  send_command-InClear c line d other q =
      let i = q.insecure in
      let w = q.written in record { insecure = ground arith; written = ground arith }

  pub hello-InClear :
      (name : Text) (d : Dialog A)
      → InClear d
      → InClear (send_command cfg ehlo (with_data (codes "EHLO") name) d)
  unfolding send_command only_allowed strip_prefix text_eq
  hello-InClear [] d q =
      let alone : allowed (codes "EHLO") ≡ true = refl in
      let i = q.insecure in
      let w = q.written in record { insecure = ground arith; written = ground arith }
  hello-InClear (c ∷ name) d q =
      let i = q.insecure in
      let w = q.written in record { insecure = ground arith; written = ground arith }

  pub send_mail-InClear : (d : Dialog A) → InClear d → InClear (send_mail cfg d)
  unfolding send_mail
  send_mail-InClear d q = send_command-InClear mail _ d refl q

  start_tls-InClear : (d : Dialog A) → InClear d → InClear (start_tls cfg d)
  unfolding start_tls send_command only_allowed strip_prefix text_eq
  start_tls-InClear d q =
      let t : allowed (codes "STARTTLS") ≡ true = refl in
      let i = q.insecure in
      let w = q.written in record { insecure = ground arith; written = ground arith }

  send_auth-InClear :
      (user pass type : Text) (d : Dialog A) → InClear d → InClear (send_auth cfg user pass type d)
  unfolding send_auth
  send_auth-InClear user pass type d q =
      let waits = send_command-InClear auth in
      let d' = record d { authenticating = true } in
      unless (text_eq (map to_upper type) (codes "PLAIN")) _ _
        (send_command-InClear auth _ d refl q)
        (unless (text_eq (map to_upper type) (codes "LOGIN")) _ _
          (send_command-InClear auth _ d' refl (keeps q refl refl))
          (unless (text_eq (map to_upper type) (codes "CRAM-MD5")) _ _
            (send_command-InClear auth _ d' refl (keeps q refl refl)) (send_mail-InClear d q)))

  auth_phase-InClear :
      (user pass : Text) (offered : List Text) (d : Dialog A)
      → InClear d
      → InClear (auth_phase cfg user pass offered d)
  unfolding auth_phase
  auth_phase-InClear user pass offered d q =
      let chosen = choose_auth cfg offered (non_empty d.mx.auth_type) in
      let d' = record d { mx = record d.mx { auth_type = chosen } } in
      let q' : InClear d' = keeps q refl refl in
      unless_none chosen _ _ (send_mail-InClear d' q') (λ t.
        unless (list_includes (map to_upper t) offered) _ _ (send_auth-InClear user pass t d' q')
          (send_mail-InClear d' q'))

  some_auth-InClear :
      (user pass : Text) (offered : List Text) (d : Dialog A)
      → InClear d
      → InClear
          (elim offered [ [] ↦ send_mail cfg d | o ∷ os ↦ auth_phase cfg user pass (o ∷ os) d ])
  some_auth-InClear user pass [] d q = send_mail-InClear d q
  some_auth-InClear user pass (o ∷ os) d q = auth_phase-InClear user pass (o ∷ os) d q

  auth_and_mail_phase-InClear : (d : Dialog A) → InClear d → InClear (auth_and_mail_phase cfg d)
  unfolding auth_and_mail_phase
  auth_and_mail_phase-InClear d q =
      let m = send_mail-InClear d q in
      unless d.authenticated _ _ m (
        unless_none (non_empty d.mx.auth_user) _ _ m (λ user.
          unless_none (non_empty d.mx.auth_pass) _ _ m (λ pass.
            unless_none d.smtp_properties.auth _ _ m
              (λ offered. some_auth-InClear user pass offered d q))))

  pub process_ehlo_data-InClear : (d : Dialog A) → InClear d → InClear (process_ehlo_data cfg d)
  unfolding process_ehlo_data only_allowed strip_prefix text_eq
  process_ehlo_data-InClear d q =
      let d' = record d { smtp_properties = set_ehlo_props (d.response) d.smtp_properties } in
      let q' : InClear d' = keeps q refl refl in
      let a = auth_and_mail_phase-InClear d' q' in
      unless d.secured _ _ a (
        unless cfg.force_tls _ _
          (unless (cfg.enable_tls && d'.smtp_properties.tls) _ _ (start_tls-InClear d' q')
            (keeps q refl refl))
          (unless (not cfg.enable_tls) _ _ a (
            unless (not d'.smtp_properties.tls) _ _ a
              (unless (not cfg.tls_loaded) _ _ a (unless cfg.no_tls _ _ a (keeps q refl refl))))))

  split_off-InClear : (d : Dialog A) → InClear d → InClear (split_off cfg d)
  unfolding split_off only_allowed
  split_off-InClear d q =
      let d1 = if is_empty d.fail_recips then d else emit (split_deferred d.fail_recips) d in
      let q1 : InClear d1 = unless (is_empty d.fail_recips) _ _ q (keeps q refl refl) in
      unless (is_empty d.bounce_recips) _ _ q1 (keeps q1 refl refl)

  leave-InClear : (success : Bool) (d : Dialog A) → InClear d → InClear (leave cfg success d)
  unfolding leave only_allowed
  leave-InClear success d q = unless (cfg.pooling && success) _ _ (keeps q refl refl) (
      unless (cfg.pooling && not d.mx.using_lmtp) _ _ (send_command-InClear rset _ d refl q)
        (send_command-InClear quit _ d refl q))

  pub finish-InClear :
      (success : Bool) (d : Dialog A) → InClear d → InClear (finish_processing_mail cfg success d)
  unfolding finish_processing_mail only_allowed
  finish-InClear success d q =
      let d0 = record d { fp_called = true } in
      let q' : InClear (split_off cfg d0) = split_off-InClear d0 (keeps q refl refl) in
      unless d.fp_called _ _ q
        (leave-InClear success _ (unless success _ _ (keeps q' refl refl) (keeps q' refl refl)))
