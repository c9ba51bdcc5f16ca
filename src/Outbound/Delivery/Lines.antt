-- ===== src/Outbound/Delivery/Lines.antt =====
-- The line handler of a delivery in email/outbound/hmail.js: `socket.on('line', …)`.
use companyly_microservices.Base.{
  ◌+◌, Bool, true, false, Option, none, some, List, [], ◌∷◌, ◌++◌, Text, ◌&&◌, not, ◌==◌,
  if◌then◌else◌, is_empty, text_eq, map, to_upper, join, codes, decimal, get_elem?, length,
}
use companyly_microservices.Outbound.Delivery.Reply.{Reply, class, read_reply}
use companyly_microservices.Outbound.Delivery.State.{
  Command, connect, connect_lmtp, ehlo, lhlo, helo, starttls, auth, mail, rcpt, data_cmd, dot,
  dot_lmtp, quit, rset, Action, delayed, failed, release, temp_fail, bounce, mark, unreadable,
  upgrade, stream_body, type_error, Config, Dialog,
}
use companyly_microservices.Outbound.Delivery.Dialog.{
  with_data, emit, give_back, send_command, send_mail, process_ehlo_data, finish_processing_mail,
}
use companyly_microservices.Outbound.Delivery.Ehlo.{no_props}

abbrev pub is_data : Command → Bool
is_data data_cmd = true
is_data _ = false

abbrev pub is_rset : Command → Bool
is_rset rset = true
is_rset _ = false

abbrev pub is_rcpt : Command → Bool
is_rcpt rcpt = true
is_rcpt _ = false

abbrev pub is_dot_lmtp : Command → Bool
is_dot_lmtp dot_lmtp = true
is_dot_lmtp _ = false

-- `${(extc) ? `${extc} ` : ''}`
unfoldable show_extc : Option Text → Text
show_extc none = []
show_extc (some e) = e ++ codes " "

-- `${code} ${…}${reason}`
unfoldable pub show_reply : Reply → List Text → Text
unfolding show_extc
show_reply r response =
    decimal r.code ++ (codes " " ++ (show_extc r.extc ++ join (codes " ") response))

module _ {A : Type 0} where
  -- The marks on all recipients.
  unfoldable pub mark_all : Action → Reply → List A → Dialog A → Dialog A
  mark_all action r [] d = d
  mark_all action r (a ∷ as') d = mark_all action r as' (emit (mark a action r d.response) d)

  unfoldable pub unreadable_all : Text → List A → Dialog A → Dialog A
  unreadable_all line [] d = d
  unreadable_all line (a ∷ as') d = unreadable_all line as' (emit (unreadable a line) d)

  unfoldable pub unrecognized : Text → Dialog A → Dialog A
  unfolding unreadable_all
  unrecognized line d =
      emit (bounce (codes "Unrecognized response from upstream server: " ++ line))
        (unreadable_all line d.recipients (give_back d))

module _ {A : Type 0} (cfg : Config A) where
  unfoldable pub quit_or_reset : Dialog A → Dialog A
  quit_or_reset d =
      if cfg.pooling && not d.mx.using_lmtp
      then send_command cfg rset (codes "RSET") d
      else send_command cfg quit (codes "QUIT") d

  -- `Upstream error: …`: all recipients wait for another attempt.
  unfoldable pub defer_all : Reply → Dialog A → Dialog A
  unfolding mark_all
  defer_all r d =
      let d' = quit_or_reset (mark_all delayed r d.recipients d) in
      emit (temp_fail (codes "Upstream error: " ++ show_reply r d.response))
        (record d' { processing_mail = false })

  unfoldable pub reject_all : Reply → Dialog A → Dialog A
  unfolding mark_all
  reject_all r d =
      let d' = quit_or_reset (mark_all failed r d.recipients d) in
      emit (bounce (show_reply r d.response)) (record d' { processing_mail = false })

  -- A reply 3xx to anything but DATA.
  unfoldable pub challenge : Reply → Dialog A → Dialog A
  challenge r d =
      let resp = join (codes " ") (d.response) in
      let user : Text = elim d.mx.auth_user [ none ↦ [] | some u ↦ u ] in
      let pass : Text = elim d.mx.auth_pass [ none ↦ [] | some p ↦ p ] in
      let type : Text = elim d.mx.auth_type [ none ↦ [] | some t ↦ map to_upper t ] in
      if not d.authenticating
      then defer_all r d
      else if text_eq type (codes "LOGIN") && text_eq resp (codes "VXNlcm5hbWU6")
      then send_command cfg auth (cfg.base64 user) d
      else if text_eq type (codes "LOGIN") && text_eq resp (codes "UGFzc3dvcmQ6")
      then send_command cfg auth (cfg.base64 pass) d
      else if text_eq type (codes "CRAM-MD5")
      then send_command cfg auth (cfg.cram_md5_response user pass resp) d
      else defer_all r d

  -- The next recipient, or what stands for it when there is none.
  unfoldable pub next_recip : Dialog A → Dialog A
  next_recip d = elim (get_elem? d.recipients d.recip_index) [
    | none ↦ emit type_error (record d { last_recip = none; recip_index = d.recip_index + 1 })
    | some a ↦
        send_command cfg rcpt (codes "RCPT TO:" ++ cfg.format (not d.smtp_properties.smtp_utf8) a)
          (record d { last_recip = some a; recip_index = d.recip_index + 1 })
  ]

  unfoldable pub after_rcpt : Dialog A → Dialog A
  unfolding next_recip
  after_rcpt d =
      if d.recip_index == length d.recipients
      then (if is_empty d.ok_recips
          then finish_processing_mail cfg false d
          else send_command cfg data_cmd (codes "DATA") d)
      else next_recip d

  unfoldable pub rcpt_replied : Reply → Dialog A → Dialog A
  rcpt_replied r d = after_rcpt (
      if r.code == 250
      then elim d.last_recip [ none ↦ d | some a ↦ record d { ok_recips = d.ok_recips ++ a ∷ [] } ]
      else d)

  unfoldable pub dot_lmtp_replied : Reply → Dialog A → Dialog A
  dot_lmtp_replied r d =
      let d' = if class r == 2 then record d { lmtp_rcpt_idx = d.lmtp_rcpt_idx + 1 } else d in
      if d'.lmtp_rcpt_idx == length d'.ok_recips then finish_processing_mail cfg true d' else d'

  -- The `switch` on the command.
  unfoldable pub go_on : Command → Reply → Dialog A → Dialog A
  go_on connect r d = send_command cfg ehlo (with_data (codes "EHLO") d.mx.bind_helo) d
  go_on connect_lmtp r d = send_command cfg lhlo (with_data (codes "LHLO") d.mx.bind_helo) d
  go_on lhlo r d = process_ehlo_data cfg d
  go_on ehlo r d = process_ehlo_data cfg d
  go_on starttls r d = emit upgrade (record d { smtp_properties = no_props })
  go_on auth r d = send_mail cfg (record d { authenticating = false; authenticated = true })
  go_on helo r d = send_mail cfg d
  go_on mail r d = next_recip d
  go_on rcpt r d = rcpt_replied r d
  go_on data_cmd r d = emit stream_body d
  go_on dot r d = finish_processing_mail cfg true d
  go_on dot_lmtp r d = dot_lmtp_replied r d
  go_on quit r d = if cfg.pooling then d else emit (release d.fin_sent) d
  go_on rset r d = emit (release d.fin_sent) d

  -- The recipient that a refusal is about: for LMTP, the first that is left.
  unfoldable pub take_first : Dialog A → Dialog A
  take_first d = elim d.ok_recips [
    | [] ↦ record d { last_recip = none }
    | a ∷ as' ↦ record d { last_recip = some a; ok_recips = as' }
  ]

  -- The recipient goes on the list of those that are deferred, or rejected.
  unfoldable pub set_aside : Action → Reply → Dialog A → Dialog A
  set_aside action r d = elim d.last_recip [
    | none ↦ emit type_error d
    | some a ↦ elim action [
      | delayed ↦
          emit (mark a delayed r d.response) (record d { fail_recips = d.fail_recips ++ a ∷ [] })
      | failed ↦
          emit (mark a failed r d.response) (record d { bounce_recips = d.bounce_recips ++ a ∷ [] })
    ]
  ]

  unfoldable pub refuse_rcpt : Action → Reply → Dialog A → Dialog A
  unfolding set_aside
  refuse_rcpt action r d = rcpt_replied r (set_aside action r d)

  unfoldable pub refuse_dot : Action → Reply → Dialog A → Dialog A
  unfolding set_aside take_first
  refuse_dot action r d =
      let d' = record (set_aside action r (take_first d)) { response = [] } in
      if is_empty d'.ok_recips then finish_processing_mail cfg false d' else dot_lmtp_replied r d'

  unfoldable pub on_4xx : Reply → Dialog A → Dialog A
  on_4xx r d' =
      let d = record d' { authenticating = false } in
      if is_rcpt d.command
      then refuse_rcpt delayed r d
      else if is_dot_lmtp d.command
      then refuse_dot delayed r d
      else if d.processing_mail
      then defer_all r d
      else emit (release true) d

  abbrev pub is_ehlo : Command → Bool
  is_ehlo ehlo = true
  is_ehlo _ = false

  unfoldable pub on_5xx : Reply → Dialog A → Dialog A
  on_5xx r d' =
      let d = record d' { authenticating = false } in
      if is_ehlo d.command
      then send_command cfg helo (codes "HELO " ++ d.mx.bind_helo) d
      else if is_rset d.command
      then emit (release true) d
      else if is_rcpt d.command
      then refuse_rcpt failed r d
      else if is_dot_lmtp d.command
      then refuse_dot failed r d
      else reject_all r d

  -- The last line of a reply.
  unfoldable pub on_reply : Reply → Dialog A → Dialog A
  on_reply r d =
      if class r == 3 && not (is_data d.command)
      then challenge r d
      else if class r == 4
      then on_4xx r d
      else if class r == 5
      then on_5xx r d
      else go_on d.command r d

  unfoldable pub hear : Reply → Dialog A → Dialog A
  hear r d =
      let d' = record d { response = d.response ++ r.rest ∷ [] } in
      if r.more then d' else on_reply r d'

  unfoldable pub on_line : Text → Dialog A → Dialog A
  on_line line d =
      if not d.processing_mail && not (is_rset d.command)
      then d
      else elim (read_reply line) [ none ↦ unrecognized line d | some r ↦ hear r d ]
