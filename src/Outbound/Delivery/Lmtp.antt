-- ===== src/Outbound/Delivery/Lmtp.antt =====
-- The replies of an LMTP server to a message in email/outbound/hmail.js, one for each recipient.
use companyly_microservices.Base.{
  ◌+◌, ◌<◌, Bool, true, false, ◌≡◌, refl, ◌∙◌, List, [], ◌∷◌, ◌++◌, ◌==◌, some, length, arith, All,
  Text, join, codes, Bool-cases, inl, inr,
}
use mathlib.Core.List.{append-nil, append_assoc}
use companyly_microservices.Outbound.Delivery.Reply.{Reply, class}
use companyly_microservices.Outbound.Delivery.State.{
  Command, rset, quit, mark, dot_lmtp, delivered, delayed, Config, Dialog,
}
use companyly_microservices.Outbound.Delivery.Dialog.{
  emit, finish_processing_mail, leave, split_off, send_command,
}
use companyly_microservices.Outbound.Delivery.Lines.{
  hear, on_reply, go_on, on_4xx, refuse_dot, set_aside, take_first, dot_lmtp_replied,
}
use companyly_microservices.Outbound.Delivery.Recipients.{hear_all, outcomes, split_outcomes}

module _ {A : Type 0} (cfg : Config A) where
  -- A 2xx that is not the last.
  hear-counts :
      (r : Reply) (d : Dialog A)
      → d.command ≡ dot_lmtp
      → class r ≡ 2
      → r.more ≡ false
      → (d.lmtp_rcpt_idx + 1 == length d.ok_recips) ≡ false
      → hear cfg r d
        ≡ record d { response = d.response ++ r.rest ∷ []; lmtp_rcpt_idx = d.lmtp_rcpt_idx + 1 }
  unfolding hear on_reply go_on dot_lmtp_replied
  hear-counts r d c k m more = ground arith

  abbrev pub rests : List Reply → List Text
  rests [] = []
  rests (r ∷ rs) = r.rest ∷ rests rs

  -- A complete 2xx.
  abbrev IsDone : Reply → Type 0
  IsDone r = (class r ≡ 2) × (r.more ≡ false)

  abbrev counted : List Reply → Dialog A → Dialog A
  counted rs d = record d {
    response = d.response ++ rests rs;
    lmtp_rcpt_idx = d.lmtp_rcpt_idx + length rs;
  }

  hear_all-counts :
      (rs : List Reply) (d : Dialog A)
      → d.command ≡ dot_lmtp
      → All IsDone rs
      → d.lmtp_rcpt_idx + length rs < length d.ok_recips
      → hear_all cfg rs d ≡ counted rs d
  unfolding hear_all
  hear_all-counts [] d c _ h = let e1 = append-nil d.response in ground arith
  hear_all-counts (r ∷ rs) d c ((k, m), ks) h =
      rw (hear-counts r d c k m (ground arith)) rw
        (hear_all-counts rs
          (record d { response = d.response ++ r.rest ∷ []; lmtp_rcpt_idx = d.lmtp_rcpt_idx + 1 }) c
          ks (omega (arith, h)))
        rw (append_assoc d.response (r.rest ∷ []) (rests rs)) (ground arith)

  -- The dialogue when `a`, the first that is left, has been deferred.
  abbrev deferred : A → List A → Reply → Dialog A → Dialog A
  deferred a as' r d = record d {
    response = [];
    authenticating = false;
    last_recip = some a;
    ok_recips = as';
    fail_recips = d.fail_recips ++ a ∷ [];
    events = mark a delayed r (d.response ++ r.rest ∷ []) ∷ d.events;
  }

  hear-eq-deferred :
      (r : Reply) (d : Dialog A) (a b : A) (bs : List A)
      → d.command ≡ dot_lmtp
      → class r ≡ 4
      → r.more ≡ false
      → d.ok_recips ≡ a ∷ b ∷ bs
      → hear cfg r d ≡ dot_lmtp_replied cfg r (deferred a (b ∷ bs) r d)
  unfolding hear on_reply on_4xx refuse_dot set_aside take_first
  hear-eq-deferred r d a b bs c k m at = ground arith

  -- The recipients that were accepted, and those that were deferred.
  abbrev pub kept : Dialog A → List A × List A
  kept d = (d.ok_recips, d.fail_recips)

  kept-send_command :
      (c : Command) (line : Text) (d : Dialog A) → kept (send_command cfg c line d) ≡ kept d
  unfolding send_command
  kept-send_command c line d = ground arith

  kept-leave : (success : Bool) (d : Dialog A) → kept (leave cfg success d) ≡ kept d
  unfolding leave
  kept-leave success d =
      let e1 = kept-send_command rset (codes "RSET") d in
      let e2 = kept-send_command quit (codes "QUIT") d in ground arith

  kept-split_off : (d : Dialog A) → kept (split_off cfg d) ≡ kept d
  unfolding split_off
  kept-split_off d = ground arith

  kept-finish : (d : Dialog A) → kept (finish_processing_mail cfg true d) ≡ kept d
  unfolding finish_processing_mail
  kept-finish d =
      let d1 = record (split_off cfg (record d { fp_called = true })) { processing_mail = false } in
      let d2 = emit (delivered (join (codes " ") (d1.response))) d1 in
      let e1 = kept-leave true d2 in
      let e2 = kept-split_off (record d { fp_called = true }) in
      elim (Bool-cases d.fp_called) [ inl e ↦ rw e refl | inr e ↦ rw e (e1 ∙ e2) ]

  kept-dot_lmtp_replied :
      (r : Reply) (d : Dialog A) → class r ≡ 4 → kept (dot_lmtp_replied cfg r d) ≡ kept d
  unfolding dot_lmtp_replied
  kept-dot_lmtp_replied r d k = let e = kept-finish d in ground arith

  -- After 2xx for the first recipients of a message, a 4xx that is about the next one puts the
  -- first recipient on the list of the deferred, and leaves the others, with the one that the
  -- reply is about, on the list of the accepted.
  hear_all-defers_first :
      (d : Dialog A) (rs : List Reply) (r : Reply) (a b : A) (bs : List A)
      → d.command ≡ dot_lmtp
      → d.lmtp_rcpt_idx ≡ 0
      → d.ok_recips ≡ a ∷ b ∷ bs
      → All IsDone rs
      → length rs < length (a ∷ b ∷ bs)
      → class r ≡ 4
      → r.more ≡ false
      → kept (hear cfg r (hear_all cfg rs d)) ≡ (b ∷ bs, d.fail_recips ++ a ∷ [])
  hear_all-defers_first d rs r a b bs c idx at done few k m =
      rw (hear_all-counts rs d c done (rw idx rw at (omega (arith, few)))) rw
        (hear-eq-deferred r (counted rs d) a b bs c k m at)
        (kept-dot_lmtp_replied r (deferred a (b ∷ bs) r (counted rs d)) k)

  outcomes-leave :
      (success : Bool) (d : Dialog A)
      → d.processing_mail ≡ false
      → outcomes (leave cfg success d).events ≡ outcomes d.events
  unfolding leave send_command
  outcomes-leave success d p = ground arith

  outcomes-split_off :
      (d : Dialog A)
      → outcomes (split_off cfg d).events
        ≡ split_outcomes d.fail_recips d.bounce_recips ++ outcomes d.events
  unfolding split_off
  outcomes-split_off d = ground arith

  split_off-response : (d : Dialog A) → (split_off cfg d).response ≡ d.response
  unfolding split_off
  split_off-response d = ground arith

  outcomes-finish :
      (d : Dialog A)
      → d.fp_called ≡ false
      → outcomes (finish_processing_mail cfg true d).events
        ≡ delivered (join (codes " ") d.response)
          ∷ (split_outcomes d.fail_recips d.bounce_recips ++ outcomes d.events)
  unfolding finish_processing_mail
  outcomes-finish d p =
      let d1 = record (split_off cfg (record d { fp_called = true })) { processing_mail = false } in
      let d2 = emit (delivered (join (codes " ") (d1.response))) d1 in
      rw p rw (outcomes-leave true d2 refl) rw (outcomes-split_off (record d { fp_called = true }))
        rw (split_off-response (record d { fp_called = true })) refl

  hear-last :
      (r : Reply) (d : Dialog A)
      → d.command ≡ dot_lmtp
      → class r ≡ 2
      → r.more ≡ false
      → d.lmtp_rcpt_idx + 1 ≡ length d.ok_recips
      → hear cfg r d ≡ finish_processing_mail cfg true (counted (r ∷ []) d)
  unfolding hear on_reply go_on dot_lmtp_replied
  hear-last r d c k m last = ground arith

  -- One 2xx for each accepted recipient: nothing is decided before the last of them; with the last
  -- the message is delivered once, after a split for the recipients that were refused and one for
  -- those that were deferred at RCPT, where there are such.
  hear_all-delivers :
      (d : Dialog A) (rs : List Reply) (r : Reply)
      → d.command ≡ dot_lmtp
      → d.lmtp_rcpt_idx ≡ 0
      → d.fp_called ≡ false
      → All IsDone (r ∷ rs)
      → length rs + 1 ≡ length d.ok_recips
      → (outcomes (hear_all cfg rs d).events ≡ outcomes d.events)
        × (outcomes (hear cfg r (hear_all cfg rs d)).events
            ≡ delivered (join (codes " ") (d.response ++ rests rs ++ r.rest ∷ []))
              ∷ (split_outcomes d.fail_recips d.bounce_recips ++ outcomes d.events))
  hear_all-delivers d rs r c idx p ((k, m), done) all_of =
      rw (hear_all-counts rs d c done (rw idx (omega (arith, all_of)))) (
        refl,
        rw (hear-last r (counted rs d) c k m (rw idx (omega (arith, all_of))))
            (outcomes-finish (counted (r ∷ []) (counted rs d)) p),
      )
