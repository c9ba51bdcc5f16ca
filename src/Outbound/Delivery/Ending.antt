-- ===== src/Outbound/Delivery/Ending.antt =====
-- What follows the last reply to RCPT in email/outbound/hmail.js.
use companyly_microservices.Base.{
  ℕ, true, false, ◌≡◌, refl, ap, List, [], ◌∷◌, ◌++◌, ◌&&◌, not, ◌==◌, if◌then◌else◌, is_empty,
  length, arith, codes,
}
use mathlib.Core.List.{append-nil}
use companyly_microservices.Outbound.Delivery.State.{
  data_cmd, rset, quit, Event, discard, wrote, Config, Dialog,
}
use companyly_microservices.Outbound.Delivery.Dialog.{
  send_command, finish_processing_mail, split_off, leave,
}
use companyly_microservices.Outbound.Delivery.Lines.{after_rcpt, is_data}
use companyly_microservices.Outbound.Delivery.Recipients.{outcomes, split_outcomes, IsSorted}

module _ {A : Type 0} (cfg : Config A) where
  -- After the last reply: DATA if the message has a recipient, else the end of the delivery.
  pub record Ends (oks fails bounces : List A) (d : Dialog A) : Type 0 where
    pub ends_ok : d.ok_recips ≡ oks
    pub ends_fail : d.fail_recips ≡ fails
    pub ends_bounce : d.bounce_recips ≡ bounces
    pub ends_processing : d.processing_mail ≡ not (is_empty oks)
    pub ends_data : is_data d.command ≡ not (is_empty oks)
    pub ends_outcomes :
        outcomes d.events ≡ (if is_empty oks then discard ∷ split_outcomes fails bounces else [])

  unfoldable datum : Dialog A → Dialog A
  datum d = record d { command = data_cmd; response = []; events = wrote (codes "DATA") ∷ d.events }

  after_rcpt-eq-datum :
      (d : Dialog A) (a : A) (as' : List A)
      → d.writable ≡ true
      → cfg.force_tls && not d.is_secure ≡ false
      → d.authenticating ≡ false
      → (d.recip_index == length d.recipients) ≡ true
      → d.ok_recips ≡ a ∷ as'
      → after_rcpt cfg d ≡ datum d
  unfolding after_rcpt send_command datum
  after_rcpt-eq-datum d a as' w f n last at = ground arith

  unfoldable given_up : Dialog A → Dialog A
  given_up d = record d {
    fp_called = true;
    processing_mail = false;
    command = if cfg.pooling && not d.mx.using_lmtp then rset else quit;
    response = [];
    events =
        wrote (if cfg.pooling && not d.mx.using_lmtp then codes "RSET" else codes "QUIT")
        ∷ discard
        ∷ (split_outcomes d.fail_recips d.bounce_recips ++ d.events);
  }

  finish_processing_mail-eq-given_up :
      (d : Dialog A)
      → d.writable ≡ true
      → cfg.force_tls && not d.is_secure ≡ false
      → d.authenticating ≡ false
      → d.fp_called ≡ false
      → finish_processing_mail cfg false d ≡ given_up d
  unfolding finish_processing_mail leave split_off send_command given_up
  finish_processing_mail-eq-given_up d w f n p = ground arith

  after_rcpt-eq-finish :
      (d : Dialog A)
      → (d.recip_index == length d.recipients) ≡ true
      → d.ok_recips ≡ []
      → after_rcpt cfg d ≡ finish_processing_mail cfg false d
  unfolding after_rcpt
  after_rcpt-eq-finish d last empty = ground arith

  outcomes-split_outcomes :
      (fails bounces : List A) (es : List (Event A))
      → outcomes (split_outcomes fails bounces ++ es) ≡ split_outcomes fails bounces ++ outcomes es
  outcomes-split_outcomes [] [] es = refl
  outcomes-split_outcomes [] (b ∷ bs) es = refl
  outcomes-split_outcomes (f ∷ fs) [] es = refl
  outcomes-split_outcomes (f ∷ fs) (b ∷ bs) es = refl

  given_up-Ends :
      (d : Dialog A) (fails bounces recipients : List A) (k : ℕ)
      → IsSorted cfg [] fails bounces recipients k d
      → Ends [] fails bounces (given_up d)
  unfolding given_up
  given_up-Ends d fails bounces recipients k s = record {
    ends_ok = s.sorted_ok;
    ends_fail = s.sorted_fail;
    ends_bounce = s.sorted_bounce;
    ends_processing = refl;
    ends_data = ground arith;
    ends_outcomes =
        rw (outcomes-split_outcomes d.fail_recips d.bounce_recips d.events) rw s.no_outcome rw
          s.sorted_fail rw s.sorted_bounce
          (ap (discard ∷◌) (append-nil (split_outcomes fails bounces)));
  }

  pub after_rcpt-Ends :
      (d : Dialog A) (oks fails bounces recipients : List A) (k : ℕ)
      → IsSorted cfg oks fails bounces recipients k d
      → (k == length recipients) ≡ true
      → Ends oks fails bounces (after_rcpt cfg d)
  unfolding datum
  after_rcpt-Ends d [] fails bounces recipients k s last =
      rw (after_rcpt-eq-finish d (rw s.asked (rw s.all_recipients last)) s.sorted_ok) (
        rw (finish_processing_mail-eq-given_up d s.can_write s.may_write s.not_auth s.not_finished)
          (given_up-Ends d fails bounces recipients k s))
  after_rcpt-Ends d (a ∷ as') fails bounces recipients k s last =
      rw
        (after_rcpt-eq-datum d a as' s.can_write s.may_write s.not_auth
          (rw s.asked (rw s.all_recipients last)) s.sorted_ok)
        record {
          ends_ok = s.sorted_ok;
          ends_fail = s.sorted_fail;
          ends_bounce = s.sorted_bounce;
          ends_processing = s.processing;
          ends_data = refl;
          ends_outcomes = s.no_outcome;
        }
