-- ===== src/Outbound/Delivery/Recipients.antt =====
-- The replies to RCPT in email/outbound/hmail.js: which recipients a message goes to, which wait
-- and which are refused.
use companyly_microservices.Base.{
  ℕ, ◌+◌, true, false, ◌≡◌, refl, ap, ◌∙◌, some, List, [], ◌∷◌, ◌++◌, Text, ◌&&◌, not, ◌==◌,
  if◌then◌else◌, is_empty, get_elem?, length, arith, codes,
}
use mathlib.Core.List.{append-nil}
use companyly_microservices.Outbound.Delivery.Reply.{Reply, class}
use companyly_microservices.Outbound.Delivery.State.{
  rcpt, mail, delayed, failed, Event, split_deferred, split_rejected, discard, mark, wrote,
  temp_fail, bounce, delivered, retry_host, Config, Dialog,
}
use companyly_microservices.Outbound.Delivery.Dialog.{send_command}
use companyly_microservices.Outbound.Delivery.Lines.{
  next_recip, after_rcpt, rcpt_replied, set_aside, refuse_rcpt, on_4xx, on_5xx, on_reply, go_on,
  hear,
}

module _ {A : Type 0} where
  -- What becomes of the message, the latest first: events other than these are talk.
  abbrev pub outcomes : List (Event A) → List (Event A)
  outcomes [] = []
  outcomes (temp_fail s ∷ es) = temp_fail s ∷ outcomes es
  outcomes (bounce s ∷ es) = bounce s ∷ outcomes es
  outcomes (split_deferred as' ∷ es) = split_deferred as' ∷ outcomes es
  outcomes (split_rejected as' ∷ es) = split_rejected as' ∷ outcomes es
  outcomes (delivered s ∷ es) = delivered s ∷ outcomes es
  outcomes (discard ∷ es) = discard ∷ outcomes es
  outcomes (retry_host ∷ es) = retry_host ∷ outcomes es
  outcomes (e ∷ es) = outcomes es

  -- The outcomes of recipients that were deferred and refused.
  abbrev pub split_outcomes : List A → List A → List (Event A)
  split_outcomes fails bounces =
      (if is_empty bounces then [] else split_rejected bounces ∷ [])
      ++ (if is_empty fails then [] else split_deferred fails ∷ [])

  -- Lists by the replies.
  abbrev pub accepted : List (A × Reply) → List A
  accepted [] = []
  accepted ((a, r) ∷ ps) = if r.code == 250 then a ∷ accepted ps else accepted ps

  abbrev pub of_class : ℕ → List (A × Reply) → List A
  of_class k [] = []
  of_class k ((a, r) ∷ ps) = if class r == k then a ∷ of_class k ps else of_class k ps

  -- A reply of one line that is not 3xx, which asks for more.
  abbrev pub IsFinal : A × Reply → Type 0
  IsFinal (a, r) = (r.more ≡ false) × ((class r == 3) ≡ false)

module _ {A : Type 0} (cfg : Config A) where
  -- A dialogue that has heard of the recipients in the lists, and has asked for `k` of them.
  pub record IsSorted (ok fail bounced : List A) (recipients : List A) (k : ℕ) (d : Dialog A)
      : Type 0 where
    pub sorted_ok : d.ok_recips ≡ ok
    pub sorted_fail : d.fail_recips ≡ fail
    pub sorted_bounce : d.bounce_recips ≡ bounced
    pub all_recipients : d.recipients ≡ recipients
    pub asked : d.recip_index ≡ k
    pub can_write : d.writable ≡ true
    pub may_write : cfg.force_tls && not d.is_secure ≡ false
    pub not_auth : d.authenticating ≡ false
    pub processing : d.processing_mail ≡ true
    pub not_finished : d.fp_called ≡ false
    pub no_outcome : outcomes d.events ≡ []

  -- … and waits for the reply that is about `a`.
  pub record Asks (ok fail bounced recipients : List A) (k : ℕ) (a : A) (d : Dialog A)
      : Type 0 where
    pub sorted : IsSorted ok fail bounced recipients k d
    pub awaits_rcpt : d.command ≡ rcpt
    pub about : d.last_recip ≡ some a

  -- The marks that a reply leaves.
  abbrev marked : A → Reply → List Text → List (Event A) → List (Event A)
  marked a r heard es =
      if class r == 4
      then mark a delayed r heard ∷ es
      else if class r == 5
      then mark a failed r heard ∷ es
      else es

  -- The dialogue with one more reply.
  abbrev placed : A → Reply → Dialog A → Dialog A
  placed a r d =
      let heard = d.response ++ r.rest ∷ [] in
      record d {
        response = heard;
        authenticating = false;
        ok_recips = d.ok_recips ++ accepted ((a, r) ∷ []);
        fail_recips = d.fail_recips ++ of_class 4 ((a, r) ∷ []);
        bounce_recips = d.bounce_recips ++ of_class 5 ((a, r) ∷ []);
        events = marked a r heard d.events;
      }

  hear-eq-placed :
      (r : Reply) (d : Dialog A) (a : A)
      → d.command ≡ rcpt
      → d.last_recip ≡ some a
      → d.authenticating ≡ false
      → r.more ≡ false
      → (class r == 3) ≡ false
      → hear cfg r d ≡ after_rcpt cfg (placed a r d)
  unfolding hear on_reply on_4xx on_5xx go_on refuse_rcpt rcpt_replied set_aside
  hear-eq-placed r d a c l n m k =
      let o = append-nil d.ok_recips in
      let f = append-nil d.fail_recips in let b = append-nil d.bounce_recips in ground arith

  outcomes-marked :
      (a : A) (r : Reply) (heard : List Text) (es : List (Event A))
      → outcomes (marked a r heard es) ≡ outcomes es
  outcomes-marked a r heard es = ground arith

  placed-IsSorted :
      (r : Reply) (d : Dialog A) (a : A) (oks fails bounces recipients : List A) (k : ℕ)
      → IsSorted oks fails bounces recipients k d
      → IsSorted
          (oks ++ accepted ((a, r) ∷ []))
          (fails ++ of_class 4 ((a, r) ∷ []))
          (bounces ++ of_class 5 ((a, r) ∷ []))
          recipients
          k
          (placed a r d)
  placed-IsSorted r d a oks fails bounces recipients k s = record {
    sorted_ok = ap (◌++ accepted ((a, r) ∷ [])) s.sorted_ok;
    sorted_fail = ap (◌++ of_class 4 ((a, r) ∷ [])) s.sorted_fail;
    sorted_bounce = ap (◌++ of_class 5 ((a, r) ∷ [])) s.sorted_bounce;
    all_recipients = s.all_recipients;
    asked = s.asked;
    can_write = s.can_write;
    may_write = s.may_write;
    not_auth = refl;
    processing = s.processing;
    not_finished = s.not_finished;
    no_outcome = outcomes-marked a r (d.response ++ r.rest ∷ []) d.events ∙ s.no_outcome;
  }

  -- The next recipient.
  unfoldable asking : A → Dialog A → Dialog A
  asking a d = record d {
    last_recip = some a;
    recip_index = d.recip_index + 1;
    command = rcpt;
    response = [];
    events = wrote (codes "RCPT TO:" ++ cfg.format (not d.smtp_properties.smtp_utf8) a) ∷ d.events;
  }

  after_rcpt-eq-asking :
      (d : Dialog A) (a : A)
      → d.writable ≡ true
      → cfg.force_tls && not d.is_secure ≡ false
      → d.authenticating ≡ false
      → (d.recip_index == length d.recipients) ≡ false
      → get_elem? d.recipients d.recip_index ≡ some a
      → after_rcpt cfg d ≡ asking a d
  unfolding after_rcpt next_recip send_command asking
  after_rcpt-eq-asking d a w f n more at = ground arith

  pub after_rcpt-next :
      (d : Dialog A) (a : A) (oks fails bounces recipients : List A) (k : ℕ)
      → IsSorted oks fails bounces recipients k d
      → (k == length recipients) ≡ false
      → get_elem? recipients k ≡ some a
      → Asks oks fails bounces recipients (k + 1) a (after_rcpt cfg d)
  unfolding asking
  after_rcpt-next d a oks fails bounces recipients k s more at =
      rw
        (after_rcpt-eq-asking d a s.can_write s.may_write s.not_auth
          (rw s.asked (rw s.all_recipients more)) (rw s.asked (rw s.all_recipients at)))
        record {
          sorted = record {
            sorted_ok = s.sorted_ok;
            sorted_fail = s.sorted_fail;
            sorted_bounce = s.sorted_bounce;
            all_recipients = s.all_recipients;
            asked = ap (◌+ 1) s.asked;
            can_write = s.can_write;
            may_write = s.may_write;
            not_auth = s.not_auth;
            processing = s.processing;
            not_finished = s.not_finished;
            no_outcome = s.no_outcome;
          };
          awaits_rcpt = refl;
          about = refl;
        }

  -- The last lines of the replies to RCPT, one after the other.
  unfoldable pub hear_all : List Reply → Dialog A → Dialog A
  hear_all [] d = d
  hear_all (r ∷ rs) d = hear_all rs (hear cfg r d)

  pub hear-sorts :
      (d : Dialog A) (a : A) (r : Reply) (oks fails bounces recipients : List A) (k : ℕ)
      → Asks oks fails bounces recipients k a d
      → IsFinal (a, r)
      → (hear cfg r d ≡ after_rcpt cfg (placed a r d))
        × IsSorted
            (oks ++ accepted ((a, r) ∷ []))
            (fails ++ of_class 4 ((a, r) ∷ []))
            (bounces ++ of_class 5 ((a, r) ∷ []))
            recipients
            k
            (placed a r d)
  hear-sorts d a r oks fails bounces recipients k q (m, c) = (
    hear-eq-placed r d a q.awaits_rcpt q.about q.sorted.not_auth m c,
    placed-IsSorted r d a oks fails bounces recipients k q.sorted,
  )

  hear-mail :
      (r : Reply) (d : Dialog A) (a : A) (recipients : List A)
      → d.command ≡ mail
      → class r ≡ 2
      → r.more ≡ false
      → get_elem? d.recipients d.recip_index ≡ some a
      → d.writable ≡ true
      → cfg.force_tls && not d.is_secure ≡ false
      → d.authenticating ≡ false
      → hear cfg r d ≡ asking a (record d { response = d.response ++ r.rest ∷ [] })
  unfolding hear on_reply go_on next_recip send_command asking
  hear-mail r d a recipients c k m at w f n = ground arith

  -- The reply to MAIL.
  pub hear-Asks :
      (r : Reply) (d : Dialog A) (a : A) (as' : List A)
      → d.command ≡ mail
      → class r ≡ 2
      → r.more ≡ false
      → IsSorted [] [] [] (a ∷ as') 0 d
      → Asks [] [] [] (a ∷ as') 1 a (hear cfg r d)
  unfolding asking
  hear-Asks r d a as' c k m s =
      rw
        (hear-mail r d a as' c k m (rw s.asked (rw s.all_recipients refl)) s.can_write s.may_write
          s.not_auth)
        record {
          sorted = record {
            sorted_ok = s.sorted_ok;
            sorted_fail = s.sorted_fail;
            sorted_bounce = s.sorted_bounce;
            all_recipients = s.all_recipients;
            asked = ap (◌+ 1) s.asked;
            can_write = s.can_write;
            may_write = s.may_write;
            not_auth = s.not_auth;
            processing = s.processing;
            not_finished = s.not_finished;
            no_outcome = s.no_outcome;
          };
          awaits_rcpt = refl;
          about = refl;
        }
