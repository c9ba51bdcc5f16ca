-- ===== src/Outbound/Delivery/Sorting.antt =====
-- The replies to all RCPT commands of a delivery in email/outbound/hmail.js, from the first to
-- what comes after the last.
use companyly_microservices.Base.{
  ℕ, ◌+◌, true, false, ◌≡◌, refl, sym, ◌∙◌, List, [], ◌∷◌, ◌++◌, ◌==◌, length, arith, All,
  get_elem?-length_append, length-append,
}
use mathlib.Core.List.{append-nil, append_assoc}
use companyly_microservices.Outbound.Delivery.Reply.{Reply, class}
use companyly_microservices.Outbound.Delivery.State.{mail, Config, Dialog}
use companyly_microservices.Outbound.Delivery.Lines.{hear}
use companyly_microservices.Outbound.Delivery.Recipients.{
  IsSorted, Asks, IsFinal, accepted, of_class, hear_all, hear-sorts, after_rcpt-next, hear-Asks,
}
use companyly_microservices.Outbound.Delivery.Ending.{Ends, after_rcpt-Ends}

module _ {A : Type 0} where
  abbrev recips : List (A × Reply) → List A
  recips [] = []
  recips ((a, r) ∷ ps) = a ∷ recips ps

  abbrev pub answers : List (A × Reply) → List Reply
  answers [] = []
  answers ((a, r) ∷ ps) = r ∷ answers ps

  accepted-cons :
      (p : A × Reply) (ps : List (A × Reply)) → accepted (p ∷ ps) ≡ accepted (p ∷ []) ++ accepted ps
  accepted-cons (a, r) ps = ground arith

  of_class-cons :
      (k : ℕ) (p : A × Reply) (ps : List (A × Reply))
      → of_class k (p ∷ ps) ≡ of_class k (p ∷ []) ++ of_class k ps
  of_class-cons k (a, r) ps = ground arith

  is_last : (done : List A) → (length done == length (done ++ [])) ≡ true
  is_last done = rw (append-nil done) (ground arith)

  not_last :
      (done : List A) (b : A) (bs : List A) → (length done == length (done ++ b ∷ bs)) ≡ false
  not_last done b bs = let e = length-append done (b ∷ bs) in ground arith

module _ {A : Type 0} (cfg : Config A) where
  sorts_from :
      (done : List A) (a : A) (r : Reply) (ps : List (A × Reply)) (d : Dialog A)
      (oks fails bounces recipients : List A) (k : ℕ)
      → recipients ≡ done ++ recips ps
      → k ≡ length done
      → Asks cfg oks fails bounces recipients k a d
      → All IsFinal ((a, r) ∷ ps)
      → Ends cfg
          (oks ++ accepted ((a, r) ∷ ps))
          (fails ++ of_class 4 ((a, r) ∷ ps))
          (bounces ++ of_class 5 ((a, r) ∷ ps))
          (hear_all cfg (r ∷ answers ps) d)
  unfolding hear_all
  sorts_from done a r [] d oks fails bounces recipients k e l q (final, _) =
      let (same, s) = hear-sorts cfg d a r oks fails bounces recipients k q final in
      rw same (after_rcpt-Ends cfg _ _ _ _ recipients k s (rw l rw e (is_last done)))
  sorts_from done a r ((b, r') ∷ ps) d oks fails bounces recipients k e l q (final, finals) =
      let (same, s) = hear-sorts cfg d a r oks fails bounces recipients k q final in
      rw (accepted-cons (a, r) ((b, r') ∷ ps)) rw (of_class-cons 4 (a, r) ((b, r') ∷ ps)) rw
        (of_class-cons 5 (a, r) ((b, r') ∷ ps)) rw
        (sym (append_assoc oks (accepted ((a, r) ∷ [])) (accepted ((b, r') ∷ ps)))) rw
        (sym (append_assoc fails (of_class 4 ((a, r) ∷ [])) (of_class 4 ((b, r') ∷ ps)))) rw
        (sym (append_assoc bounces (of_class 5 ((a, r) ∷ [])) (of_class 5 ((b, r') ∷ ps))))
        (sorts_from (done ++ b ∷ []) b r' ps (hear cfg r d) _ _ _ recipients (k + 1)
          (e ∙ sym (append_assoc done (b ∷ []) (recips ps)))
          (omega (arith, l, length-append done (b ∷ [])))
          (rw same (
            after_rcpt-next cfg _ b _ _ _ recipients k s (rw l rw e (not_last done b (recips ps)))
              (rw l rw e (get_elem?-length_append done (recips ps) b))))
          finals)

  -- From the reply to MAIL on, when every reply to RCPT is complete and not 3xx: the recipients
  -- answered with 250, with 4xx and with 5xx are, in order, the accepted, the deferred and the
  -- refused ones. If any was accepted DATA is sent and there is no outcome yet; otherwise the
  -- delivery ends, with a split for the refused and one for the deferred, where there are such, and
  -- the message is discarded.
  pub hear_all-Ends :
      (d : Dialog A) (r₀ : Reply) (a : A) (r : Reply) (ps : List (A × Reply))
      → d.command ≡ mail
      → class r₀ ≡ 2
      → r₀.more ≡ false
      → IsSorted cfg [] [] [] (recips ((a, r) ∷ ps)) 0 d
      → All IsFinal ((a, r) ∷ ps)
      → Ends cfg
          (accepted ((a, r) ∷ ps))
          (of_class 4 ((a, r) ∷ ps))
          (of_class 5 ((a, r) ∷ ps))
          (hear_all cfg (r₀ ∷ answers ((a, r) ∷ ps)) d)
  unfolding hear_all
  hear_all-Ends d r₀ a r ps c k m s finals =
      sorts_from (a ∷ []) a r ps (hear cfg r₀ d) [] [] [] (recips ((a, r) ∷ ps)) 1 refl refl
        (hear-Asks cfg r₀ d a (recips ps) c k m s) finals
