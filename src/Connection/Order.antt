-- ===== src/Connection/Order.antt =====
-- The order of SMTP commands, as email/connection.js enforces it.
use companyly_microservices.Base.{
  ℕ, Bool, true, false, ◌≡◌, Option, none, some, List, [], ◌∷◌, Text, arith, if◌then◌else◌,
  is_empty, inl, inr, codes, ◌==◌, ◌||◌, not, ◌+◌, ◌&&◌, Bool-cases, Option-cases,
}
use companyly_microservices.Transaction.State.{Transaction}
use companyly_microservices.Connection.State.{text, Config, Connection}
use companyly_microservices.Connection.Reset.{Env, closing, is_relaying}
use companyly_microservices.Connection.Respond.{idle, code_of, respond}
use companyly_microservices.Connection.Data.{cmd_data}
use companyly_microservices.Connection.Commands.{cmd_mail, cmd_rcpt, need_mail}
use companyly_microservices.Connection.Rest.{
  replies, hooks, Rests, IsQuiet, respond-replied, replied-IsReply,
}

module _ {M : Type 0} where
  -- The command is answered by one error, starts nothing, and leaves the transaction alone.
  pub record Refused (code : ℕ) (c d : Connection M) : Type 0 where
    pub answered : replies d.events ≡ code ∷ replies c.events
    pub starts_nothing : hooks d.events ≡ hooks c.events
    pub same_transaction : d.transaction ≡ c.transaction
    pub stays_open : closing d.state ≡ false

  -- MAIL needs a greeting.
  abbrev pub greeted : Connection M → Bool
  greeted c = elim c.hello.host [ none ↦ false | some h ↦ not (is_empty h) ]

  -- A submission port needs authentication, which lets the client relay.
  abbrev needs_auth : Connection M → Bool
  needs_auth c = c.local.port == 587 || c.local.port == 465

  abbrev pub recipients : Connection M → List Text
  recipients c = elim c.transaction [ none ↦ [] | some t ↦ t.rcpt_to ]

  -- MAIL may go on to its path.
  abbrev may_mail : Connection M → Bool
  may_mail c = greeted c && (is_relaying c || not (needs_auth c))

  -- DATA may start: no arguments, and a recipient.
  abbrev may_start : Text → Connection M → Bool
  may_start args c = is_empty args && not (is_empty (recipients c))

  -- The code with which DATA is refused.
  abbrev pub data_refusal : Text → Connection M → ℕ
  data_refusal args c =
      if not (is_empty args)
      then 501
      else elim c.transaction [ none ↦ 503 | some t ↦ if c.pipelining then 554 else 503 ]

  abbrev pub sender : Connection M → Option Text
  sender c = elim c.transaction [ none ↦ none | some t ↦ t.mail_from ]

  module _ (env : Env M) (cfg : Config) (again : Connection M → Connection M)
      (rests : Rests again) where
    plain_refusal :
        (code : ℕ) (s : Text) (c : Connection M)
        → IsQuiet c
        → Refused code c (respond env cfg again code (text s) idle c)
    unfolding code_of
    plain_refusal code s c quiet =
        let r = replied-IsReply env cfg code (text s) c in
        rw (respond-replied env cfg again rests code (text s) idle c quiet (ground arith)) (record {
          answered = ground arith;
          starts_nothing = ground arith;
          same_transaction = ground arith;
          stays_open = ground arith;
        })

    -- The same after the count of errors has grown.
    error_refusal :
        (code : ℕ) (s : Text) (c : Connection M) (n : ℕ)
        → IsQuiet c
        → Refused code c (respond env cfg again code (text s) idle (record c { errors = n }))
    error_refusal code s c n quiet =
        let h = plain_refusal code s (record c { errors = n }) quiet in
        record {
          answered = h.answered;
          starts_nothing = h.starts_nothing;
          same_transaction = h.same_transaction;
          stays_open = h.stays_open;
        }

    -- From a client that has sent nothing ahead, MAIL before HELO or EHLO is refused with 503, and
    -- MAIL after it, on port 587 or 465 from a client that may not relay, with 550, whatever its
    -- arguments: one reply, no hook, the transaction as it was, and the connection stays open.
    cmd_mail-Refused :
        (line : Text) (c : Connection M)
        → IsQuiet c
        → may_mail c ≡ false
        → Refused (if greeted c then 550 else 503) c (cmd_mail env cfg again line c)
    unfolding cmd_mail
    cmd_mail-Refused line c quiet h = elim (Bool-cases (greeted c)) [
      | inr g ↦
          let q : ◌≡◌ {A = ℕ} (if greeted c then 550 else 503) 503 = ground arith in
          rw (q, g, cmd_mail) (error_refusal 503 _ c _ quiet)
      | inl g ↦
          let q : ◌≡◌ {A = ℕ} (if greeted c then 550 else 503) 550 = ground arith in
          let r : is_relaying c ≡ false = ground arith in
          let a : needs_auth c ≡ true = ground arith in
          rw (q, g, r, a) (error_refusal 550 _ c _ quiet)
    ]

    cmd_rcpt-eq-need_mail :
        (line : Text) (c : Connection M)
        → sender c ≡ none
        → cmd_rcpt env cfg again line c ≡ need_mail env cfg again c
    unfolding cmd_rcpt
    cmd_rcpt-eq-need_mail line c h = ground arith

    -- From a client that has sent nothing ahead, RCPT with no transaction or no sender is refused
    -- with 503, whatever its arguments: one reply, no hook, the transaction as it was, and the
    -- connection stays open.
    cmd_rcpt-Refused :
        (line : Text) (c : Connection M)
        → IsQuiet c
        → sender c ≡ none
        → Refused 503 c (cmd_rcpt env cfg again line c)
    unfolding need_mail
    cmd_rcpt-Refused line c quiet h =
        rw (cmd_rcpt-eq-need_mail line c h) (error_refusal 503 _ c _ quiet)

    cmd_data-no_transaction :
        (c : Connection M)
        → c.transaction ≡ none
        → cmd_data env cfg again [] c
          ≡ respond env cfg again 503
              (text (codes "MAIL required first"))
              idle
              (record c { errors = c.errors + 1 })
    unfolding cmd_data
    cmd_data-no_transaction c h = ground arith

    module _ (c : Connection M) (t : Transaction M) (at : c.transaction ≡ some t)
        (none_yet : t.rcpt_to ≡ []) where
      cmd_data-alone :
          c.pipelining ≡ false
          → cmd_data env cfg again [] c
            ≡ respond env cfg again 503
                (text (codes "RCPT required first"))
                idle
                (record c { errors = c.errors + 1 })
      unfolding cmd_data
      cmd_data-alone p = ground arith

      cmd_data-pipelined :
          c.pipelining ≡ true
          → cmd_data env cfg again [] c
            ≡ respond env cfg again 554 (text (codes "No valid recipients")) idle c
      unfolding cmd_data
      cmd_data-pipelined p = ground arith

    cmd_data-nobody :
        (c : Connection M)
        → IsQuiet c
        → recipients c ≡ []
        → Refused (data_refusal [] c) c (cmd_data env cfg again [] c)
    cmd_data-nobody c quiet e = elim (Option-cases c.transaction) [
      | inl at ↦
          let q : data_refusal [] c ≡ 503 = ground arith in
          rw (q, cmd_data-no_transaction c at) (error_refusal 503 _ c _ quiet)
      | inr (t, at) ↦ elim (Bool-cases c.pipelining) [
        | inl p ↦
            let q : data_refusal [] c ≡ 554 = ground arith in
            rw (q, cmd_data-pipelined c t at (ground arith) p) (plain_refusal 554 _ c quiet)
        | inr p ↦
            let q : data_refusal [] c ≡ 503 = ground arith in
            rw (q, cmd_data-alone c t at (ground arith) p) (error_refusal 503 _ c _ quiet)
      ]
    ]

    -- From a client that has sent nothing ahead, DATA that may not start is refused: with 501 if it
    -- has arguments, else with 503 if there is no transaction, and with no recipient in the
    -- transaction with 554 if the client pipelines, else with 503. One reply, no hook, the
    -- transaction as it was, and the connection stays open.
    pub cmd_data-Refused :
        (args : Text) (c : Connection M)
        → IsQuiet c
        → may_start args c ≡ false
        → Refused (data_refusal args c) c (cmd_data env cfg again args c)
    cmd_data-Refused (a ∷ args) c quiet h = unfold cmd_data in error_refusal 501 _ c _ quiet
    cmd_data-Refused [] c quiet h = cmd_data-nobody c quiet (ground arith)
