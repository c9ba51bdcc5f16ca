-- ===== src/Spf/Once.antt =====
-- email/plugins/spf.js: how often a hook calls `next`, and what the old settings come to.
use companyly_microservices.Base.{
  ℕ, suc, ◌≤◌, ◌≡◌, refl, ◌∙◌, true, false, inl, inr, List, [], ◌∷◌, ◌++◌, Text, if◌then◌else◌,
  text_eq, codes, arith, Bool-cases,
}
use companyly_microservices.Spf.Plugin.{
  Section, legacy, legacy_phase, load_spf_ini, Config, Client, Next, next, next_deny, next_denysoft,
  message_start, refusal, return_results,
}
use companyly_microservices.Spf.Hooks.{Event, timer_fired, answered, asked, hear, hear_all}
use companyly_microservices.Spf.{
  SpfResult, spf_none, spf_pass, spf_fail, spf_softfail, spf_neutral, spf_temperror, spf_permerror,
}

-- How often the check calls back.
abbrev answers : List Event → ℕ
answers [] = 0
answers (timer_fired ∷ es) = answers es
answers (answered n ∷ es) = suc (answers es)

-- The first event decides.
abbrev first_event : List Event → List Next
first_event [] = []
first_event (timer_fired ∷ es) = next ∷ []
first_event (answered n ∷ es) = n ∷ []

after_timeout :
    (es : List Event) (n : Next)
    → (hear_all es (record { timer = false; timeout = true; nexts = n ∷ [] })).nexts ≡ n ∷ []
unfolding hear_all hear
after_timeout [] n = refl
after_timeout (timer_fired ∷ es) n = after_timeout es n
after_timeout (answered m ∷ es) n = after_timeout es n

after_answer :
    (es : List Event) (n : Next)
    → answers es ≡ 0
    → (hear_all es (record { timer = false; timeout = false; nexts = n ∷ [] })).nexts ≡ n ∷ []
unfolding hear_all hear
after_answer [] n none_left = refl
after_answer (timer_fired ∷ es) n none_left = after_answer es n none_left
after_answer (answered m ∷ es) n none_left = absurd (omega arith)

-- Whatever the order of the timer and the one answer of the check, a hook calls `next` once: with the
-- answer, or with nothing if the timer came first.
hear_all-once : (es : List Event) → answers es ≤ 1 → (hear_all es asked).nexts ≡ first_event es
unfolding hear_all hear
hear_all-once [] one = refl
hear_all-once (timer_fired ∷ es) one = after_timeout es next
hear_all-once (answered n ∷ es) one = after_answer es n (omega arith)

legacy-other :
    (old new name : Text) (main flags : Section)
    → text_eq name new ≡ false
    → legacy old new main flags name ≡ flags name
unfolding legacy
legacy-other old new name main flags e = elim (Bool-cases (main old)) [
  | inl m ↦ rw (m, legacy) (rw e refl)
  | inr m ↦ rw (m, legacy) refl
]

-- None of the keys that the old settings set is this one.
record IsOther (name : Text) : Type 0 where
  helo_soft : text_eq name (codes "helo_softfail") ≡ false
  helo_fail : text_eq name (codes "helo_fail") ≡ false
  helo_perm : text_eq name (codes "helo_permerror") ≡ false
  helo_temp : text_eq name (codes "helo_temperror") ≡ false
  mail_soft : text_eq name (codes "mail_softfail") ≡ false
  mail_fail : text_eq name (codes "mail_fail") ≡ false
  mail_perm : text_eq name (codes "mail_permerror") ≡ false
  mail_temp : text_eq name (codes "mail_temperror") ≡ false

mfrom-IsOther : (s : Text) → IsOther (codes "mfrom" ++ s)
unfolding text_eq
mfrom-IsOther s = record {
  helo_soft = refl;
  helo_fail = refl;
  helo_perm = refl;
  helo_temp = refl;
  mail_soft = refl;
  mail_fail = refl;
  mail_perm = refl;
  mail_temp = refl;
}

openspf-IsOther : IsOther (codes "openspf_text")
unfolding text_eq
openspf-IsOther = record {
  helo_soft = refl;
  helo_fail = refl;
  helo_perm = refl;
  helo_temp = refl;
  mail_soft = refl;
  mail_fail = refl;
  mail_perm = refl;
  mail_temp = refl;
}

load_spf_ini-deny :
    (cfg : Config) (name : Text) → IsOther name → (load_spf_ini cfg).deny name ≡ cfg.deny name
unfolding load_spf_ini legacy_phase
load_spf_ini-deny cfg name o =
    legacy-other _ _ name cfg.main _ o.mail_perm
    ∙ (legacy-other _ _ name cfg.main _ o.mail_fail
        ∙ (legacy-other _ _ name cfg.main _ o.mail_soft
            ∙ (legacy-other _ _ name cfg.main _ o.helo_perm
                ∙ (legacy-other _ _ name cfg.main _ o.helo_fail
                    ∙ legacy-other _ _ name cfg.main _ o.helo_soft))))

load_spf_ini-defer :
    (cfg : Config) (name : Text) → IsOther name → (load_spf_ini cfg).defer name ≡ cfg.defer name
unfolding load_spf_ini legacy_phase
load_spf_ini-defer cfg name o =
    legacy-other _ _ name cfg.main _ o.mail_temp ∙ legacy-other _ _ name cfg.main _ o.helo_temp

abbrev deny_flags : Config → Client → Section
deny_flags cfg c = if c.relaying then cfg.deny_relay else cfg.deny

abbrev defer_flags : Config → Client → Section
defer_flags cfg c = if c.relaying then cfg.defer_relay else cfg.defer

deny_flags-load :
    (cfg : Config) (c : Client) (name : Text)
    → IsOther name
    → deny_flags (load_spf_ini cfg) c name ≡ deny_flags cfg c name
unfolding load_spf_ini legacy_phase
deny_flags-load cfg c name o = elim (Bool-cases c.relaying) [
  | inl e ↦ rw e refl
  | inr e ↦ rw e (load_spf_ini-deny cfg name o)
]

defer_flags-load :
    (cfg : Config) (c : Client) (name : Text)
    → IsOther name
    → defer_flags (load_spf_ini cfg) c name ≡ defer_flags cfg c name
unfolding load_spf_ini legacy_phase
defer_flags-load cfg c name o = elim (Bool-cases c.relaying) [
  | inl e ↦ rw e refl
  | inr e ↦ rw e (load_spf_ini-defer cfg name o)
]

module _ (unauthorized : Text → Text) (cfg : Config) (c : Client) (sender : Text) where
  refusal-load :
      (words : Text)
      → refusal unauthorized
          (deny_flags (load_spf_ini cfg) c)
          (codes "mfrom")
          sender
          c.remote_ip
          words
        ≡ refusal unauthorized (deny_flags cfg c) (codes "mfrom") sender c.remote_ip words
  unfolding refusal text_eq
  refusal-load words = rw (deny_flags-load cfg c (codes "openspf_text") openspf-IsOther) refl

  -- The old settings of MAIL set flags that no check of a sender reads: what a result means for the
  -- client is the same with them and without.
  legacy-ignored :
      (r : SpfResult)
      → return_results unauthorized (load_spf_ini cfg) c (codes "mfrom") sender r
        ≡ return_results unauthorized cfg c (codes "mfrom") sender r
  unfolding return_results text_eq
  legacy-ignored spf_none = λ i.
      if deny_flags-load cfg c (codes "mfrom_none") (mfrom-IsOther (codes "_none")) i
      then next_deny (refusal-load (codes " SPF record not found") i)
      else next
  legacy-ignored spf_pass = refl
  legacy-ignored spf_fail = λ i.
      if deny_flags-load cfg c (codes "mfrom_fail") (mfrom-IsOther (codes "_fail")) i
      then next_deny (refusal-load (codes " SPF Fail") i)
      else next
  legacy-ignored spf_softfail = λ i.
      if deny_flags-load cfg c (codes "mfrom_softfail") (mfrom-IsOther (codes "_softfail")) i
      then next_deny (refusal-load (codes " SPF SoftFail") i)
      else next
  legacy-ignored spf_neutral = refl
  legacy-ignored spf_temperror = λ i.
      if defer_flags-load cfg c (codes "mfrom_temperror") (mfrom-IsOther (codes "_temperror")) i
      then next_denysoft (message_start (codes "mfrom") sender ++ codes " SPF Temporary Error")
      else next
  legacy-ignored spf_permerror = λ i.
      if deny_flags-load cfg c (codes "mfrom_permerror") (mfrom-IsOther (codes "_permerror")) i
      then next_deny (message_start (codes "mfrom") sender ++ codes " SPF Permanent Error")
      else next
