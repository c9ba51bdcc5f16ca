-- ===== src/Outbound/Item/Attempts.antt =====
-- How email/outbound/hmail.js goes through the hosts of a domain while no connection succeeds.
use companyly_microservices.Base.{
  ℕ, ◌+◌, ◌-◌, ◌≤◌, zero, suc, Bool, false, ◌≡◌, refl, sym, ap, ◌∙◌, Option, none, some, List, [],
  ◌∷◌, Text, ◌&&◌, not, if◌then◌else◌, ltb, length, arith, inl, inr, Bool-cases,
}
use companyly_microservices.Outbound.Mx.{MxRecord}
use companyly_microservices.Outbound.Item.State.{
  Event, resolve, get_client, note_dsn, Dsn, HMailItem, Config,
}
use companyly_microservices.Outbound.Item.{emit, temp_fail, convert_temp_failed_to_bounce, bounce}
use companyly_microservices.Outbound.Item.Hosts.{
  try_deliver, try_deliver_host, connect_to, resolved, got_client,
}

-- How often a message has failed that has so many hosts to try, after so many answers.
abbrev settled : ℕ → ℕ → ℕ
settled k n = if ltb n k then 0 else 1

settled-more : (k : ℕ) → 1 ≤ k → settled k 0 ≡ 0
settled-more k h = ground arith

module _ {B : Type 0} (cfg : Config B) (dns : MxRecord B → Option (List Text)) where
  abbrev pub addresses : MxRecord B → ℕ
  addresses mx = elim (dns mx) [ none ↦ 0 | some hosts ↦ length hosts ]

  -- The requests that the records make: one to DNS for each name, and one connection for each address.
  abbrev pub requests : Bool → List (MxRecord B) → ℕ
  requests asked [] = 0
  requests asked (mx ∷ mxes) =
      (if not asked && cfg.is_ip mx.exchange then 1 else suc (addresses mx)) + requests asked mxes

module _ {A B : Type 0} (cfg : Config B) (dns : MxRecord B → Option (List Text)) where
  -- The answer to a request: of DNS as it is, and of the pool of connections always an error.
  unfoldable pub answer : Event B → HMailItem A B → HMailItem A B
  answer (get_client mx host) h = got_client cfg mx host false h
  answer (resolve mx) h = resolved cfg mx (dns mx) h
  answer e h = h

  unfoldable pub answer_latest : HMailItem A B → HMailItem A B
  unfolding answer
  answer_latest h = elim h.events [ [] ↦ h | e ∷ es ↦ answer e h ]

  -- So many answers, each to the request that the item has made last.
  unfoldable pub attempts : ℕ → HMailItem A B → HMailItem A B
  unfolding answer_latest
  attempts zero h = h
  attempts (suc n) h = attempts n (answer_latest h)

  abbrev pub asked : HMailItem A B → Bool
  asked h = elim h.todo [ none ↦ false | some t ↦ t.force_tls ]

  -- The requests to come, with the one that waits for its answer.
  abbrev waiting : HMailItem A B → Event B → ℕ
  waiting h (get_client mx host) = suc (length h.hostlist + requests cfg dns (asked h) h.mxlist)
  waiting h (resolve mx) = suc (addresses cfg dns mx + requests cfg dns (asked h) h.mxlist)
  waiting h e = 0

  abbrev pub left : HMailItem A B → ℕ
  left h = elim h.events [ [] ↦ 0 | e ∷ es ↦ waiting h e ]

  -- From `h` on there are `k` requests; with none the message fails.
  record Goes (k : ℕ) (h d : HMailItem A B) : Type 0 where
    still_left : left d ≡ k
    failed : d.num_failures ≡ h.num_failures + settled k 0

  temp_fail-Goes :
      (err : Text) (dsn : Dsn) (h : HMailItem A B)
      → Goes 0 h (temp_fail cfg err (emit (note_dsn dsn) h))
  unfolding temp_fail convert_temp_failed_to_bounce bounce
  temp_fail-Goes err dsn h = record { still_left = ground arith; failed = ground arith }

  try_deliver-Goes :
      (h : HMailItem A B) → Goes (requests cfg dns (asked h) h.mxlist) h (try_deliver cfg h)
  unfolding try_deliver connect_to
  try_deliver-Goes h = by_records h.mxlist refl
    where
      by_records :
          (mxes : List (MxRecord B))
          → h.mxlist ≡ mxes
          → Goes (requests cfg dns (asked h) h.mxlist) h (try_deliver cfg h)
      by_records [] e = rw (e, try_deliver) rw e (temp_fail-Goes _ _ _)
      by_records (mx ∷ rest) e = elim (Bool-cases (not (asked h) && cfg.is_ip mx.exchange)) [
        | inl ip ↦
            rw (e, try_deliver) rw e rw ip
              record { still_left = ground arith; failed = ground arith }
        | inr name ↦
            rw (e, try_deliver) rw e rw name
              record { still_left = ground arith; failed = ground arith }
      ]

  Goes-eq : (j k : ℕ) (h d : HMailItem A B) → j ≡ k → Goes j h d → Goes k h d
  Goes-eq j k h d e g = rw e at g

  try_deliver_host-Goes :
      (k : ℕ) (mx : MxRecord B) (h : HMailItem A B)
      → length h.hostlist + requests cfg dns (asked h) h.mxlist ≡ k
      → Goes k h (try_deliver_host cfg mx h)
  unfolding try_deliver_host connect_to
  try_deliver_host-Goes k mx h some_left = by_hosts h.hostlist refl
    where
      next_host :
          (hs : List Text)
          → h.hostlist ≡ hs
          → try_deliver_host cfg mx h ≡ elim hs as (λ k. HMailItem A B) [
            | [] ↦ try_deliver cfg h
            | x ∷ xs ↦ connect_to cfg mx x xs h
          ]
      next_host hs e =
          ap
            (λ hs. elim hs as (λ k. HMailItem A B) [
              | [] ↦ try_deliver cfg h
              | x ∷ xs ↦ connect_to cfg mx x xs h
            ])
            e

      by_hosts : (hs : List Text) → h.hostlist ≡ hs → Goes k h (try_deliver_host cfg mx h)
      by_hosts [] e = rw (next_host [] e) (
          Goes-eq (requests cfg dns (asked h) h.mxlist) k h (try_deliver cfg h)
            (omega (arith, some_left, ap length e)) (try_deliver-Goes h))
      by_hosts (x ∷ hs) e = rw (next_host (x ∷ hs) e) record {
        still_left = omega (arith, some_left, ap length e);
        failed = omega (arith, settled-more k (omega (arith, some_left, ap length e)));
      }

  resolved-Goes :
      (k : ℕ) (mx : MxRecord B) (h : HMailItem A B)
      → addresses cfg dns mx + requests cfg dns (asked h) h.mxlist ≡ k
      → Goes k h (resolved cfg mx (dns mx) h)
  unfolding resolved try_deliver_host connect_to
  resolved-Goes k mx h some_left = by_hosts (dns mx) refl
    where
      addresses_at :
          (o : Option (List Text))
          → dns mx ≡ o
          → addresses cfg dns mx ≡ elim o as (λ k. ℕ) [ none ↦ 0 | some hosts ↦ length hosts ]
      addresses_at o e = ap (λ o. elim o as (λ k. ℕ) [ none ↦ 0 | some hosts ↦ length hosts ]) e

      by_hosts : (o : Option (List Text)) → dns mx ≡ o → Goes k h (resolved cfg mx o h)
      by_hosts none e =
          Goes-eq (requests cfg dns (asked h) h.mxlist) k h (try_deliver cfg h)
            (omega (arith, some_left, addresses_at none e)) (try_deliver-Goes h)
      by_hosts (some []) e =
          Goes-eq (requests cfg dns (asked h) h.mxlist) k h (try_deliver cfg h)
            (omega (arith, some_left, addresses_at (some []) e)) (try_deliver-Goes h)
      by_hosts (some (x ∷ hs)) e = record {
        still_left = omega (arith, some_left, addresses_at (some (x ∷ hs)) e);
        failed =
            omega
              (arith, settled-more k (omega (arith, some_left, addresses_at (some (x ∷ hs)) e)));
      }

  answer-Goes :
      (k : ℕ) (h : HMailItem A B) (e : Event B) → waiting h e ≡ suc k → Goes k h (answer e h)
  unfolding answer got_client
  answer-Goes k h (get_client mx host) some_left =
      try_deliver_host-Goes k mx h (omega (arith, some_left))
  answer-Goes k h (resolve mx) some_left = resolved-Goes k mx h (omega (arith, some_left))
  answer-Goes k h e some_left = absurd (omega (arith, some_left))

  answer_latest-eq :
      (h : HMailItem A B) (es : List (Event B))
      → h.events ≡ es
      → (answer_latest h ≡ elim es as (λ k. HMailItem A B) [ [] ↦ h | e ∷ es ↦ answer e h ])
        × (left h ≡ elim es as (λ k. ℕ) [ [] ↦ 0 | e ∷ es ↦ waiting h e ])
  unfolding answer_latest
  answer_latest-eq h es e = (
    ap (λ es. elim es as (λ k. HMailItem A B) [ [] ↦ h | e ∷ es ↦ answer e h ]) e,
    ap (λ es. elim es as (λ k. ℕ) [ [] ↦ 0 | e ∷ es ↦ waiting h e ]) e,
  )

  -- The answer to the request that waits.
  answer_latest-Goes : (k : ℕ) (h : HMailItem A B) → left h ≡ suc k → Goes k h (answer_latest h)
  answer_latest-Goes k h some_left = by_events h.events refl
    where
      by_events : (es : List (Event B)) → h.events ≡ es → Goes k h (answer_latest h)
      by_events [] e =
          let (same, at) = answer_latest-eq h [] e in absurd (omega (arith, at, some_left))
      by_events (x ∷ es) e =
          let (same, at) = answer_latest-eq h (x ∷ es) e in
          rw same (answer-Goes k h x (sym at ∙ some_left))

  answer-idle : (h : HMailItem A B) (e : Event B) → waiting h e ≡ 0 → answer e h ≡ h
  unfolding answer
  answer-idle h (get_client mx host) none_left = absurd (omega (arith, none_left))
  answer-idle h (resolve mx) none_left = absurd (omega (arith, none_left))
  answer-idle h e none_left = refl

  answer_latest-idle : (h : HMailItem A B) → left h ≡ 0 → answer_latest h ≡ h
  answer_latest-idle h none_left = by_events h.events refl
    where
      by_events : (es : List (Event B)) → h.events ≡ es → answer_latest h ≡ h
      by_events [] e = (answer_latest-eq h [] e).0
      by_events (x ∷ es) e =
          let (same, at) = answer_latest-eq h (x ∷ es) e in
          same ∙ answer-idle h x (sym at ∙ none_left)

  attempts_from :
      (n k : ℕ) (h d : HMailItem A B)
      → Goes k h d
      → ((attempts n d).num_failures ≡ h.num_failures + settled k n) × (left (attempts n d) ≡ k - n)
  unfolding attempts
  attempts_from zero k h d g = (g.failed, g.still_left ∙ ground arith)
  attempts_from (suc n) zero h d g =
      let (e, f) = attempts_from n zero h d g in
      rw (answer_latest-idle d g.still_left, attempts) (e ∙ ground arith, f ∙ ground arith)
  attempts_from (suc n) (suc k) h d g =
      let (e, f) = attempts_from n k d (answer_latest d) (answer_latest-Goes k d g.still_left) in
      (ground (arith, e, g.failed), f ∙ ground arith)

  -- Whatever DNS answers, as long as every connection fails: each answer takes one request off those
  -- that the records make, one to DNS for each name and one for a connection to each address. Until
  -- all are answered the message has not failed; then it has failed once, and nothing more is asked.
  pub attempts_end :
      (n : ℕ) (h : HMailItem A B)
      → ((attempts n (try_deliver cfg h)).num_failures
          ≡ h.num_failures + (if ltb n (requests cfg dns (asked h) h.mxlist) then 0 else 1))
        × (left (attempts n (try_deliver cfg h)) ≡ requests cfg dns (asked h) h.mxlist - n)
  attempts_end n h = attempts_from n _ h (try_deliver cfg h) (try_deliver-Goes h)
