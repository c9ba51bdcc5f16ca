-- ===== src/SmtpClient/Release.antt =====
-- How email/smtp_client.js gives a connection back to its pool.
use companyly_microservices.Base.{
  true, false, ◌≡◌, refl, List, inl, inr, Bool-cases, if◌then◌else◌, some, [], ◌∷◌, Text, ◌||◌,
  codes, join, text_eq, arith,
}
use companyly_microservices.SmtpClient.State.{
  idle, released, destroyed, rset, replied, bad_code, signal, wrote, pool_release, pool_destroy,
  Signal, Event, Client,
}
use companyly_microservices.SmtpClient.{
  Line, read_line, refused, starts, is_mid_data, is_destroyed, destroy, send_command, release,
  own_listener, tell, go_on, timed_out, check_code, ehlo_replied, on_reply, on_line,
}

-- An event of the pool, for a client that has one.
abbrev pub to_pool : Client → Event → List Event → List Event
to_pool c e es = if c.has_pool then e ∷ es else es

-- A connection that may be used again.
pub record Reusable (c : Client) : Type 0 where
  pub connected : c.connected ≡ true
  pub not_mid_data : is_mid_data c.command ≡ false
  pub not_destroyed : is_destroyed c.state ≡ false
  pub not_auth : c.authenticating ≡ false

module _ (listen : Signal → Client → Client) where
  release-eq :
      (c : Client)
      → Reusable c
      → release c ≡ record c {
        state = released;
        command = rset;
        response = [];
        returning = true;
        events = wrote (codes "RSET") ∷ c.events;
      }
  unfolding release send_command
  release-eq c u =
      let e1 = u.connected in let e2 = u.not_mid_data in let e3 = u.not_destroyed in ground arith

  not_441 : (code : Text) → starts 50 code ≡ true → text_eq code (codes "441") ≡ false
  unfolding text_eq
  not_441 [] two = absurd (ground arith)
  not_441 (c ∷ s) two = ground arith

  timed_out-same : (l : Line) (d : Client) → starts 50 l.code ≡ true → timed_out listen l d ≡ d
  unfolding timed_out
  timed_out-same l d two = rw (not_441 l.code two) refl

  starts_other : (code : Text) → starts 50 code ≡ true → starts 52 code || starts 53 code ≡ false
  starts_other [] two = absurd (ground arith)
  starts_other (c ∷ s) two = ground arith

  -- A dialogue that waits for the reply to the RSET of `release`.
  pub record Waits (d : Client) : Type 0 where
    pub waits_rset : d.command ≡ rset
    pub is_released : d.state ≡ released
    pub no_auth : d.authenticating ≡ false
    pub own : d.returning ≡ true

  on_reply-checks : (l : Line) (d : Client) → Waits d → on_reply listen l d ≡ check_code listen l d
  unfolding on_reply ehlo_replied
  on_reply-checks l d w = rw w.waits_rset rw w.no_auth refl

  check_code-accepted :
      (l : Line) (d : Client)
      → Waits d
      → starts 50 l.code ≡ true
      → ((check_code listen l d).state ≡ idle)
        × ((check_code listen l d).events
            ≡ to_pool d pool_release (signal (replied rset) ∷ d.events))
  unfolding check_code go_on tell own_listener
  check_code-accepted l d w two =
      rw (timed_out-same l d two) rw (starts_other l.code two) rw w.waits_rset rw w.own rw
        w.is_released
        (elim (Bool-cases d.has_pool) [
          | inl pool ↦ rw pool (refl, refl)
          | inr no_pool ↦ rw no_pool (refl, refl)
        ])

  check_code-refused :
      (l : Line) (d : Client)
      → Waits d
      → starts 52 l.code || starts 53 l.code ≡ true
      → ((check_code listen l d).state ≡ (if d.has_pool then destroyed else released))
        × ((check_code listen l d).events
            ≡ to_pool d pool_destroy
                (signal (bad_code l.code (join (codes " ") d.response)) ∷ d.events))
  unfolding check_code refused tell own_listener destroy
  check_code-refused l d w bad =
      rw bad rw w.waits_rset rw w.own rw w.is_released (elim (Bool-cases d.has_pool) [
        | inl pool ↦ rw pool (refl, refl)
        | inr no_pool ↦ rw no_pool (refl, refl)
      ])

  on_line-checks :
      (line : Text) (l : Line) (d : Client)
      → Waits d
      → read_line line ≡ some l
      → l.more ≡ false
      → d.response ≡ []
      → on_line listen line d ≡ check_code listen l (record d { response = l.msg ∷ [] })
  unfolding on_line
  on_line-checks line l d w read last fresh =
      rw (read, on_line)
        (rw last (
          rw fresh (
            on_reply-checks l _ record {
              waits_rset = w.waits_rset;
              is_released = w.is_released;
              no_auth = w.no_auth;
              own = w.own;
            })))

  abbrev released_client : Client → Client
  released_client c = record c {
    state = released;
    command = rset;
    response = [];
    returning = true;
    events = wrote (codes "RSET") ∷ c.events;
  }

  -- A connected client that is not destroyed, not within DATA nor AUTH, and is given back: RSET is
  -- sent. After a reply 2xx the client is idle, and is released to its pool if it has one; after a
  -- reply 4xx or 5xx its pool destroys it if it has one, and a client without a pool stays released,
  -- with nothing more sent or closed. No listener but those of `release` has a part in it.
  pub release_returns :
      (c : Client) (good bad : Text) (l k : Line)
      → Reusable c
      → read_line good ≡ some l
      → l.more ≡ false
      → starts 50 l.code ≡ true
      → read_line bad ≡ some k
      → k.more ≡ false
      → starts 52 k.code || starts 53 k.code ≡ true
      → (((on_line listen good (release c)).state ≡ idle)
          × ((on_line listen good (release c)).events
              ≡ to_pool c pool_release (signal (replied rset) ∷ wrote (codes "RSET") ∷ c.events)))
        × (((on_line listen bad (release c)).state ≡ (if c.has_pool then destroyed else released))
            × ((on_line listen bad (release c)).events
                ≡ to_pool c pool_destroy (
                    signal (bad_code k.code (join (codes " ") (k.msg ∷ [])))
                    ∷ wrote (codes "RSET")
                    ∷ c.events)))
  release_returns c good bad l k u read last two read' last' not_two =
      let w : Waits (released_client c) = record {
        waits_rset = refl;
        is_released = refl;
        no_auth = u.not_auth;
        own = refl;
      } in
      let w' : (m : Text) → Waits (record (released_client c) { response = m ∷ [] }) =
        λ m. record { waits_rset = refl; is_released = refl; no_auth = u.not_auth; own = refl } in
      rw (release-eq c u) rw (on_line-checks good l (released_client c) w read last refl) rw
        (on_line-checks bad k (released_client c) w read' last' refl)
        (check_code-accepted l _ (w' l.msg) two, check_code-refused k _ (w' k.msg) not_two)
