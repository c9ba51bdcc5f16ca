-- ===== src/SmtpClient/Tests.antt =====
-- The client of email/smtp_client.js at concrete values.
use companyly_microservices.Base.{true, false, ◌≡◌, refl, [], ◌∷◌, codes, join}
use companyly_microservices.Outbound.Delivery.Reply.{is_digit, until_eol}
use companyly_microservices.SmtpClient.State.{
  idle, active, released, dot, rset, replied, bad_code, signal, wrote, Client,
}
use companyly_microservices.SmtpClient.{read_line, release, on_line}
use companyly_microservices.SmtpClient.Release.{release_returns}

-- A client as `get_client` gives it, without a pool.
abbrev sent : Client
sent = record {
  state = active;
  command = dot;
  response = [];
  connected = true;
  authenticating = false;
  authenticated = false;
  xclient = false;
  has_pool = false;
  returning = false;
  events = [];
}

release_returns_example :
    (((on_line (λ s c. c) (codes "250 ok") (release sent)).state ≡ idle)
      × ((on_line (λ s c. c) (codes "250 ok") (release sent)).events
          ≡ signal (replied rset) ∷ wrote (codes "RSET") ∷ []))
    × (((on_line (λ s c. c) (codes "421 no") (release sent)).state ≡ released)
        × ((on_line (λ s c. c) (codes "421 no") (release sent)).events
            ≡ signal (bad_code (codes "421") (codes "no")) ∷ wrote (codes "RSET") ∷ []))
unfolding read_line is_digit until_eol join
release_returns_example =
    release_returns (λ s c. c) sent (codes "250 ok") (codes "421 no")
      record { code = codes "250"; more = false; msg = codes "ok" }
      record { code = codes "421"; more = false; msg = codes "no" }
      record { connected = refl; not_mid_data = refl; not_destroyed = refl; not_auth = refl } refl
      refl refl refl refl refl
