-- ===== src/Connection/Verdicts.antt =====
-- What the answers of the hooks mean, as tables: the reply code, the counter, and whether the
-- connection goes on. email/connection.js has them as the cases of its `_respond` methods.
use companyly_microservices.Base.{ℕ, Bool, true, false, List, [], ◌∷◌}
use companyly_microservices.Connection.State.{
  Retval, deny, denysoft, denydisconnect, denysoftdisconnect, Msg,
}
use companyly_microservices.Connection.Heard.{says_or}
use companyly_microservices.Connection.Envelope.{Action, accept, tempfail, reject}

-- What an answer of a hook means for the recipient, and for the connection.
pub record Verdict : Type 0 where
  pub code : ℕ
  pub action : Action
  pub drop : Bool

-- The table: a permanent or a temporary refusal, each with or without the end of the connection.
abbrev pub verdict : Retval → Verdict
verdict deny = record { code = 550; action = reject; drop = false }
verdict denydisconnect = record { code = 550; action = reject; drop = true }
verdict denysoft = record { code = 450; action = tempfail; drop = false }
verdict denysoftdisconnect = record { code = 450; action = tempfail; drop = true }
verdict _ = record { code = 250; action = accept; drop = false }

-- The same table where nobody has accepted the recipient yet: all else is a permanent refusal.
abbrev pub rcpt_verdict : Retval → Verdict
rcpt_verdict deny = record { code = 550; action = reject; drop = false }
rcpt_verdict denydisconnect = record { code = 550; action = reject; drop = true }
rcpt_verdict denysoft = record { code = 450; action = tempfail; drop = false }
rcpt_verdict denysoftdisconnect = record { code = 450; action = tempfail; drop = true }
rcpt_verdict _ = record { code = 550; action = reject; drop = false }

-- What the client hears: a plugin's refusal may bring its own code, or nothing to say.
abbrev pub rcpt_says : Retval → Msg → List ℕ
rcpt_says deny msg = says_or 550 msg
rcpt_says denydisconnect msg = says_or 550 msg
rcpt_says denysoft msg = says_or 450 msg
rcpt_says denysoftdisconnect msg = says_or 450 msg
rcpt_says _ msg = 550 ∷ []

abbrev pub is_accept : Action → Bool
is_accept accept = true
is_accept _ = false
