-- ===== src/Connection/Respond.antt =====
-- email/connection.js: `respond` and what it sends. The call of `_process_data` that ends it is
-- the argument `again`, for which `Connection.Input` puts the loop over the buffered lines.
use companyly_microservices.Base.{
  ℕ, Bool, true, false, none, some, List, [], ◌∷◌, ◌++◌, Text, ◌&&◌, not, ◌==◌, ltb, if◌then◌else◌,
  codes, decimal, is_empty, is_space, any, select, split_at, join, take,
}
use companyly_microservices.Connection.State.{
  State, cmd, loop, disconnected, Msg, no_msg, text, lines, dsn, write, Config, Connection,
}
use companyly_microservices.Connection.Reset.{closing, Env, emit, fail}

-- `msg || default`
unfoldable pub or_default : Msg → Msg → Msg
or_default no_msg d = d
or_default (text []) d = d
or_default (text (c ∷ s)) d = text (c ∷ s)
or_default (lines ls) d = lines ls
or_default (dsn code s) d = dsn code s

abbrev pub is_loop : State → Bool
is_loop loop = true
is_loop _ = false

abbrev pub is_disconnected : State → Bool
is_disconnected disconnected = true
is_disconnected _ = false

-- A DSN object's code overrides the one given.
unfoldable pub code_of : ℕ → Msg → ℕ
code_of code (dsn c s) = c
code_of code _ = code

unfoldable pub lines_of : Msg → List Text
lines_of no_msg = []
lines_of (text s) = split_at 10 s
lines_of (lines ls) = ls
lines_of (dsn c s) = split_at 10 s

-- The lines that hold more than blanks; a 334 with no line gets an empty one.
unfoldable pub messages_of : ℕ → Msg → List Text
messages_of code msg =
    let kept = select (λ s. any (λ c. not (is_space c)) s) (lines_of msg) in
    if code == 334 && is_empty kept then (32 ∷ []) ∷ [] else kept

abbrev pub crlf : Text
crlf = 13 ∷ 10 ∷ []

-- The loop over the lines, which stops at an empty one.
unfoldable pub reply_text : Text → Text → List Text → Text
reply_text code uuid [] = []
reply_text code uuid ([] ∷ ms) = []
reply_text code uuid ((c ∷ s) ∷ ms) =
    (code ++ ((if is_empty ms then 32 else 45) ∷ (uuid ++ ((c ∷ s) ++ crlf))))
    ++ reply_text code uuid ms

-- No closure.
abbrev pub idle {ℓ} : {A : Type ℓ} → A → A
idle c = c

module _ {M : Type 0} (env : Env M) (cfg : Config) (again : Connection M → Connection M) where
  -- The uuid in the text of a rejection.
  unfoldable pub uuid_text : ℕ → Connection M → Text
  uuid_text code c =
      if ltb code 400
      then []
      else if cfg.deny_includes_uuid == 0
      then []
      else let uuid : Text = elim c.transaction [ none ↦ c.uuid | some t ↦ t.uuid ] in
        let shown : Text =
          if ltb 1 cfg.deny_includes_uuid then take cfg.deny_includes_uuid uuid else uuid in
        if is_empty shown then [] else codes "[" ++ shown ++ codes "@" ++ cfg.hostname ++ codes "] "

  unfoldable pub note_reject : ℕ → List Text → Connection M → Connection M
  note_reject code ms c =
      if ltb code 400
      then c
      else record c { last_reject = decimal code ++ codes " " ++ join (codes " ") ms }

  -- From `client.write` on.
  unfoldable pub send : ℕ → Text → (Connection M → Connection M) → Connection M → Connection M
  send code buf func c =
      if not c.writable
      then fail env c
      else again (
          func (
            let c' = emit (write code buf) (record c { last_response = buf }) in
            if is_loop c.state then c' else record c' { state = cmd }))

  unfoldable pub respond : ℕ → Msg → (Connection M → Connection M) → Connection M → Connection M
  respond code msg func c =
      if is_disconnected c.state
      then func c
      else let code' = code_of code msg in
        let ms = messages_of code' msg in
        send code' (reply_text (decimal code') (uuid_text code' c) ms) func (note_reject code' ms c)

  unfoldable pub loop_respond : ℕ → Msg → Connection M → Connection M
  loop_respond code msg c =
      if closing c.state
      then c
      else respond code msg idle (record c { state = loop; loop_code = code; loop_msg = msg })
