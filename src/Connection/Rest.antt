-- ===== src/Connection/Rest.antt =====
-- A connection with no buffered input: `_process_data` of email/connection.js leaves it alone, so
-- that `respond` ends with its closure.
use companyly_microservices.Base.{
  ℕ, zero, suc, Bool, true, false, ◌≡◌, refl, Option, none, some, List, [], ◌∷◌, Text, arith,
  decimal, if◌then◌else◌,
}
use companyly_microservices.Connection.State.{
  State, cmd, loop, Msg, Event, write, run, Hook, Config, Connection,
}
use companyly_microservices.Connection.Reset.{Env, emit, closing, is_pause_data}
use companyly_microservices.Connection.Respond.{
  is_loop, is_disconnected, code_of, messages_of, reply_text, uuid_text, note_reject, send, respond,
}
use companyly_microservices.Connection.Input.{line_loop, check_length, process_data}
use companyly_microservices.Connection.Line.{in_data}

abbrev pub no_data : Option Text → Bool
no_data none = true
no_data (some []) = true
no_data (some (c ∷ s)) = false

-- The codes of the replies written, newest first.
abbrev pub replies : List Event → List ℕ
replies [] = []
replies (write code buf ∷ es) = code ∷ replies es
replies (_ ∷ es) = replies es

-- The same with what is written, which may be nothing.
abbrev pub written : List Event → List (ℕ × Text)
written [] = []
written (write code buf ∷ es) = (code, buf) ∷ written es
written (_ ∷ es) = written es

-- The hooks started, newest first.
abbrev pub hooks : List Event → List Hook
hooks [] = []
hooks (run h ∷ es) = h ∷ hooks es
hooks (_ ∷ es) = hooks es

module _ {M : Type 0} where
  -- `again` does nothing where no input is buffered.
  abbrev pub Rests : (Connection M → Connection M) → Type 0
  Rests again = (c : Connection M) → no_data c.current_data ≡ true → again c ≡ c

  -- A client that is there, and has sent nothing that still waits.
  abbrev pub IsQuiet : Connection M → Type 0
  IsQuiet c =
      (c.writable ≡ true) × (is_disconnected c.state ≡ false) × (no_data c.current_data ≡ true)

  module _ (env : Env M) (cfg : Config) where
    -- What a reply changes before its closure runs.
    unfoldable pub replied : ℕ → Msg → Connection M → Connection M
    replied code msg c =
        let code' = code_of code msg in
        let buf =
          reply_text (decimal code') (uuid_text env cfg (λ d. d) code' c) (messages_of code' msg) in
        let c1 = note_reject env cfg (λ d. d) code' (messages_of code' msg) c in
        let c2 = emit (write code' buf) (record c1 { last_response = buf }) in
        if is_loop c1.state then c2 else record c2 { state = cmd }

    module _ (again : Connection M → Connection M) (max : ℕ)
        (empty_line : env.index_of_lf [] max ≡ none) where
      line_loop-no_data :
          (fuel : ℕ) (c : Connection M) (buf : Option Text)
          → c.current_data ≡ buf
          → no_data buf ≡ true
          → line_loop env cfg again (suc fuel) max c ≡ (c, false)
      unfolding line_loop
      line_loop-no_data fuel c none e q = ground arith
      line_loop-no_data fuel c (some []) e q = ground (arith, empty_line)
      line_loop-no_data fuel c (some (a ∷ s)) e q = cc

      check_length-no_data :
          (c : Connection M) (buf : Option Text)
          → c.current_data ≡ buf
          → no_data buf ≡ true
          → check_length env cfg again max c ≡ c
      unfolding check_length
      check_length-no_data c none e q = ground arith
      check_length-no_data c (some []) e q = ground (arith, empty_line)
      check_length-no_data c (some (a ∷ s)) e q = cc

    pub process_data-Rests :
        ((max : ℕ) → env.index_of_lf [] max ≡ none) → (fuel : ℕ) → Rests (process_data env cfg fuel)
    unfolding process_data
    process_data-Rests h zero c q = refl
    process_data-Rests h (suc zero) c q = unfold line_loop in ground arith
    process_data-Rests h (suc (suc fuel)) c q =
        let max = if in_data c.state then cfg.max_data_line_length else cfg.max_line_length in
        ground (
          arith,
          line_loop-no_data (process_data env cfg (suc fuel)) max (h max) fuel c c.current_data refl
              q,
          check_length-no_data (process_data env cfg (suc fuel)) max (h max) c c.current_data refl
              q,
        )

    module _ (again : Connection M → Connection M) (rests : Rests again) where
      pub respond-replied :
          (code : ℕ) (msg : Msg) (func : Connection M → Connection M) (c : Connection M)
          → IsQuiet c
          → no_data (func (replied code msg c)).current_data ≡ true
          → respond env cfg again code msg func c ≡ func (replied code msg c)
      unfolding respond send replied uuid_text note_reject
      respond-replied code msg func c q h = ground (arith, rests (func (replied code msg c)) h)

-- What `replied` changes, and what it leaves.
pub record IsReply {M : Type 0} (code : ℕ) (c d : Connection M) : Type 0 where
  pub same_transaction : d.transaction ≡ c.transaction
  pub same_rcpt_count : d.rcpt_count ≡ c.rcpt_count
  pub same_msg_count : d.msg_count ≡ c.msg_count
  pub same_data : d.current_data ≡ c.current_data
  pub same_errors : d.errors ≡ c.errors
  pub one_reply : replies d.events ≡ code ∷ replies c.events
  pub same_hooks : hooks d.events ≡ hooks c.events
  pub new_state : d.state ≡ (if is_loop c.state then c.state else cmd)

pub replied-IsReply :
    {M : Type 0} (env : Env M) (cfg : Config) (code : ℕ) (msg : Msg) (c : Connection M)
    → IsReply (code_of code msg) c (replied env cfg code msg c)
unfolding replied note_reject
replied-IsReply env cfg code msg c = ground arith

state_of_reply :
    (s : State)
    → (closing (if is_loop s then s else cmd) ≡ false)
      × (is_pause_data (if is_loop s then s else cmd) ≡ false)
state_of_reply loop = (refl, refl)
state_of_reply _ = (refl, refl)

-- After a reply the connection is neither closing nor paused.
pub closing-IsReply :
    {M : Type 0} {code : ℕ} {c d : Connection M} → IsReply code c d → closing d.state ≡ false
closing-IsReply {c = c} h = rw h.new_state ((state_of_reply c.state).0)

pub is_pause_data-IsReply :
    {M : Type 0} {code : ℕ} {c d : Connection M} → IsReply code c d → is_pause_data d.state ≡ false
is_pause_data-IsReply {c = c} h = rw h.new_state ((state_of_reply c.state).1)
