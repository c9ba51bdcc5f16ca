-- ===== src/Connection/Waiting.antt =====
-- One command at a time: what `_process_data` of email/connection.js does with a line that comes
-- while the answer to an earlier command is still awaited.
use companyly_microservices.Base.{
  ℕ, suc, Bool, true, false, ◌≡◌, refl, sym, inl, inr, some, Text, arith, Bool-cases, ◌||◌, ◌+◌,
  take, drop, is_empty, map, to_upper, if◌then◌else◌,
}
use companyly_microservices.Connection.State.{
  State, disconnecting, disconnected, Config, Connection, process_later,
}
use companyly_microservices.Connection.Reset.{Env, closing, is_pause_data, emit}
use companyly_microservices.Connection.Line.{is_waiting, in_data, may_lead}
use companyly_microservices.Connection.Input.{pipeline, line_loop, check_length, process_data}
use companyly_microservices.Connection.Rest.{replies, hooks}

-- The connection waits for a hook.
abbrev waits_on : State → Bool
waits_on s = is_waiting s || is_pause_data s

waits_on-open : (s : State) → waits_on s ≡ true → closing s ≡ false
waits_on-open disconnecting w = sym w
waits_on-open disconnected w = sym w
waits_on-open _ w = refl

module _ {M : Type 0} where
  -- No reply, no hook, and the input, the state and the transaction as they were.
  pub record Waits (c d : Connection M) : Type 0 where
    pub same_replies : replies d.events ≡ replies c.events
    pub same_hooks : hooks d.events ≡ hooks c.events
    pub same_input : d.current_data ≡ c.current_data
    pub same_state : d.state ≡ c.state
    pub same_transaction : d.transaction ≡ c.transaction

  unchanged : (c : Connection M) → Waits c c
  unchanged c = record {
    same_replies = refl;
    same_hooks = refl;
    same_input = refl;
    same_state = refl;
    same_transaction = refl;
  }

  abbrev talked : Connection M → Connection M
  talked c = emit process_later (record c { early_talker = true })

  talked-Waits : (c : Connection M) → Waits c (talked c)
  talked-Waits c = record {
    same_replies = refl;
    same_hooks = refl;
    same_input = refl;
    same_state = refl;
    same_transaction = refl;
  }

  piped-Waits : (c : Connection M) → Waits c (record c { pipelining = true })
  piped-Waits c = record {
    same_replies = refl;
    same_hooks = refl;
    same_input = refl;
    same_state = refl;
    same_transaction = refl;
  }

  module _ (env : Env M) (cfg : Config) (again : Connection M → Connection M) (max fuel : ℕ)
      (c : Connection M) (buf : Text) (offset : ℕ) (has : c.current_data ≡ some buf)
      (line : env.index_of_lf buf max ≡ some offset) (plain : c.proxy.allowed ≡ false) where
    line_loop-paused :
        is_pause_data c.state ≡ true → line_loop env cfg again (suc fuel) max c ≡ (c, true)
    unfolding line_loop
    line_loop-paused p = ground arith

    line_loop-talked :
        is_waiting c.state ≡ true
        → c.esmtp ≡ false
        → line_loop env cfg again (suc fuel) max c ≡ (talked c, false)
    unfolding line_loop
    line_loop-talked w e = ground arith

    line_loop-piped :
        is_waiting c.state ≡ true
        → c.esmtp ≡ true
        → line_loop env cfg again (suc fuel) max c
          ≡ (pipeline env cfg again (take (offset + 1) buf) (drop (offset + 1) buf) c, false)
    unfolding line_loop
    line_loop-piped w e = ground arith

    check_length-line :
        (d : Connection M) → d.current_data ≡ some buf → check_length env cfg again max d ≡ d
    unfolding check_length
    check_length-line d is = ground arith

    pipeline-Waits :
        (l rest : Text) → Waits c (check_length env cfg again max (pipeline env cfg again l rest c))
    unfolding pipeline
    pipeline-Waits l rest =
        elim (Bool-cases (may_lead (map to_upper (take 4 l)) || is_empty rest)) [
          | inl e ↦
              let q : pipeline env cfg again l rest c ≡ record c { pipelining = true } =
                ground arith in
              rw (q, check_length-line (record c { pipelining = true }) has) (piped-Waits c)
          | inr e ↦
              let q : pipeline env cfg again l rest c ≡ talked c = ground arith in
              rw (q, check_length-line (talked c) has) (talked-Waits c)
        ]

    process_lem :
        (d : Connection M) (stop : Bool)
        → closing c.state ≡ false
        → line_loop env cfg again (suc fuel) max c ≡ (d, stop)
        → (if closing c.state
            then c
            else if (line_loop env cfg again (suc fuel) max c).1
            then (line_loop env cfg again (suc fuel) max c).0
            else check_length env cfg again max (line_loop env cfg again (suc fuel) max c).0)
          ≡ (if stop then d else check_length env cfg again max d)
    process_lem d stop o e = rw (o, e) refl

  abbrev pub limit : Config → Connection M → ℕ
  limit cfg c = if in_data c.state then cfg.max_data_line_length else cfg.max_line_length

  -- One command at a time: while a connection waits for a hook, and no PROXY command is allowed, a
  -- whole line that lies in the buffer stays there. `_process_data` then sends no reply, starts no
  -- hook, and leaves the buffer, the state and the transaction as they are.
  pub process_data-Waits :
      (env : Env M) (cfg : Config) (fuel : ℕ) (c : Connection M) (buf : Text) (offset : ℕ)
      → c.current_data ≡ some buf
      → env.index_of_lf buf (limit cfg c) ≡ some offset
      → c.proxy.allowed ≡ false
      → waits_on c.state ≡ true
      → Waits c (process_data env cfg (suc (suc fuel)) c)
  unfolding process_data
  process_data-Waits env cfg fuel c buf offset has line plain w =
      let again = process_data env cfg (suc fuel) in
      let o = waits_on-open c.state w in
      let step = process_lem env cfg again (limit cfg c) fuel c buf offset has line plain in
      elim (Bool-cases (is_pause_data c.state)) [
        | inl p ↦
            rw
              (step c true o
                (line_loop-paused env cfg again (limit cfg c) fuel c buf offset has line plain p))
              (unchanged c)
        | inr p ↦ elim (Bool-cases c.esmtp) [
          | inl e ↦
              rw
                (step _ false o (
                  line_loop-piped env cfg again (limit cfg c) fuel c buf offset has line plain
                    (ground arith) e))
                (pipeline-Waits env cfg again (limit cfg c) fuel c buf offset has line plain _ _)
          | inr e ↦
              rw
                (
                  step _ false o (
                      line_loop-talked env cfg again (limit cfg c) fuel c buf offset has line plain
                        (ground arith) e),
                  check_length-line env cfg again (limit cfg c) fuel c buf offset has line plain
                      (talked c) has,
                )
                (talked-Waits c)
        ]
      ]
