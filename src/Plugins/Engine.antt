-- ===== src/Plugins/Engine.antt =====
-- `run_hooks`, `run_next_hook` and the callback of email/plugins.js. A plugin is called by an event,
-- and its call of the callback is a step of its own; an exception that it throws is such a call with
-- no value.
use companyly_microservices.Base.{
  ℕ, zero, suc, Bool, true, false, Option, none, some, List, [], ◌∷◌, ◌++◌, Text, ◌&&◌, ◌||◌, not,
  if◌then◌else◌, is_empty, text_eq, any, codes, get_elem?, length, take,
}
use companyly_microservices.Connection.State.{
  Retval, ok, cont, deny, denysoft, denydisconnect, denysoftdisconnect, Msg, no_msg, text,
}
use companyly_microservices.Plugins.State.{
  Item, Params, denied, Call, DenyFn, Event, called, respond, already_running, too_deep, type_error,
  Target,
}

abbrev pub is_required_hook : Text → Bool
is_required_hook hook =
    text_eq hook (codes "reset_transaction")
    || (text_eq hook (codes "disconnect") || text_eq hook (codes "log"))

abbrev pub is_deny_hook : Text → Bool
is_deny_hook hook = text_eq hook (codes "deny")

abbrev pub is_log : Text → Bool
is_log hook = text_eq hook (codes "log")

-- The hooks that run every plugin, whatever it answers.
abbrev pub runs_all : Text → Bool
runs_all hook = text_eq hook (codes "connect_init") || text_eq hook (codes "disconnect")

-- `hook.substr(0,5) === 'init_'`
abbrev pub is_init : Text → Bool
is_init hook = text_eq (take 5 hook) (codes "init_")

abbrev pub is_cont : Retval → Bool
is_cont cont = true
is_cont _ = false

abbrev pub is_deny_retval : Retval → Bool
is_deny_retval deny = true
is_deny_retval denysoft = true
is_deny_retval denydisconnect = true
is_deny_retval denysoftdisconnect = true
is_deny_retval _ = false

module _ {P : Type 0} where
  abbrev pub emit : Event P → Target P → Target P
  emit e o = record o { events = e ∷ o.events }

  -- The call with an index, changed.
  unfoldable pub change : (Call P → Call P) → ℕ → List (Call P) → List (Call P)
  change f i [] = []
  change f zero (c ∷ cs) = f c ∷ cs
  change f (suc i) (c ∷ cs) = c ∷ change f i cs

  unfoldable pub cancel : ℕ → Target P → Target P
  unfolding change
  cancel i o = record o {
    calls = change (λ c. record c { cancelled = true; timer = false }) i o.calls;
  }

  abbrev may_run : Text → Target P → Bool
  may_run hook o = not o.disconnected || is_required_hook hook

  -- The call of the plugin.
  unfoldable pub start_call : Text → Params P → Item → Target P → Target P
  start_call hook params item o = emit (called (length o.calls) hook item params) (record o {
    current_hook = some (length o.calls);
    calls =
        o.calls
        ++ record {
          hook = hook;
          params = params;
          item = item;
          called_once = false;
          timed_out = false;
          cancelled = false;
          timer = item.timeout && not (is_log hook);
        }
          ∷ [];
  })

  -- `run_next_hook`, by what the method `…_respond` does. A plugin that the transaction skips
  -- answers at once, as does the hook when no plugin is left.
  unfoldable pub run_next :
      (Text → Retval → Msg → Params P → Target P → Target P)
      → Text
      → Params P
      → List Item
      → Target P
      → Target P
  unfolding start_call
  run_next answer hook params [] o =
      if may_run hook o
      then answer hook cont no_msg params (record o { hooks_to_run = []; current_hook = none })
      else record o { hooks_to_run = [] }
  run_next answer hook params (item ∷ items) o =
      let rest = run_next answer hook params items (record o { current_hook = none }) in
      if not (may_run hook o)
      then record o { hooks_to_run = item ∷ items }
      else if any (text_eq item.plugin) o.skip_plugins
      then rest
      else start_call hook params item (record o { hooks_to_run = items })

  -- The closure that `get_denyfn` gives.
  unfoldable pub denyfn :
      (Text → Retval → Msg → Params P → Target P → Target P)
      → DenyFn P
      → Retval
      → Msg
      → Target P
      → Target P
  unfolding run_next
  denyfn answer fn ok msg o =
      if is_empty o.saved_hooks_to_run
      then answer fn.hook cont msg fn.params o
      else run_next answer fn.hook fn.params o.saved_hooks_to_run o
  denyfn answer fn retval msg o =
      answer fn.hook fn.retval fn.msg fn.params
        (record o { saved_hooks_to_run = []; hooks_to_run = [] })

  -- `object[respond_method]`: for the hook `deny` the closure, to a depth.
  unfoldable pub answer_to : ℕ → Text → Retval → Msg → Params P → Target P → Target P
  unfolding denyfn
  answer_to zero hook retval msg params o =
      if is_deny_hook hook then emit too_deep o else emit (respond hook retval msg params) o
  answer_to (suc n) hook retval msg params o =
      if is_deny_hook hook
      then elim o.deny_respond [
        | none ↦ emit type_error o
        | some fn ↦ denyfn (answer_to n) fn retval msg o
      ]
      else emit (respond hook retval msg params) o

module _ {P : Type 0} (registered : Text → List Item) (depth : ℕ) where
  unfoldable pub run_next_hook : Text → Params P → Target P → Target P
  run_next_hook hook params o = run_next (answer_to depth) hook params o.hooks_to_run o

  unfoldable pub cancel_current : Target P → Target P
  unfolding cancel
  cancel_current o = elim o.current_hook [ none ↦ o | some i ↦ cancel i o ]

  unfoldable pub run_hooks : Text → Params P → Target P → Target P
  unfolding run_next_hook cancel_current
  run_hooks hook params o =
      if not (may_run hook o)
      then o
      else let o1 = if is_required_hook hook then cancel_current o else o in
        if not (is_required_hook hook)
          && (not (is_deny_hook hook) && not (is_empty o1.hooks_to_run))
        then emit already_running o1
        else let o2 =
            if is_deny_hook hook then record o1 { saved_hooks_to_run = o1.hooks_to_run } else o1 in
          run_next_hook hook params (record o2 { hooks_to_run = registered hook })

  -- The callback, behind its first checks.
  unfoldable pub answered : Call P → Retval → Msg → Target P → Target P
  unfolding run_next_hook run_hooks
  answered c retval msg o =
      if not (is_empty o.hooks_to_run) && (is_cont retval || runs_all c.hook)
      then run_next_hook c.hook c.params o
      else if is_deny_retval retval && not (is_init c.hook)
      then run_hooks (codes "deny") (denied retval msg c.item.plugin c.item.method c.params c.hook)
          (record o {
            deny_respond =
                some (record { hook = c.hook; params = c.params; retval = retval; msg = msg });
          })
      else answer_to depth c.hook retval msg c.params (record o { hooks_to_run = [] })

  -- The callback of a call: its timer is stopped, and no hook is current.
  unfoldable pub callback : ℕ → Option Retval → Msg → Target P → Target P
  unfolding answered change
  callback i retval msg o =
      let o1 = record o {
        current_hook = none;
        calls = change (λ c. record c { timer = false }) i o.calls;
      } in
      elim (get_elem? o.calls i) [
        | none ↦ o
        | some c ↦
            if c.cancelled
            then o1
            else if not (may_run c.hook o)
            then o1
            else if c.called_once && not (is_log c.hook)
            then o1
            else answered c (elim retval [ none ↦ cont | some v ↦ v ]) msg
                (record o1 { calls = change (λ c. record c { called_once = true }) i o1.calls })
      ]

  -- The timer of a call.
  unfoldable time_out : ℕ → Target P → Target P
  unfolding callback change
  time_out i o = elim (get_elem? o.calls i) [
    | none ↦ o
    | some c ↦
        if c.timer
        then callback i (some denysoft) (text (codes "plugin timeout"))
            (record o { calls = change (λ c. record c { timed_out = true }) i o.calls })
        else o
  ]
