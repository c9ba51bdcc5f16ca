-- ===== src/Plugins/Order.antt =====
-- The order in which email/plugins.js runs the plugins of a hook.
use companyly_microservices.Base.{
  ℕ, ◌+◌, zero, suc, true, false, ◌≡◌, refl, ap, ◌∙◌, none, some, List, [], ◌∷◌, Text, ◌&&◌, ◌||◌,
  not, if◌then◌else◌, length, get_elem?,
}
use companyly_microservices.Connection.State.{Retval, Msg}
use companyly_microservices.Plugins.State.{Item, Params, Call, Event, called, respond, Target}
use companyly_microservices.Plugins.Engine.{
  is_deny_hook, runs_all, is_init, is_cont, is_deny_retval, change, start_call, answer_to, answered,
  callback,
}

module _ {P : Type 0} where
  -- Any hook but `deny` is answered by the object.
  pub respond-answer_to :
      (n : ℕ) (hook : Text) (r : Retval) (m : Msg) (params : Params P) (o : Target P)
      → is_deny_hook hook ≡ false
      → answer_to n hook r m params o ≡ record o { events = respond hook r m params ∷ o.events }
  unfolding answer_to
  respond-answer_to zero hook r m params o other = rw other refl
  respond-answer_to (suc n) hook r m params o other = rw other refl

module _ {P : Type 0} (registered : Text → List Item) (depth : ℕ) (hook : Text) (params : Params P)
    (not_deny : is_deny_hook hook ≡ false) where
  -- The call with index `i` waits for its answer, and the plugins `items` are left.
  pub record Waits (i : ℕ) (items : List Item) (o : Target P) : Type 0 where
    pub call : Call P
    pub call_at : get_elem? o.calls i ≡ some call
    pub call_hook : call.hook ≡ hook
    pub call_params : call.params ≡ params
    pub call_live : call.cancelled ≡ false
    pub call_first : call.called_once ≡ false
    pub call_last : length o.calls ≡ i + 1
    pub plugins_left : o.hooks_to_run ≡ items
    pub connected : o.disconnected ≡ false
    pub none_skipped : o.skip_plugins ≡ []

  -- The answers, each to the next call.
  unfoldable pub answer_all : ℕ → List (Retval × Msg) → Target P → Target P
  answer_all i [] o = o
  answer_all i ((r, m) ∷ rs) o = answer_all (i + 1) rs (callback registered depth i (some r) m o)

  -- What the answers should lead to, before the events that there were.
  unfoldable pub in_order : ℕ → List Item → List (Retval × Msg) → List (Event P) → List (Event P)
  in_order i items [] es = es
  in_order i [] ((r, m) ∷ rs) es = respond hook r m params ∷ es
  in_order i (item ∷ items) ((r, m) ∷ rs) es =
      let rest = in_order (i + 1) items rs (called (i + 1) hook item params ∷ es) in
      if is_cont r || runs_all hook then rest else respond hook r m params ∷ es

  -- The calls after an answer.
  abbrev pub closed : ℕ → List (Call P) → List (Call P)
  closed i cs =
      change (λ c. record c { called_once = true }) i
        (change (λ c. record c { timer = false }) i cs)

  length-change :
      (f : Call P → Call P) (i : ℕ) (cs : List (Call P)) → length (change f i cs) ≡ length cs
  unfolding change
  length-change f i [] = refl
  length-change f zero (c ∷ cs) = refl
  length-change f (suc i) (c ∷ cs) = ap suc (length-change f i cs)

  -- The target after an answer that goes on, and after one that ends the hook.
  abbrev going_on : ℕ → Item → List Item → Target P → Target P
  going_on i item items o =
      start_call hook params item
        (record o { current_hook = none; calls = closed i o.calls; hooks_to_run = items })

  abbrev ended : ℕ → Retval → Msg → Target P → Target P
  ended i r m o = record o {
    current_hook = none;
    calls = closed i o.calls;
    hooks_to_run = [];
    events = respond hook r m params ∷ o.events;
  }

  abbrev pub taken : ℕ → Target P → Target P
  taken i o = record o { current_hook = none; calls = closed i o.calls }

  pub callback-eq-answered :
      (i : ℕ) (r : Retval) (m : Msg) (o : Target P) (c : Call P)
      → get_elem? o.calls i ≡ some c
      → c.cancelled ≡ false
      → c.called_once ≡ false
      → o.disconnected ≡ false
      → callback registered depth i (some r) m o ≡ answered registered depth c r m (taken i o)
  unfolding callback
  callback-eq-answered i r m o c at live first_time up =
      rw (at, callback) (rw live rw first_time rw up refl)

  pub length-closed : (i : ℕ) (cs : List (Call P)) → length (closed i cs) ≡ length cs
  length-closed i cs = length-change _ i (change _ i cs) ∙ length-change _ i cs

  -- An answer that does not start the hook `deny`.
  abbrev IsFine : Retval × Msg → Type 0
  IsFine (r, m) = is_deny_retval r && not (is_init hook) ≡ false
