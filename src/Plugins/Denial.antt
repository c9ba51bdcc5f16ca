-- ===== src/Plugins/Denial.antt =====
-- The hook `deny` of email/plugins.js, which may override a plugin's refusal.
use companyly_microservices.Base.{
  ℕ, ◌+◌, zero, suc, Bool, true, false, ◌≡◌, refl, sym, ap, ◌∙◌, some, List, [], ◌∷◌, Text, ◌&&◌,
  ◌||◌, not, text_eq, any, codes, arith, is_empty, length, length-append, get_elem?,
  get_elem?-length_append,
}
use companyly_microservices.Connection.State.{Retval, ok, cont, Msg}
use companyly_microservices.Plugins.State.{
  Item, Params, DenyFn, Call, Event, denied, called, respond, too_deep, Target,
}
use companyly_microservices.Plugins.Engine.{
  is_deny_hook, is_cont, start_call, run_next, denyfn, answer_to, runs_all, is_init, is_deny_retval,
  is_log, run_next_hook, run_hooks, answered, callback,
}
use companyly_microservices.Plugins.Order.{
  respond-answer_to, Waits, taken, length-closed, callback-eq-answered,
}

abbrev is_ok : Retval → Bool
is_ok ok = true
is_ok _ = false

module _ {P : Type 0} where
  -- An answer of the hook `deny` other than OK.
  answer_to-upholds :
      (n : ℕ) (fn : DenyFn P) (r : Retval) (m : Msg) (params : Params P) (o : Target P)
      → o.deny_respond ≡ some fn
      → is_ok r ≡ false
      → answer_to (suc n) (codes "deny") r m params o
        ≡ answer_to n fn.hook fn.retval fn.msg fn.params
            (record o { saved_hooks_to_run = []; hooks_to_run = [] })
  unfolding answer_to denyfn text_eq
  answer_to-upholds n fn r m params o at other = ground arith

  answer_to-overrides :
      (n : ℕ) (fn : DenyFn P) (m : Msg) (params : Params P) (o : Target P) (item : Item)
      (items : List Item)
      → o.deny_respond ≡ some fn
      → o.saved_hooks_to_run ≡ item ∷ items
      → o.disconnected ≡ false
      → o.skip_plugins ≡ []
      → answer_to (suc n) (codes "deny") ok m params o
        ≡ start_call fn.hook fn.params item (record o { hooks_to_run = items })
  unfolding answer_to denyfn run_next text_eq any
  answer_to-overrides n fn m params o item items at saved up skips = ground arith

  answer_to-lets_go :
      (n : ℕ) (fn : DenyFn P) (m : Msg) (params : Params P) (o : Target P)
      → o.deny_respond ≡ some fn
      → o.saved_hooks_to_run ≡ []
      → answer_to (suc n) (codes "deny") ok m params o ≡ answer_to n fn.hook cont m fn.params o
  unfolding answer_to denyfn text_eq
  answer_to-lets_go n fn m params o at saved = ground arith

module _ {P : Type 0} (registered : Text → List Item) (n : ℕ) (hook : Text) (params : Params P)
    (not_deny : is_deny_hook hook ≡ false) where
  -- The target when the only plugin of the hook `deny` has been called.
  abbrev given_fn : Retval → Msg → DenyFn P
  given_fn r m = record { hook = hook; params = params; retval = r; msg = m }

  abbrev deny_params : Retval → Msg → Call P → Params P
  deny_params r m c = denied r m c.item.plugin c.item.method params hook

  abbrev refused : Retval → Msg → Call P → Item → List Item → Target P → Target P
  refused r m c d items o = start_call (codes "deny") (deny_params r m c) d (record o {
    deny_respond = some (given_fn r m);
    saved_hooks_to_run = items;
    hooks_to_run = [];
  })

  answered-refused :
      (c : Call P) (d : Item) (items : List Item) (r : Retval) (m : Msg) (o : Target P)
      → c.hook ≡ hook
      → c.params ≡ params
      → registered (codes "deny") ≡ d ∷ []
      → o.hooks_to_run ≡ items
      → o.disconnected ≡ false
      → o.skip_plugins ≡ []
      → not (is_empty items) && (is_cont r || runs_all hook) ≡ false
      → is_deny_retval r && not (is_init hook) ≡ true
      → answered registered (suc n) c r m o ≡ refused r m c d items o
  unfolding answered run_hooks run_next_hook run_next any text_eq
  answered-refused c d items r m o h p ds left up skips off bad =
      rw h rw p rw left rw off rw bad rw ds rw up rw skips refl

  answered-deny :
      (c : Call P) (v : Retval) (m : Msg) (o : Target P)
      → c.hook ≡ codes "deny"
      → o.hooks_to_run ≡ []
      → is_deny_retval v ≡ false
      → answered registered (suc n) c v m o
        ≡ answer_to (suc n) (codes "deny") v m c.params (record o { hooks_to_run = [] })
  unfolding answered
  answered-deny c v m o h left fine = rw left rw fine rw h refl

  -- What the hook `deny` decides by its answer `v`: OK lets the hook go on, with the plugins that
  -- were left, and any other answer leaves the refusal as it was.
  abbrev pub verdict : ℕ → List Item → Retval → Msg → Retval → Msg → List (Event P) → List (Event P)
  verdict i items r m ok m' es = elim items [
    | [] ↦ respond hook cont m' params ∷ es
    | item ∷ _ ↦ called i hook item params ∷ es
  ]
  verdict i items r m v m' es = respond hook r m params ∷ es

  upheld :
      (i : ℕ) (items : List Item) (r : Retval) (m : Msg) (v : Retval) (m' : Msg) (p : Params P)
      (o : Target P)
      → o.deny_respond ≡ some (given_fn r m)
      → is_ok v ≡ false
      → (answer_to (suc n) (codes "deny") v m' p o).events ≡ verdict i items r m v m' o.events
  upheld i items r m v m' p o at other =
      rw (answer_to-upholds n (given_fn r m) v m' p o at other) rw
        (respond-answer_to n hook r m params
          (record o { saved_hooks_to_run = []; hooks_to_run = [] }) not_deny)
        (ground arith)

  decides :
      (items : List Item) (r : Retval) (m : Msg) (v : Retval) (m' : Msg) (p : Params P)
      (o : Target P)
      → o.deny_respond ≡ some (given_fn r m)
      → o.saved_hooks_to_run ≡ items
      → o.disconnected ≡ false
      → o.skip_plugins ≡ []
      → (answer_to (suc n) (codes "deny") v m' p o).events
        ≡ verdict (length o.calls) items r m v m' o.events
  unfolding start_call
  decides [] r m ok m' p o at saved up skips =
      rw (answer_to-lets_go n (given_fn r m) m' p o at saved) rw
        (respond-answer_to n hook cont m' params o not_deny) refl
  decides (item ∷ items) r m ok m' p o at saved up skips =
      rw (answer_to-overrides n (given_fn r m) m' p o item items at saved up skips) refl
  decides items r m v m' p o at saved up skips = upheld (length o.calls) items r m v m' p o at refl

  -- A refusal of a hook other than `deny` starts the hook `deny`, which it does except in a hook of
  -- the start and where `connect_init` or `disconnect` has plugins left, and the only plugin of the
  -- hook `deny` answers, itself without a refusal: with OK the next plugin of the hook is called, or the object is answered with CONT if there is none
  -- left; with another answer that is no refusal the object is answered with the first plugin's
  -- refusal and message. No plugin is skipped and the client is connected.
  pub deny_decides :
      (i : ℕ) (items : List Item) (d : Item) (r : Retval) (m : Msg) (v : Retval) (m' : Msg)
      (o : Target P) (w : Waits registered (suc n) hook params not_deny i items o)
      → registered (codes "deny") ≡ d ∷ []
      → not (is_empty items) && (is_cont r || runs_all hook) ≡ false
      → is_deny_retval r && not (is_init hook) ≡ true
      → is_deny_retval v ≡ false
      → (callback registered
          (suc n)
          (i + 1)
          (some v)
          m'
          (callback registered (suc n) i (some r) m o)).events
        ≡ verdict
            (i + 2)
            items
            r
            m
            v
            m'
            (called (i + 1) (codes "deny") d (deny_params r m w.call) ∷ o.events)
  unfolding start_call
  deny_decides i items d r m v m' o w ds off bad fine =
      let long = length-closed registered (suc n) hook params not_deny i o.calls in
      let o1 = taken registered (suc n) hook params not_deny i o in
      let o2 = refused r m w.call d items o1 in
      let o3 = taken registered (suc n) hook params not_deny (i + 1) o2 in
      let new : Call P = record {
        hook = codes "deny";
        params = deny_params r m w.call;
        item = d;
        called_once = false;
        timed_out = false;
        cancelled = false;
        timer = d.timeout && not (is_log (codes "deny"));
      } in
      let at : get_elem? o2.calls (i + 1) ≡ some new =
        rw (sym (long ∙ w.call_last)) (get_elem?-length_append o1.calls [] new) in
      rw
        (callback-eq-answered registered (suc n) hook params not_deny i r m o w.call w.call_at
          w.call_live w.call_first w.connected)
        rw
        (answered-refused w.call d items r m o1 w.call_hook w.call_params ds w.plugins_left
          w.connected w.none_skipped off bad)
        rw
        (callback-eq-answered registered (suc n) hook params not_deny (i + 1) v m' o2 new at refl
          refl w.connected)
        rw (answered-deny new v m' o3 refl refl fine)
        (decides items r m v m' new.params (record o3 { hooks_to_run = [] }) refl refl w.connected
            w.none_skipped
          ∙ ap (λ k. verdict k items r m v m' o2.events)
              (length-closed registered (suc n) hook params not_deny (i + 1) o2.calls
                ∙ omega (arith, long, w.call_last, length-append o1.calls (new ∷ [])))
          ∙ ap
              (λ k.
                verdict (i + 2) items r m v m'
                  (called k (codes "deny") d (deny_params r m w.call) ∷ o.events))
              (long ∙ w.call_last))

module _ {P : Type 0} where
  -- A plugin of the hook `deny` has refused, so that the hook `deny` was run for itself, and that
  -- second run is not overridden: the answer calls itself without end, to whatever depth.
  deny_of_deny :
      (n : ℕ) (fn : DenyFn P) (v : Retval) (m : Msg) (params : Params P) (o : Target P)
      → o.deny_respond ≡ some fn
      → fn.hook ≡ codes "deny"
      → is_ok fn.retval ≡ false
      → is_ok v ≡ false
      → (answer_to n (codes "deny") v m params o).events ≡ too_deep ∷ o.events
  unfolding answer_to text_eq
  deny_of_deny zero fn v m params o at itself bad other = refl
  deny_of_deny (suc n) fn v m params o at itself bad other =
      rw (answer_to-upholds n fn v m params o at other) rw itself (
        deny_of_deny n fn fn.retval fn.msg fn.params
          (record o { saved_hooks_to_run = []; hooks_to_run = [] }) at itself bad bad)
