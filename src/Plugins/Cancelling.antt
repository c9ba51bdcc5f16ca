-- ===== src/Plugins/Cancelling.antt =====
-- Answers that email/plugins.js no longer takes: of a plugin that has answered, that has timed out,
-- or that was cancelled.
use companyly_microservices.Base.{ℕ, ◌≡◌, none, List, Text}
use companyly_microservices.Plugins.State.{Item, Target}

module _ {P : Type 0} (registered : Text → List Item) (depth : ℕ) where
  -- All that a hook does, and the hooks that are left; not the hook that is current.
  pub record SameRun (before after : Target P) : Type 0 where
    pub same_events : after.events ≡ before.events
    pub same_hooks : after.hooks_to_run ≡ before.hooks_to_run
    pub same_saved : after.saved_hooks_to_run ≡ before.saved_hooks_to_run
    pub none_current : after.current_hook ≡ none
