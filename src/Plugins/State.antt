-- ===== src/Plugins/State.antt =====
-- What email/plugins.js keeps of the hooks that run on an object.
use companyly_microservices.Base.{ℕ, Bool, Option, List, Text}
use companyly_microservices.Connection.State.{Retval, Msg}

-- A plugin and the method that it registered for the hook.
pub record Item : Type 0 where
  pub plugin : Text
  pub method : Text
  pub timeout : Bool

-- `params`, for the hook `deny` those of the plugin that has refused.
pub data Params (P : Type 0) : Type 0 where
  given : P → Params P
  denied : Retval → Msg → Text → Text → Params P → Text → Params P

-- The variables of one call of `run_next_hook` that has called a plugin.
pub record Call (P : Type 0) : Type 0 where
  pub hook : Text
  pub params : Params P
  pub item : Item
  pub called_once : Bool
  pub timed_out : Bool
  pub cancelled : Bool
  pub timer : Bool

-- What `get_denyfn` closes over.
pub record DenyFn (P : Type 0) : Type 0 where
  pub hook : Text
  pub params : Params P
  pub retval : Retval
  pub msg : Msg

-- Calls of a plugin, with the index of its call, and of the method `…_respond` of the object;
-- `too_deep` is a chain of answers of the hook `deny` that goes on after the depth given.
pub data Event (P : Type 0) : Type 0 where
  called : ℕ → Text → Item → Params P → Event P
  respond : Text → Retval → Msg → Params P → Event P
  already_running too_deep type_error : Event P

-- The fields of the object, a connection or a queue item, that the engine reads and sets, and its
-- calls, the oldest first; `disconnected` is for a connection that is closing.
pub record Target (P : Type 0) : Type 0 where
  pub hooks_to_run : List Item
  pub saved_hooks_to_run : List Item
  pub current_hook : Option ℕ
  pub deny_respond : Option (DenyFn P)
  pub disconnected : Bool
  pub skip_plugins : List Text
  pub calls : List (Call P)
  pub events : List (Event P)
