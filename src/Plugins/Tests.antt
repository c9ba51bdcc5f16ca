-- ===== src/Plugins/Tests.antt =====
-- The plugin engine of email/plugins.js at concrete values.
use companyly_microservices.Base.{
  true, false, ◌≡◌, refl, none, some, List, [], ◌∷◌, Text, codes, if◌then◌else◌, text_eq,
}
use companyly_microservices.Connection.State.{ok, deny, no_msg, text}
use companyly_microservices.Plugins.State.{Item, Params, given, denied, DenyFn, called, Target}
use companyly_microservices.Plugins.Engine.{is_deny_hook, start_call, callback}
use companyly_microservices.Plugins.Denial.{deny_decides}

abbrev first : Item
first = record { plugin = codes "first"; method = codes "hook_mail"; timeout = true }

abbrev second : Item
second = record { plugin = codes "second"; method = codes "hook_mail"; timeout = true }

abbrev judge : Item
judge = record { plugin = codes "judge"; method = codes "hook_deny"; timeout = true }

abbrev plugins : Text → List Item
plugins hook = if text_eq hook (codes "deny") then judge ∷ [] else first ∷ second ∷ []

abbrev mail_params : Params Text
mail_params = given (codes "FROM:<>")

abbrev idle : Target Text
idle = record {
  hooks_to_run = [];
  saved_hooks_to_run = [];
  current_hook = none;
  deny_respond = none;
  disconnected = false;
  skip_plugins = [];
  calls = [];
  events = [];
}

abbrev running : Target Text
unfolding start_call
running = start_call (codes "mail") mail_params first (record idle { hooks_to_run = second ∷ [] })

mail_is_other : is_deny_hook (codes "mail") ≡ false
unfolding text_eq
mail_is_other = refl

deny_decides_example :
    (callback plugins 1 1
      (some ok)
      no_msg
      (callback plugins 1 0 (some deny) (text (codes "no")) running)).events
    ≡ called 2 (codes "mail") second mail_params
      ∷ called 1 (codes "deny") judge (
          denied deny
            (text (codes "no"))
            (codes "first")
            (codes "hook_mail")
            mail_params
            (codes "mail"))
      ∷ called 0 (codes "mail") first mail_params
      ∷ []
unfolding running text_eq
deny_decides_example =
    deny_decides plugins 0 (codes "mail") mail_params mail_is_other 0 (second ∷ []) judge deny
      (text (codes "no")) ok no_msg running
      record {
        call = record {
          hook = codes "mail";
          params = mail_params;
          item = first;
          called_once = false;
          timed_out = false;
          cancelled = false;
          timer = true;
        };
        call_at = refl;
        call_hook = refl;
        call_params = refl;
        call_live = refl;
        call_first = refl;
        call_last = refl;
        plugins_left = refl;
        connected = refl;
        none_skipped = refl;
      }
      refl refl refl refl

abbrev itself : DenyFn Text
itself = record { hook = codes "deny"; params = mail_params; retval = deny; msg = no_msg }

-- The first plugin has timed out, and the second one was called.
abbrev late : Target Text
late = record running {
  calls =
      record {
        hook = codes "mail";
        params = mail_params;
        item = first;
        called_once = true;
        timed_out = true;
        cancelled = false;
        timer = false;
      }
      ∷ [];
}
