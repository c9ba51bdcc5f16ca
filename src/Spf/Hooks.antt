-- ===== src/Spf/Hooks.antt =====
-- The hooks of email/plugins/spf.js: when they ask for a check, of which addresses, and the timer.
use companyly_microservices.Base.{
  ℕ, String, Bool, true, false, Option, none, some, List, [], ◌∷◌, ◌++◌, Text, ◌&&◌, ◌||◌, not,
  if◌then◌else◌, is_empty, text_eq, codes,
}
use companyly_microservices.Spf.Net.{Net}
use companyly_microservices.Spf.Run.{Run, done, ◌>>=◌}
use companyly_microservices.Spf.Check.{check_host, new_spf}
use companyly_microservices.Spf.{SpfResult, spf_pass, Spf}
use companyly_microservices.Spf.Plugin.{
  Config, Client, Next, next, skip_hosts, return_results, next_cont,
}

-- How a hook starts: it calls `next` at once, perhaps with a note of why it skips the check, or it
-- asks for one.
pub data Start : Type 0 where
  at_once : Next → Option Text → Start
  check : Start

unfoldable helo_spf : (Text → Bool) → Config → Client → Option Text → Text → Start
unfolding skip_hosts
helo_spf is_ip_literal cfg c seen helo =
    let same : Bool = elim seen [ none ↦ false | some domain ↦ text_eq domain helo ] in
    elim (skip_hosts cfg c) [
      | some reason ↦ at_once next (some (codes "helo(" ++ (reason ++ codes ")")))
      | none ↦
          if c.is_private
          then at_once next (some (codes "helo(private_ip)"))
          else if is_ip_literal helo
          then at_once next (some (codes "helo(ip_literal)"))
          else if same
          then at_once next none
          else check
    ]

abbrev context_is : String → Config → Bool
context_is word cfg = elim cfg.relay [
  | none ↦ false
  | some none ↦ false
  | some (some context) ↦ text_eq context (codes word)
]

-- `hook_mail`, for a connection with a transaction. Where there is no sender's domain, the result of
-- HELO counts.
unfoldable pub hook_mail : (Text → Text) → Config → Client → Text → Start
unfolding skip_hosts return_results
hook_mail unauthorized cfg c host = elim (skip_hosts cfg c) [
  | some reason ↦
      let note : Text = codes "host(" ++ (reason ++ codes ")") in
      at_once (next_cont (codes "skipped because " ++ note)) (some note)
  | none ↦
      if c.is_private && not c.relaying
      then at_once next none
      else if c.is_private && not (context_is "myself" cfg)
      then at_once (next_cont (codes "envelope from private IP space"))
          (some (codes "host(private_ip)"))
      else if not (is_empty host)
      then check
      else elim c.spf_helo [
        | none ↦ at_once next none
        | some r ↦
            at_once
              (return_results unauthorized cfg c (codes "helo") (codes "<> via " ++ c.hello_host) r)
              none
      ]
]

-- The public address of the server: the library may fail, or find none.
pub data PublicIp : Type 0 where
  lookup_failed unknown : PublicIp
  public_ip : Text → PublicIp

-- What `ch_cb` is called with: an error, or a result and the address that it is about.
pub data Checked : Type 0 where
  failure : Checked
  checked : SpfResult → Text → Checked

abbrev is_pass : SpfResult → Bool
is_pass spf_pass = true
is_pass _ = false

-- The checks of `hook_mail`, from a check of an address; `another` is that of a new object.
unfoldable mail_checks :
    (Text → Run SpfResult) → (Text → Run SpfResult) → Config → Client → PublicIp → Run Checked
mail_checks first another cfg c mine =
    if not c.relaying || context_is "sender" cfg
    then (first c.remote_ip >>= λ r. done (checked r c.remote_ip))
    else (first c.remote_ip >>= λ r. if is_pass r then done (checked r c.remote_ip) else elim mine [
      | lookup_failed ↦ done failure
      | unknown ↦ done failure
      | public_ip ip ↦ another ip >>= λ r'. done (checked r' ip)
    ])

-- The check that the plugin makes; the first object knows the name that the client gave.
unfoldable mail_check : ℕ → ℕ → Net → Bool → Client → Text → Text → Text → Run SpfResult
mail_check levels rounds net named c host mfrom ip =
    let fresh = new_spf 0 [] in
    let spf : Spf = if named then record fresh { helo = c.hello_host } else fresh in
    check_host levels rounds net spf ip host (some mfrom) >>= λ (r, after). done r

-- `ch_cb`
unfoldable ch_cb : (Text → Text) → Config → Client → Text → Checked → Next
unfolding return_results
ch_cb unauthorized cfg c mfrom failure = next
ch_cb unauthorized cfg c mfrom (checked r ip) =
    return_results unauthorized cfg c (codes "mfrom") mfrom r

-- A hook that waits for a check: the timer of `lookup_timeout`, the flag that it sets, and how `next`
-- was called so far.
pub record Waiting : Type 0 where
  pub timer : Bool
  pub timeout : Bool
  pub nexts : List Next

pub data Event : Type 0 where
  timer_fired : Event
  answered : Next → Event

abbrev pub asked : Waiting
asked = record { timer = true; timeout = false; nexts = [] }

-- An answer behind the timeout is dropped; a timer that was cleared does not fire.
unfoldable pub hear : Event → Waiting → Waiting
hear timer_fired w =
    if not w.timer
    then w
    else record w { timer = false; timeout = true; nexts = w.nexts ++ next ∷ [] }
hear (answered n) w =
    let cleared = record w { timer = false } in
    if w.timeout then cleared else record cleared { nexts = w.nexts ++ n ∷ [] }

unfoldable pub hear_all : List Event → Waiting → Waiting
unfolding hear
hear_all [] w = w
hear_all (e ∷ es) w = hear_all es (hear e w)

-- A hook that asked for its check: how it calls `next`, if the check calls back.
unfoldable mail_next :
    ℕ → ℕ → Net → (Text → Text) → Config → Client → Text → Text → PublicIp → Run Next
unfolding mail_checks mail_check ch_cb
mail_next levels rounds net unauthorized cfg c host mfrom mine =
    mail_checks (mail_check levels rounds net true c host mfrom)
      (mail_check levels rounds net false c host mfrom) cfg c mine
    >>= λ k. done (ch_cb unauthorized cfg c mfrom k)
