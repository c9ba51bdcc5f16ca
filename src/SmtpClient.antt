-- ===== src/SmtpClient.antt =====
-- The client side of an SMTP connection, SMTPClient of email/smtp_client.js: the replies of the
-- server, and the return of the connection to its pool.
pub mod State
pub mod Release
pub mod Tests
use companyly_microservices.Base.{
  ℕ, Bool, true, false, Option, none, some, List, [], ◌∷◌, ◌++◌, Text, ◌&&◌, ◌||◌, ◌==◌, not, leb,
  if◌then◌else◌, text_eq, map, to_lower, join, codes,
}
use companyly_microservices.Outbound.Delivery.Reply.{is_digit, until_eol}
use companyly_microservices.Outbound.Delivery.Ehlo.{strip_prefix}
use companyly_microservices.SmtpClient.State.{
  ClientState, idle, active, released, destroyed, Command, greeting, ehlo, helo, xclient, starttls,
  auth, mail, rcpt, data_cmd, mailbody, dot, rset, quit, Signal, auth_username, auth_password,
  auth_done, capabilities, helo_done, quit_done, say_hello, say_ehlo, xclient_done, replied,
  bad_code, error, connection_error, Event, wrote, signal, pool_release, pool_destroy, upgrade,
  body_piped, Client,
}

abbrev is_active : ClientState → Bool
is_active active = true
is_active _ = false

abbrev pub is_destroyed : ClientState → Bool
is_destroyed destroyed = true
is_destroyed _ = false

abbrev is_auth : Command → Bool
is_auth auth = true
is_auth _ = false

abbrev pub is_ehlo : Command → Bool
is_ehlo ehlo = true
is_ehlo _ = false

abbrev is_xclient : Command → Bool
is_xclient xclient = true
is_xclient _ = false

-- The commands after which the connection cannot be used again.
abbrev pub is_mid_data : Command → Bool
is_mid_data data_cmd = true
is_mid_data mailbody = true
is_mid_data _ = false

-- A line of the server: the three digits, whether more lines follow, and the text.
pub record Line : Type 0 where
  pub code : Text
  pub more : Bool
  pub msg : Text

unfoldable pub read_line : Text → Option Line
unfolding is_digit until_eol
read_line (a ∷ b ∷ c ∷ sep ∷ s) =
    if is_digit a && (is_digit b && (is_digit c && (sep == 32 || sep == 45)))
    then some (record { code = a ∷ b ∷ c ∷ []; more = sep == 45; msg = until_eol s })
    else none
read_line _ = none

-- `/^d/` on a code.
abbrev pub starts : ℕ → Text → Bool
starts d [] = false
starts d (c ∷ s) = c == d

-- `/connection timed out/i`, anywhere in the text.
unfoldable mentions_timeout : Text → Bool
unfolding strip_prefix
mentions_timeout [] = false
mentions_timeout (c ∷ s) =
    let here : Bool = elim (strip_prefix (codes "connection timed out") (map to_lower (c ∷ s))) [
      | none ↦ false
      | some rest ↦ true
    ] in
    here || mentions_timeout s

abbrev pub emit : Event → Client → Client
emit e c = record c { events = e ∷ c.events }

-- The pool's `destroy` sets the state.
unfoldable pub destroy : Client → Client
destroy c =
    if is_destroyed c.state
    then c
    else if c.has_pool
    then emit pool_destroy (record c { state = destroyed })
    else c

unfoldable pub send_command : Command → Text → Client → Client
send_command cmd line c = record c { command = cmd; response = []; events = wrote line ∷ c.events }

unfoldable pub start_data : Client → Client
start_data c = emit body_piped (record c { response = []; command = dot })

unfoldable pub release : Client → Client
unfolding destroy send_command
release c =
    if not c.connected || is_mid_data c.command
    then destroy c
    else if is_destroyed c.state
    then c
    else send_command rset (codes "RSET") (record c { state = released; returning = true })

-- The listeners that `release` puts in place of the others.
unfoldable pub own_listener : Signal → Client → Client
unfolding destroy
own_listener (bad_code code msg) c = destroy c
own_listener (replied rset) c =
    if is_destroyed c.state
    then c
    else let c' = record c { state = idle; returning = false } in
      if c.has_pool then emit pool_release c' else c'
own_listener s c = c

-- The listeners of the plugins are `listen`.
module _ (listen : Signal → Client → Client) where
  unfoldable pub tell : Signal → Client → Client
  unfolding own_listener
  tell s c = let c' = emit (signal s) c in if c.returning then own_listener s c' else listen s c'

  unfoldable pub go_on : Command → Client → Client
  unfolding tell destroy
  go_on xclient c = tell xclient_done (record c { xclient = true })
  go_on starttls c = emit upgrade c
  go_on greeting c = tell say_ehlo (record c { connected = true })
  go_on ehlo c = tell helo_done c
  go_on quit c = destroy (tell quit_done c)
  go_on cmd c = tell (replied cmd) c

  unfoldable pub timed_out : Line → Client → Client
  unfolding destroy mentions_timeout
  timed_out l c = if text_eq l.code (codes "441") && mentions_timeout l.msg then destroy c else c

  -- After the listeners have heard of a refusal.
  unfoldable pub refused : Line → Client → Client
  unfolding timed_out go_on
  refused l c = if is_active c.state then go_on (timed_out l c).command (timed_out l c) else c

  -- A refusal, and what follows if the client is still in use.
  unfoldable pub check_code : Line → Client → Client
  unfolding tell timed_out go_on refused
  check_code l c =
      if is_xclient c.command && starts 53 l.code
      then go_on helo (timed_out l (record c { command = helo }))
      else if starts 52 l.code || starts 53 l.code
      then refused l (tell (bad_code l.code (join (codes " ") (c.response))) c)
      else go_on (timed_out l c).command (timed_out l c)

  unfoldable pub ehlo_replied : Line → Client → Client
  unfolding tell check_code
  ehlo_replied l c =
      if not (is_ehlo c.command)
      then check_code l c
      else if starts 53 l.code
      then tell say_hello c
      else let c' = tell capabilities c in if is_ehlo c'.command then check_code l c' else c'

  unfoldable pub on_reply : Line → Client → Client
  unfolding tell ehlo_replied
  on_reply l c =
      let in_auth = is_auth c.command || c.authenticating in
      if in_auth
        && (starts 51 l.code
            && (text_eq l.msg (codes "VXNlcm5hbWU6") || text_eq l.msg (codes "dXNlcm5hbWU6")))
      then tell auth_username c
      else if in_auth && (starts 51 l.code && text_eq l.msg (codes "UGFzc3dvcmQ6"))
      then tell auth_password c
      else if in_auth && (starts 50 l.code && c.authenticating)
      then tell auth_done (record c { authenticating = false; authenticated = true })
      else ehlo_replied l c

  unfoldable pub on_line : Text → Client → Client
  unfolding tell on_reply destroy
  on_line line c = elim (read_line line) [
    | none ↦ destroy (tell (error (codes "Unrecognized response from upstream server: " ++ line)) c)
    | some l ↦
        let c' = record c { response = c.response ++ l.msg ∷ [] } in
        if l.more then c' else on_reply l c'
  ]

  -- The events `error`, `timeout`, `close` and `end` of the socket; the first two are `broken`.
  unfoldable pub closed : Bool → Text → Client → Client
  unfolding tell destroy
  closed broken msg c = elim c.state [
    | active ↦ destroy (tell (error msg) c)
    | idle ↦ destroy c
    | released ↦ destroy c
    | destroyed ↦ if broken then tell (connection_error msg) c else c
  ]
