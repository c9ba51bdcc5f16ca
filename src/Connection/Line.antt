-- ===== src/Connection/Line.antt =====
-- What a line is to `process_line` and `_process_data` of email/connection.js: a command with its
-- arguments, the start of a TLS handshake, or one of a pipelined group.
use companyly_microservices.Base.{
  ◌%◌, Bool, true, false, Option, none, some, List, [], ◌∷◌, Text, ◌&&◌, ◌||◌, ◌==◌, if◌then◌else◌,
  codes, any, text_eq, map, take,
}
use companyly_microservices.Transaction.DotStuff.{has_at}
use companyly_microservices.Connection.State.{State, data_lines, pause, pause_smtp, pause_data}

pub data Command : Type 0 where
  proxy internalcmd helo_cmd ehlo_cmd quit_cmd rset_cmd vrfy_cmd noop_cmd help mail_cmd rcpt_cmd
        data_cmd :
      Command

-- The methods `cmd_…` by name, in lower case.
abbrev pub commands : List (Text × Command)
commands =
    (codes "proxy", proxy)
    ∷ (codes "internalcmd", internalcmd)
    ∷ (codes "helo", helo_cmd)
    ∷ (codes "ehlo", ehlo_cmd)
    ∷ (codes "quit", quit_cmd)
    ∷ (codes "rset", rset_cmd)
    ∷ (codes "vrfy", vrfy_cmd)
    ∷ (codes "noop", noop_cmd)
    ∷ (codes "help", help)
    ∷ (codes "mail", mail_cmd)
    ∷ (codes "rcpt", rcpt_cmd)
    ∷ (codes "data", data_cmd)
    ∷ []

unfoldable pub lookup_command : Text → List (Text × Command) → Option Command
lookup_command name [] = none
lookup_command name ((n, m) ∷ ms) = if text_eq n name then some m else lookup_command name ms

-- `replace(/\r?\n/, '')`
unfoldable pub remove_newline : Text → Text
remove_newline [] = []
remove_newline (c ∷ []) = if c == 10 then [] else c ∷ []
remove_newline (c ∷ d ∷ s) =
    if c == 10 then d ∷ s else if c == 13 && d == 10 then s else c ∷ remove_newline (d ∷ s)

unfoldable pub until_space : Text → Text
until_space [] = []
until_space (c ∷ s) = if c == 32 then [] else c ∷ until_space s

unfoldable pub from_space : Text → Text
from_space [] = []
from_space (c ∷ s) = if c == 32 then c ∷ s else from_space s

unfoldable pub skip_blanks : Text → Text
skip_blanks [] = []
skip_blanks (c ∷ s) = if c == 32 then skip_blanks s else c ∷ s

-- `/^([^ ]*)( +(.*))?$/`: what follows the spaces may hold no line terminator.
unfoldable pub match_command : Text → Option (Text × Text)
match_command line =
    let remaining = skip_blanks (from_space line) in
    if any (λ c. c == 10 || c == 13 || c == 0x2028 || c == 0x2029) remaining
    then none
    else some (until_space line, remaining)

-- The start of a TLS handshake, in the low bytes of the first three characters.
unfoldable pub is_tls_start : Text → Bool
is_tls_start line =
    let bytes = map (λ c. c % 256) (take 3 line) in
    has_at bytes 0 0x16 && (has_at bytes 1 0x03 && (has_at bytes 2 0 || has_at bytes 2 1))

-- The commands that may stand anywhere in a pipelined group.
unfoldable pub may_lead : Text → Bool
may_lead verb =
    text_eq verb (codes "RSET")
    || (text_eq verb (codes "MAIL")
        || (text_eq verb (codes "SEND")
            || (text_eq verb (codes "SOML")
                || (text_eq verb (codes "SAML") || text_eq verb (codes "RCPT")))))

abbrev pub is_pause : State → Bool
is_pause pause = true
is_pause _ = false

-- `state === PAUSE || state === PAUSE_SMTP`
abbrev pub is_waiting : State → Bool
is_waiting pause = true
is_waiting pause_smtp = true
is_waiting _ = false

abbrev pub in_data : State → Bool
in_data data_lines = true
in_data pause_data = true
in_data _ = false
