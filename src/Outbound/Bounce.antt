-- ===== src/Outbound/Bounce.antt =====
-- The text of the bounce message: `populate_bounce_message_with_headers` of
-- email/outbound/hmail.js.
pub mod Template
pub mod Escape
pub mod Tests
use companyly_microservices.Base.{
  Bool, true, false, Option, none, some, List, [], ◌∷◌, ◌++◌, Text, ◌&&◌, ◌||◌, ◌==◌, not,
  if◌then◌else◌, is_empty, map, codes, length, ltb,
}
use companyly_microservices.Outbound.Bounce.Template.{
  fill, plain_value, html_value, header_lines, body_lines, strip_eol,
}

-- A recipient with what was noted of it; what is not there is no text.
pub record BounceRcpt : Type 0 where
  pub address : Text
  pub dsn_action : Text
  pub dsn_code : Text
  pub dsn_msg : Text
  pub dsn_status : Text
  pub dsn_remote_mta : Text
  pub dsn_smtp_code : Text
  pub dsn_smtp_extc : Text
  pub dsn_smtp_response : Text

-- The three templates, the values of their words, and what else goes into the message.
pub record BounceInput : Type 0 where
  pub bounce_msg : List Text
  pub bounce_msg_html : List Text
  pub bounce_msg_image : List Text
  pub values : Text → Option Text
  pub boundary : Text
  pub original_message_id : Text
  pub host_name : Text
  pub arrival_date : Option Text
  pub rcpt_to : List BounceRcpt
  pub header_list : List Text

abbrev pub crlf : Text
crlf = 13 ∷ 10 ∷ []

abbrev pub line : Text → Text
line s = s ++ crlf

-- The line, if the text is there.
abbrev line_if : Text → Text → List Text
line_if name s = if is_empty s then [] else line (name ++ s) ∷ []

abbrev pub spaced : Text → Text
spaced s = if is_empty s then [] else s ++ codes " "

unfoldable action_of_code : Text → Text
action_of_code [] = []
action_of_code (c ∷ s) =
    if c == 53
    then codes "failed"
    else if c == 52
    then codes "delayed"
    else if c == 50
    then codes "delivered"
    else []

unfoldable action_of : BounceRcpt → Text
unfolding action_of_code
action_of r =
    if not (is_empty r.dsn_action)
    then r.dsn_action
    else if not (is_empty r.dsn_code)
    then action_of_code r.dsn_code
    else action_of_code r.dsn_smtp_code

unfoldable status_of : BounceRcpt → Text
status_of r =
    if is_empty r.dsn_status || is_empty r.dsn_code && is_empty r.dsn_msg
    then r.dsn_status
    else r.dsn_status ++ (codes " (" ++ (r.dsn_code ++ (codes " " ++ (r.dsn_msg ++ codes ")"))))

unfoldable diag_code : BounceRcpt → Text
diag_code r =
    if is_empty r.dsn_smtp_code && (is_empty r.dsn_smtp_extc && is_empty r.dsn_smtp_response)
    then []
    else codes "smtp;"
      ++ (spaced r.dsn_smtp_code ++ (spaced r.dsn_smtp_extc ++ spaced r.dsn_smtp_response))

unfoldable rcpt_status : BounceRcpt → List Text
unfolding action_of status_of diag_code
rcpt_status r =
    crlf
    ∷ line (codes "Final-Recipient: rfc822;" ++ r.address)
    ∷ (line_if (codes "Action: ") (action_of r)
        ++ (line_if (codes "Status: ") (status_of r)
            ++ (line_if (codes "Remote-MTA: ") r.dsn_remote_mta
                ++ line_if (codes "Diagnostic-Code: ") (diag_code r))))

unfoldable all_status : List BounceRcpt → List Text
unfolding rcpt_status
all_status [] = []
all_status (r ∷ rs) = rcpt_status r ++ all_status rs

-- A line that opens a part, and one that ends the parts.
abbrev pub opens : Text → Text → Text
opens boundary mark = line (codes "--" ++ (boundary ++ mark))

abbrev pub closes : Text → Text → Text
closes boundary mark = line (codes "--" ++ (boundary ++ (mark ++ codes "--")))

module _ (b : BounceInput) where
  abbrev has_html : Bool
  has_html = ltb 1 (length b.bounce_msg_html)

  abbrev pub mark : Text
  mark = if has_html then codes "b" else []

  abbrev quoted : Text → Text
  quoted s = 34 ∷ (s ++ 34 ∷ [])

  abbrev id_line : Text → List Text
  id_line name =
      if is_empty b.original_message_id
      then []
      else line (name ++ strip_eol b.original_message_id) ∷ []

  unfoldable report_header : List Text
  report_header =
      map line (header_lines (map (fill (plain_value b.values)) b.bounce_msg))
      ++ (line (
            codes "Content-Type: multipart/report; report-type=delivery-status;"
            ++ (crlf ++ (codes "    boundary=" ++ quoted b.boundary)))
          ∷ id_line (codes "References: "))

  unfoldable related_opening : List Text
  related_opening =
      if has_html
      then opens b.boundary []
        ∷ line
            (codes "Content-Type: multipart/related; boundary=" ++ quoted (b.boundary ++ codes "a"))
        ∷ crlf
        ∷ opens b.boundary (codes "a")
        ∷ line (
            codes "Content-Type: multipart/alternative; boundary="
            ++ quoted (b.boundary ++ codes "b"))
        ∷ crlf
        ∷ []
      else []

  unfoldable plain_part : List Text
  plain_part =
      opens b.boundary mark
      ∷ line (codes "Content-Type: text/plain; charset=us-ascii")
      ∷ crlf
      ∷ (map line (body_lines (map (fill (plain_value b.values)) b.bounce_msg)) ++ crlf ∷ [])

  unfoldable image_part : List Text
  image_part =
      if ltb 1 (length b.bounce_msg_image)
      then opens b.boundary (codes "a")
        ∷ (map line b.bounce_msg_image ++ (crlf ∷ closes b.boundary (codes "a") ∷ []))
      else []

  unfoldable html_part : List Text
  unfolding image_part
  html_part =
      if has_html
      then opens b.boundary mark
        ∷ line (codes "Content-Type: text/html; charset=us-ascii")
        ∷ crlf
        ∷ (map line (map (fill (html_value b.values)) b.bounce_msg_html)
            ++ (crlf ∷ closes b.boundary mark ∷ image_part))
      else []

  unfoldable status_part : List Text
  unfolding all_status
  status_part =
      opens b.boundary []
      ∷ line (codes "Content-type: message/delivery-status")
      ∷ crlf
      ∷ (id_line (codes "Original-Envelope-Id: ")
          ++ (line (codes "Reporting-MTA: dns;" ++ b.host_name)
              ∷ (elim b.arrival_date [
                | none ↦ []
                | some d ↦ line (codes "Arrival-Date: " ++ d) ∷ []
              ]
                  ++ (all_status b.rcpt_to ++ crlf ∷ []))))

  unfoldable headers_part : List Text
  headers_part =
      opens b.boundary []
      ∷ line (codes "Content-Description: Undelivered Message Headers")
      ∷ line (codes "Content-Type: text/rfc822-headers")
      ∷ crlf
      ∷ (b.header_list ++ (crlf ∷ closes b.boundary [] ∷ []))

  unfoldable bounce_body : List Text
  unfolding report_header related_opening plain_part html_part status_part headers_part
  bounce_body =
      report_header
      ++ (crlf
          ∷ line (codes "This is a MIME-encapsulated message.")
          ∷ crlf
          ∷ (related_opening ++ (plain_part ++ (html_part ++ (status_part ++ headers_part)))))
