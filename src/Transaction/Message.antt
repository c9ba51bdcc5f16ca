-- ===== src/Transaction/Message.antt =====
-- The methods of email/transaction.js that take a message in: `add_data`, `end_data` and the
-- header methods. A line is its bytes: where the code decodes one, the bytes stay as they are.
pub mod Lines
pub mod Tests
use companyly_microservices.Base.{
  ℕ, ◌+◌, Bool, true, false, none, List, [], ◌∷◌, ◌++◌, Text, ◌&&◌, ◌||◌, not, ◌==◌, ltb,
  if◌then◌else◌, take, drop, length, is_empty, is_space,
}
use companyly_microservices.Transaction.State.{no_count, Parser, Transaction}
use companyly_microservices.Transaction.DotStuff.{
  has_at, add_dot_stuffing_and_ensure_crlf_newlines, remove_final_cr,
}

-- The separator between header and body: `\n` or `\r\n` at the start.
unfoldable pub is_separator : Text → Bool
is_separator line = has_at line 0 0x0A || (has_at line 0 0x0D && has_at line 1 0x0A)

unfoldable pub strip_dot : Text → Text
strip_dot [] = []
strip_dot (c ∷ s) = if c == 0x2E then s else c ∷ s

-- `replace(/\r\n$/, '\n')` is what `remove_final_cr` does.
-- `/^(?:([^\s:]*):\s*([\s\S]*)$|[ \t])/`
unfoldable names_header : Text → Bool
names_header [] = false
names_header (c ∷ s) = if c == 58 then true else if is_space c then false else names_header s

unfoldable pub looks_like_header : Text → Bool
unfolding names_header
looks_like_header [] = false
looks_like_header (c ∷ s) = c == 32 || c == 9 || names_header (c ∷ s)

-- The loop of `end_data`: the index of the last line before the first that is no header line.
unfoldable pub busted_pos : ℕ → ℕ → List Text → ℕ
busted_pos pos i [] = pos
busted_pos pos i (line ∷ ls) =
    let rest = busted_pos i (i + 1) ls in if looks_like_header line then rest else pos

module _ {M : Type 0} (parser : Parser M) where
  open parser use {
    empty, parse_header, add_end, add_first, remove, header_lines as lines_of, start_body,
    parse_more, boundaries, parsed, parse_end, at_end, force_end,
  }

  -- The constructor, with the uuid that it is given.
  unfoldable pub create_transaction : Text → Transaction M
  create_transaction uuid = record {
    uuid = uuid;
    mail_from = none;
    rcpt_to = [];
    header_lines = [];
    data_bytes = 0;
    header_pos = 0;
    found_hb_sep = false;
    body = false;
    parse_body = false;
    message = empty;
    stream = [];
    discard_data = false;
    resetting = false;
    rcpt_count = no_count;
    msg_status = none;
    binary = false;
    mime_part_count = 0;
    line_length_exceeded = false;
    auth_results = [];
    relaying = none;
  }

  unfoldable pub ensure_body : Transaction M → Transaction M
  ensure_body t = if t.body then t else record t { body = true; message = start_body t.message }

  -- A call of `body.parse_more`, with the mime boundaries that it announces.
  unfoldable pub feed : Text → Transaction M → Transaction M
  feed line t = record t {
    message = parse_more line t.message;
    mime_part_count = t.mime_part_count + boundaries line t.message;
  }

  -- `if (!this.discard_data) this.message_stream.add_line(line)`
  unfoldable pub add_line : Text → Transaction M → Transaction M
  add_line line t = if t.discard_data then t else record t { stream = line ∷ t.stream }

  unfoldable pub end_of_header : Transaction M → Transaction M
  end_of_header t =
      let t' : Transaction M = record t {
        message = parse_header t.header_lines t.message;
        header_pos = length t.header_lines;
        found_hb_sep = true;
      } in
      if t.parse_body then ensure_body t' else t'

  -- A line of the header: the stream gets it without its leading dot, as the header does.
  unfoldable pub header_line : ℕ → Text → Transaction M → Transaction M
  header_line max_lines line t =
      if ltb (length t.header_lines) max_lines
      then add_line (strip_dot line)
          (record t { header_lines = t.header_lines ++ remove_final_cr (strip_dot line) ∷ [] })
      else add_line line t

  unfoldable pub body_line : Text → Transaction M → Transaction M
  body_line line t =
      let new_line = remove_final_cr (strip_dot line) in
      let out = add_dot_stuffing_and_ensure_crlf_newlines (parsed new_line t.message) in
      if is_empty out then feed new_line t else add_line out (feed new_line t)

  unfoldable pub add_data : ℕ → Text → Transaction M → Transaction M
  add_data max_lines line t =
      if t.header_pos == 0 && is_separator line
      then add_line line (end_of_header t)
      else if t.header_pos == 0
      then header_line max_lines line t
      else if t.parse_body
      then body_line line t
      else add_line line t

  unfoldable pub feed_all : List Text → Transaction M → Transaction M
  feed_all [] t = t
  feed_all (line ∷ ls) t = feed_all ls (feed line t)

  -- A message with no separator: what looks like a header is parsed as one, the rest is body.
  unfoldable pub split_busted : Transaction M → Transaction M
  split_busted t =
      let pos = busted_pos 0 0 t.header_lines in
      let header = take (pos + 1) t.header_lines in
      let t' : Transaction M = record t {
        header_lines = header;
        message = parse_header header t.message;
        header_pos = pos;
      } in
      if t.parse_body then feed_all (drop (pos + 1) t.header_lines) (ensure_body t') else t'

  unfoldable pub finish_body : Transaction M → Transaction M
  finish_body t =
      let out = add_dot_stuffing_and_ensure_crlf_newlines (at_end t.message) in
      let t' : Transaction M = record t { message = parse_end t.message } in
      if is_empty out then t' else add_line out (record t' { message = force_end t'.message })

  -- Up to the call of `cb`, which comes at once if `discard_data`, else when the stream has ended.
  unfoldable pub end_data : Transaction M → Transaction M
  end_data t =
      let t' = if not t.found_hb_sep && not (is_empty t.header_lines) then split_busted t else t in
      if not (t'.header_pos == 0) && t'.parse_body then finish_body t' else t'

  unfoldable pub reset_headers : Transaction M → Transaction M
  reset_headers t = record t { header_pos = length (lines_of t.message) }

  -- `if (this.header_pos > 0) this.reset_headers()`
  unfoldable pub refresh : Transaction M → Transaction M
  refresh t = if t.header_pos == 0 then t else reset_headers t

  unfoldable pub add_header : Text → Text → Transaction M → Transaction M
  add_header key value t = refresh (record t { message = add_end key value t.message })

  unfoldable pub add_leading_header : Text → Text → Transaction M → Transaction M
  add_leading_header key value t = refresh (record t { message = add_first key value t.message })

  unfoldable pub remove_header : Text → Transaction M → Transaction M
  remove_header key t = refresh (record t { message = remove key t.message })
