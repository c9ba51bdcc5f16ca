-- ===== src/Transaction/State.antt =====
-- The state of email/transaction.js, and what it uses of the mail parser haraka-email-message.
use companyly_microservices.Base.{ℕ, Bool, Option, List, Text}

pub record Count : Type 0 where
  pub accept : ℕ
  pub tempfail : ℕ
  pub reject : ℕ

abbrev pub no_count : Count
no_count = record { accept = 0; tempfail = 0; reject = 0 }

pub data Status : Type 0 where
  accepted rejected deferred : Status

-- haraka-email-message is not part of the repository: its parsed header and its body parser are a
-- type `M`, and its methods are these functions. `boundaries` counts the mime boundaries that a
-- call of `parse_more` announces.
pub record Parser (M : Type 0) : Type 0 where
  pub empty : M
  pub parse_header : List Text → M → M
  pub get_all : Text → M → List Text
  pub add_end : Text → Text → M → M
  pub add_first : Text → Text → M → M
  pub remove : Text → M → M
  pub header_lines : M → List Text
  pub start_body : M → M
  pub parse_more : Text → M → M
  pub boundaries : Text → M → ℕ
  pub parsed : Text → M → Text
  pub parse_end : M → M
  pub at_end : M → Text
  pub force_end : M → M

-- `message` is `header` and `body` together; `body` tells whether there is a body yet. The newest
-- element stands first in `rcpt_to`, `rcpt_results`, `auth_results` and `stream`.
pub record Transaction (M : Type 0) : Type 0 where
  pub uuid : Text
  pub mail_from : Option Text
  pub rcpt_to : List Text
  pub header_lines : List Text
  pub data_bytes : ℕ
  pub header_pos : ℕ
  pub found_hb_sep : Bool
  pub body : Bool
  pub parse_body : Bool
  pub message : M
  pub stream : List Text
  pub discard_data : Bool
  pub resetting : Bool
  pub rcpt_count : Count
  pub msg_status : Option Status
  pub binary : Bool
  pub mime_part_count : ℕ
  pub line_length_exceeded : Bool
  pub auth_results : List Text
  -- `_relaying`, absent until it is set
  pub relaying : Option Bool
