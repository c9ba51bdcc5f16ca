-- ===== src/Connection/Sample.antt =====
-- A concrete configuration and environment, on which the code of `Connection` runs.
use companyly_microservices.Base.{true, false, none, some, List, [], ◌∷◌, ◌++◌, Text, codes, take}
use companyly_microservices.Transaction.State.{Parser, Transaction}
use companyly_microservices.Transaction.Message.{create_transaction}
use companyly_microservices.Transaction.DotStuff.{find}
use companyly_microservices.Connection.State.{cmd, Config, Connection}
use companyly_microservices.Connection.Reset.{Env}
use companyly_microservices.Connection.Socket.{new_connection}

-- A parser that keeps the header lines and passes the body through.
abbrev plain_parser : Parser (List Text)
plain_parser = record {
  empty = [];
  parse_header = λ ls m. ls;
  get_all = λ key m. [];
  add_end = λ key value m. m ++ (key ++ codes ": " ++ value) ∷ [];
  add_first = λ key value m. (key ++ codes ": " ++ value) ∷ m;
  remove = λ key m. m;
  header_lines = λ m. m;
  start_body = λ m. m;
  parse_more = λ line m. m;
  boundaries = λ line m. 0;
  parsed = λ line m. line;
  parse_end = λ m. m;
  at_end = λ m. [];
  force_end = λ m. m;
}

abbrev pub sample_env : Env (List Text)
unfolding find
sample_env = record {
  parser = plain_parser;
  is_local_ip = λ ip. false;
  is_private_ipv4 = λ ip. false;
  is_valid_ipv4 = λ ip. true;
  is_valid_ipv6 = λ ip. false;
  new_address = λ s. some s;
  decode = λ binary s. s;
  show_dsn = λ code s. s;
  date = codes "today";
  index_of_lf = λ s max. find 10 0 (take max s);
}

abbrev pub sample_config : Config
sample_config = record {
  ehlo_hello_message = codes ", Haraka is at your service.";
  connection_close_message = codes "closing connection. Have a jolly good day.";
  smtpgreeting = [];
  banner_includes_uuid = false;
  deny_includes_uuid = 0;
  max_bytes = 100;
  max_mime_parts = 1000;
  max_line_length = 512;
  max_data_line_length = 992;
  strict_rfc1869 = false;
  smtputf8 = true;
  add_received = true;
  max_received = 100;
  max_header_lines = 1000;
  clean_auth_results = true;
  internalcmd_key = none;
  hostname = codes "mx";
}

abbrev pub sample : Connection (List Text)
unfolding new_connection
sample = new_connection (codes "mx.test") (codes "Haraka") (codes "U") false

-- A transaction with two recipients, the newest first, and a connection that has it.
abbrev pub sample_transaction : Transaction (List Text)
unfolding create_transaction
sample_transaction = record (create_transaction plain_parser (codes "U.1")) {
  mail_from = some (codes "<a@b>");
  rcpt_to = codes "<y@z>" ∷ codes "<x@y>" ∷ [];
  data_bytes = 90;
}

abbrev pub open_connection : Connection (List Text)
unfolding new_connection
open_connection = record sample { state = cmd; esmtp = true }

abbrev pub in_transaction : Connection (List Text)
unfolding new_connection create_transaction
in_transaction = record open_connection { transaction = some sample_transaction }
