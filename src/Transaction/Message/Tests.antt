-- ===== src/Transaction/Message/Tests.antt =====
-- Lines of a message at a concrete input.
use companyly_microservices.Base.{refl, List, [], ◌∷◌, ◌≤◌, Text, arith, length, codes, ◌++◌}
use companyly_microservices.Transaction.State.{Parser}
use companyly_microservices.Transaction.Message.{create_transaction}
use companyly_microservices.Transaction.Message.Lines.{Streams, add_all, add_data-Streams}

-- A parser that keeps nothing.
abbrev blank_parser : Parser Text
blank_parser = record {
  empty = [];
  parse_header = λ ls m. m;
  get_all = λ k m. [];
  add_end = λ k v m. m;
  add_first = λ k v m. m;
  remove = λ k m. m;
  header_lines = λ m. [];
  start_body = λ m. m;
  parse_more = λ s m. m;
  boundaries = λ s m. 0;
  parsed = λ s m. s;
  parse_end = λ m. m;
  at_end = λ m. [];
  force_end = λ m. m;
}

abbrev letter : List Text
letter =
    (codes "Subject: x" ++ 13 ∷ 10 ∷ [])
    ∷ (codes "..y: z" ++ 13 ∷ 10 ∷ [])
    ∷ (13 ∷ 10 ∷ [])
    ∷ (codes "..body" ++ 13 ∷ 10 ∷ [])
    ∷ []

add_data-Streams_example :
    Streams letter []
      (add_all blank_parser 1 letter (create_transaction blank_parser (codes "u"))).stream
    × (length
          (add_all blank_parser 1 letter (create_transaction blank_parser (codes "u"))).header_lines
        ≤ 1)
unfolding create_transaction
add_data-Streams_example =
    add_data-Streams blank_parser 1 letter (create_transaction blank_parser (codes "u")) refl refl
      (omega arith)
