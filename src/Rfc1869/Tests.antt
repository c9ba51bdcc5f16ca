-- ===== src/Rfc1869/Tests.antt =====
-- The parser of email/rfc1869.js at concrete inputs.
use companyly_microservices.Base.{
  ◌≡◌, refl, false, true, some, none, [], ◌∷◌, codes, is_space, any, text_eq, to_lower, Text, List,
  All, arith,
}
use companyly_microservices.Rfc1869.{
  mail, rcpt, parse, chew, skip_spaces, after_word, last_word, is_parameter, chew_all,
}
use companyly_microservices.Rfc1869.Chew.{chew_all-ends}
use companyly_microservices.Rfc1869.Addresses.{IsRecipient, parse-IsRecipient}

mail_parameters :
    parse mail (codes "FROM:<a@b.c> SIZE=100 body=8BITMIME ") true
    ≡ some (codes "<a@b.c>" ∷ codes "SIZE=100" ∷ codes "body=8BITMIME" ∷ [])
unfolding parse chew skip_spaces after_word last_word is_parameter is_space any text_eq to_lower
mail_parameters = refl

bare_recipient : parse rcpt (codes "TO: user@x.y") false ≡ some (codes "<user@x.y>" ∷ [])
unfolding parse chew skip_spaces after_word last_word is_parameter is_space any text_eq to_lower
bare_recipient = refl

strict_recipient : parse rcpt (codes "TO: user@x.y") true ≡ none
unfolding parse chew skip_spaces after_word last_word is_parameter is_space any text_eq to_lower
strict_recipient = refl

parse-IsRecipient_example :
    (a : Text) × (ps : List Text) × (codes "<user@x.y>" ∷ codes "NOTIFY=NEVER" ∷ [] ≡ a ∷ ps)
    × IsRecipient false a
    × All (λ p. is_parameter p ≡ true) ps
unfolding parse chew skip_spaces after_word last_word is_parameter is_space any text_eq to_lower
parse-IsRecipient_example =
    parse-IsRecipient (codes "To: user@x.y NOTIFY=NEVER") false
      (codes "<user@x.y>" ∷ codes "NOTIFY=NEVER" ∷ []) refl

-- `A B`, reversed, with fuel 3.
chew_all-ends_example :
    (chew (chew_all 3 (codes "B A") []).0 ≡ none)
    × All (λ p. is_parameter p ≡ true) (chew_all 3 (codes "B A") []).1
chew_all-ends_example = chew_all-ends 3 (codes "B A") [] (omega arith) tt
