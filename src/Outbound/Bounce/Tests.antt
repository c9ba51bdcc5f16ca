-- ===== src/Outbound/Bounce/Tests.antt =====
-- The bounce message of email/outbound/hmail.js at concrete values.
use companyly_microservices.Base.{true, ◌≡◌, refl, Text, codes}
use companyly_microservices.Rfc1869.{all}
use companyly_microservices.Outbound.Bounce.Template.{is_word, fill, fill_step, fill_from, escape}
use companyly_microservices.Outbound.Bounce.Escape.{is_harmless, escape-IsHarmless}

abbrev value : Text → Text
value word = codes "me"

fills : fill value (codes "from {me}, {{to} {x") ≡ codes "from me, {me {x"
unfolding fill fill_from fill_step is_word
fills = refl

escape-IsHarmless_example : all is_harmless (escape (codes "<a href='x'>")) ≡ true
escape-IsHarmless_example = escape-IsHarmless (codes "<a href='x'>")
