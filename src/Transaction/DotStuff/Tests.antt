-- ===== src/Transaction/DotStuff/Tests.antt =====
-- Dot-stuffing of email/transaction.js at concrete inputs.
use companyly_microservices.Base.{◌*◌, ◌≤◌, false, ◌≡◌, refl, none, [], ◌∷◌, Text, length}
use companyly_microservices.Transaction.DotStuff.{
  find, extra_of, extra, add_dot_stuffing_and_ensure_crlf_newlines,
}
use companyly_microservices.Transaction.DotStuff.Reference.{stuff}
use companyly_microservices.Transaction.DotStuff.Loop.{add_dot_stuffing-eq-stuff}
use companyly_microservices.Transaction.DotStuff.Wire.{
  unstuff, to_crlf, has_bare_lf, has_dot_line, unstuff-add_dot_stuffing, add_dot_stuffing-safe,
}

-- `.`, LF, `A.`, CR LF, `.`
abbrev body : Text
body = 0x2E ∷ 0x0A ∷ 0x41 ∷ 0x2E ∷ 0x0D ∷ 0x0A ∷ 0x2E ∷ []

stuffed :
    add_dot_stuffing_and_ensure_crlf_newlines body
    ≡ 0x2E ∷ 0x2E ∷ 0x0D ∷ 0x0A ∷ 0x41 ∷ 0x2E ∷ 0x0D ∷ 0x0A ∷ 0x2E ∷ 0x2E ∷ []
unfolding add_dot_stuffing_and_ensure_crlf_newlines find extra extra_of
stuffed = refl

add_dot_stuffing-eq-stuff_example : add_dot_stuffing_and_ensure_crlf_newlines body ≡ stuff none body
add_dot_stuffing-eq-stuff_example = add_dot_stuffing-eq-stuff body

unstuff-add_dot_stuffing_example :
    unstuff none (add_dot_stuffing_and_ensure_crlf_newlines body) ≡ to_crlf none body
unstuff-add_dot_stuffing_example = unstuff-add_dot_stuffing body

add_dot_stuffing-safe_example :
    (has_dot_line none (add_dot_stuffing_and_ensure_crlf_newlines body) ≡ false)
    × (has_bare_lf none (add_dot_stuffing_and_ensure_crlf_newlines body) ≡ false)
    × (length (add_dot_stuffing_and_ensure_crlf_newlines body) ≤ 2 * length body)
add_dot_stuffing-safe_example = add_dot_stuffing-safe body
