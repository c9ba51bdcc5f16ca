-- ===== src/Dkim/Tests.antt =====
-- Runs of email/dkim.js, and the theorems about it at concrete inputs.
use companyly_microservices.Base.{true, false, List, [], ◌∷◌, ◌++◌, Text, ◌≡◌, refl, codes, join}
use companyly_microservices.Dkim.{crlf, canonicalize, DkimObject, add_body_lines}
use companyly_microservices.Dkim.Relaxed.{canonicalize-squeeze}
use companyly_microservices.Dkim.Body.{strip_end, canonical, add_body_lines-hashed}

runs_of_space : canonicalize (codes " a  b " ++ crlf) ≡ codes " a b" ++ crlf
unfolding canonicalize
runs_of_space = refl

canonicalize-squeeze_example :
    canonicalize (codes "pay  1 " ++ 13 ∷ codes "000") ≡ codes "pay 1" ++ crlf
canonicalize-squeeze_example = canonicalize-squeeze (codes "pay  1 ") (codes "000") 13 refl refl

abbrev start : DkimObject
start = record { relaxed = true; run_cb = false; hashed = []; line_buffer = [] }

abbrev lines : List Text
lines = (codes "a " ++ crlf) ∷ crlf ∷ (codes "b" ++ crlf) ∷ (codes " " ++ crlf) ∷ crlf ∷ []

add_body_lines-hashed_example :
    (add_body_lines lines start).hashed ≡ join [] (strip_end (canonical true lines))
add_body_lines-hashed_example = add_body_lines-hashed lines start refl refl refl

hashed_bytes :
    (add_body_lines lines start).hashed ≡ codes "a" ++ (crlf ++ (crlf ++ (codes "b" ++ crlf)))
unfolding add_body_lines join
hashed_bytes = refl
