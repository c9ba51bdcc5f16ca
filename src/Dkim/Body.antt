-- ===== src/Dkim/Body.antt =====
-- The body hash of email/dkim.js: the lines that it takes, and the overall result.
use companyly_microservices.Base.{
  Bool, true, false, List, [], ◌∷◌, ◌++◌, Text, ◌≡◌, refl, sym, ap, ◌∙◌, inl, inr, ◌&&◌,
  if◌then◌else◌, is_empty, join, Bool-cases,
}
use mathlib.Core.List.{append_assoc, append-nil}
use companyly_microservices.Dkim.{
  canonicalize, DkimObject, is_blank, add_body_line, add_body_lines, Result, pass, tempfail, fail,
  invalid, none, callback,
}

-- The lines without the blank ones at the end.
abbrev pub strip_end : List Text → List Text
strip_end [] = []
strip_end (l ∷ ls) = let rest = strip_end ls in if is_empty rest && is_blank l then [] else l ∷ rest

-- The lines as the signature's algorithm has them.
abbrev pub canonical : Bool → List Text → List Text
canonical relaxed [] = []
canonical relaxed (l ∷ ls) = (if relaxed then canonicalize l else l) ∷ canonical relaxed ls

-- What is hashed of lines behind some that are held back.
abbrev flushed : List Text → List Text → Text
flushed held lines = if is_empty lines then [] else join [] held ++ join [] lines

join-append : (a b : List Text) → join [] (a ++ b) ≡ join [] a ++ join [] b
unfolding join
join-append [] b = refl
join-append (x ∷ []) [] = sym (append-nil x)
join-append (x ∷ []) (y ∷ b) = refl
join-append (x ∷ y ∷ a) b =
    ap (x ++◌) (join-append (y ∷ a) b) ∙ sym (append_assoc x (join [] (y ∷ a)) (join [] b))

join-cons : (l : Text) (ls : List Text) → join [] (l ∷ ls) ≡ l ++ join [] ls
unfolding join
join-cons l [] = sym (append-nil l)
join-cons l (m ∷ ls) = refl

joined_nil : join [] [] ≡ []
unfolding join
joined_nil = refl

flushed-nil : (ls : List Text) → flushed [] ls ≡ join [] ls
unfolding join
flushed-nil [] = refl
flushed-nil (l ∷ ls) = refl

join-one : (l : Text) → join [] (l ∷ []) ≡ l
unfolding join
join-one l = refl

-- A blank line is held back, and hashed with what follows it.
flushed-blank :
    (held : List Text) (l : Text) (rest : List Text)
    → flushed (held ++ l ∷ []) rest ≡ flushed held (if is_empty rest && true then [] else l ∷ rest)
flushed-blank held l [] = refl
flushed-blank held l (m ∷ rest) =
    ap (◌++ join [] (m ∷ rest)) (join-append held (l ∷ []) ∙ ap (join [] held ++◌) (join-one l))
    ∙ (append_assoc (join [] held) l (join [] (m ∷ rest))
        ∙ ap (join [] held ++◌) (sym (join-cons l (m ∷ rest))))

-- Another line is hashed behind what was held back.
flushed-full :
    (h : Text) (held : List Text) (l : Text) (rest : List Text)
    → (h ++ (join [] held ++ l)) ++ flushed [] rest
      ≡ h ++ flushed held (if is_empty rest && false then [] else l ∷ rest)
flushed-full h held l [] =
    append-nil (h ++ (join [] held ++ l)) ∙ ap (λ x. h ++ (join [] held ++ x)) (sym (join-one l))
flushed-full h held l (m ∷ rest) =
    ap ((h ++ (join [] held ++ l)) ++◌) (flushed-nil (m ∷ rest))
    ∙ (append_assoc h (join [] held ++ l) (join [] (m ∷ rest))
        ∙ ap (h ++◌) (
            append_assoc (join [] held) l (join [] (m ∷ rest))
            ∙ ap (join [] held ++◌) (sym (join-cons l (m ∷ rest)))))

add_body_line-blank :
    (line : Text) (d : DkimObject)
    → d.run_cb ≡ false
    → is_blank (if d.relaxed then canonicalize line else line) ≡ true
    → add_body_line line d ≡ record d {
      line_buffer = d.line_buffer ++ (if d.relaxed then canonicalize line else line) ∷ [];
    }
unfolding add_body_line
add_body_line-blank line d live e = rw (live, e) refl

add_body_line-full :
    (line : Text) (d : DkimObject)
    → d.run_cb ≡ false
    → is_blank (if d.relaxed then canonicalize line else line) ≡ false
    → add_body_line line d ≡ record d {
      hashed =
          d.hashed ++ (join [] d.line_buffer ++ (if d.relaxed then canonicalize line else line));
      line_buffer = [];
    }
unfolding add_body_line
add_body_line-full line d live e = rw (live, e) refl

add_body_lines-flushed :
    (lines : List Text) (d : DkimObject)
    → d.run_cb ≡ false
    → (add_body_lines lines d).hashed
      ≡ d.hashed ++ flushed d.line_buffer (strip_end (canonical d.relaxed lines))
unfolding add_body_lines
add_body_lines-flushed [] d live = sym (append-nil d.hashed)
add_body_lines-flushed (line ∷ lines) d live =
    let l = if d.relaxed then canonicalize line else line in
    let rest = strip_end (canonical d.relaxed lines) in
    elim (Bool-cases (is_blank l)) [
      | inl e ↦ rw e (
          ap (λ x. (add_body_lines lines x).hashed) (add_body_line-blank line d live e)
          ∙ (add_body_lines-flushed lines (record d { line_buffer = d.line_buffer ++ l ∷ [] }) live
              ∙ ap (d.hashed ++◌) (flushed-blank d.line_buffer l rest)))
      | inr e ↦
          let d' : DkimObject = record d {
            hashed = d.hashed ++ (join [] d.line_buffer ++ l);
            line_buffer = [];
          } in
          rw e (
            ap (λ x. (add_body_lines lines x).hashed) (add_body_line-full line d live e)
            ∙ (add_body_lines-flushed lines d' live ∙ flushed-full d.hashed d.line_buffer l rest))
    ]

-- What a signature that has no result yet, and has taken nothing, hashes of a body: its lines in order, as the algorithm of the signature has them, but for the
-- blank lines at the end; nothing else, and nothing twice.
pub add_body_lines-hashed :
    (lines : List Text) (d : DkimObject)
    → d.run_cb ≡ false
    → d.hashed ≡ []
    → d.line_buffer ≡ []
    → (add_body_lines lines d).hashed ≡ join [] (strip_end (canonical d.relaxed lines))
unfolding join
add_body_lines-hashed lines d live h b =
    let shown = strip_end (canonical d.relaxed lines) in
    add_body_lines-flushed lines d live
    ∙ (ap (◌++ flushed d.line_buffer shown) h ∙ (ap (λ x. flushed x shown) b ∙ flushed-nil shown))

-- The overall result is that of the last signature that has one, whatever the order of precedence.
callback-last : (overall r : Result) → callback overall r ≡ r
unfolding callback
callback-last pass pass = refl
callback-last pass tempfail = refl
callback-last pass fail = refl
callback-last pass invalid = refl
callback-last pass none = refl
callback-last tempfail pass = refl
callback-last tempfail tempfail = refl
callback-last tempfail fail = refl
callback-last tempfail invalid = refl
callback-last tempfail none = refl
callback-last fail pass = refl
callback-last fail tempfail = refl
callback-last fail fail = refl
callback-last fail invalid = refl
callback-last fail none = refl
callback-last invalid pass = refl
callback-last invalid tempfail = refl
callback-last invalid fail = refl
callback-last invalid invalid = refl
callback-last invalid none = refl
callback-last none pass = refl
callback-last none tempfail = refl
callback-last none fail = refl
callback-last none invalid = refl
callback-last none none = refl
