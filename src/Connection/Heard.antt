-- ===== src/Connection/Heard.antt =====
-- What the client of email/connection.js hears: `respond` writes nothing where no line of the message
-- holds more than blanks.
use companyly_microservices.Base.{
  ℕ, Bool, false, ◌≡◌, refl, sym, ap, ◌∙◌, List, [], ◌∷◌, ◌++◌, Text, not, ◌==◌, ◌&&◌, arith,
  if◌then◌else◌, is_empty, is_space, any, select, split_at, decimal, inl, inr, Bool-cases,
}
use companyly_microservices.Connection.State.{
  Msg, no_msg, text, lines, dsn, Event, write, Config, Connection,
}
use companyly_microservices.Connection.Reset.{Env}
use companyly_microservices.Connection.Respond.{
  or_default, code_of, lines_of, messages_of, reply_text, uuid_text, note_reject,
}
use companyly_microservices.Connection.Rest.{replies, written, replied}

-- The codes of the replies that are not empty, newest first.
abbrev pub spoken : List (ℕ × Text) → List ℕ
spoken [] = []
spoken ((code, buf) ∷ ws) = if is_empty buf then spoken ws else code ∷ spoken ws

abbrev pub heard : List Event → List ℕ
heard es = spoken (written es)

-- What a message makes the client hear: its code, or nothing.
abbrev pub says : ℕ → Msg → List ℕ
says code msg = if is_empty (messages_of (code_of code msg) msg) then [] else code_of code msg ∷ []

-- The same for a message in whose place a default text may stand.
abbrev pub says_or : ℕ → Msg → List ℕ
says_or code no_msg = code ∷ []
says_or code (text []) = code ∷ []
says_or code (text (c ∷ s)) = says code (text (c ∷ s))
says_or code (lines ls) = says code (lines ls)
says_or code (dsn k s) = says code (dsn k s)

pub replies-written : (es fs : List Event) → written es ≡ written fs → replies es ≡ replies fs
replies-written es fs h = codes_of es ∙ ap first h ∙ sym (codes_of fs)
  where
    first : List (ℕ × Text) → List ℕ
    first [] = []
    first ((code, buf) ∷ ws) = code ∷ first ws

    codes_of : (es : List Event) → replies es ≡ first (written es)
    codes_of [] = refl
    codes_of (write code buf ∷ es) = ap (code ∷◌) (codes_of es)
    codes_of (_ ∷ es) = codes_of es

abbrev is_said : Text → Bool
is_said s = any (λ c. not (is_space c)) s

starts_full : (k : Text) (x : ℕ) (s t : Text) → is_empty ((k ++ x ∷ s) ++ t) ≡ false
starts_full [] x s t = refl
starts_full (c ∷ k) x s t = refl

is_empty-reply_text-select :
    (k uuid : Text) (ls : List Text)
    → is_empty (reply_text k uuid (select is_said ls)) ≡ is_empty (select is_said ls)
unfolding reply_text select any
is_empty-reply_text-select k uuid [] = refl
is_empty-reply_text-select k uuid ([] ∷ ls) = is_empty-reply_text-select k uuid ls
is_empty-reply_text-select k uuid ((c ∷ s) ∷ ls) = elim (Bool-cases (is_said (c ∷ s))) [
  | inl full ↦ rw (full, select) (starts_full k _ _ _)
  | inr blank ↦ rw (blank, select) (is_empty-reply_text-select k uuid ls)
]

is_empty-reply_text :
    (code : ℕ) (k uuid : Text) (msg : Msg)
    → is_empty (reply_text k uuid (messages_of code msg)) ≡ is_empty (messages_of code msg)
unfolding messages_of
is_empty-reply_text code k uuid msg =
    elim (Bool-cases ((code == 334) && is_empty (select is_said (lines_of msg)))) [
      | inl auth ↦ unfold reply_text in rw auth (starts_full k _ _ _)
      | inr other ↦ rw other (is_empty-reply_text-select k uuid (lines_of msg))
    ]

module _ {M : Type 0} (env : Env M) (cfg : Config) (c : Connection M) where
  -- A reply is heard as far as its message says something.
  pub heard-replied :
      (code : ℕ) (msg : Msg)
      → heard (replied env cfg code msg c).events ≡ says code msg ++ heard c.events
  unfolding replied note_reject
  heard-replied code msg =
      let full =
        is_empty-reply_text (code_of code msg) (decimal (code_of code msg))
          (uuid_text env cfg (λ d. d) (code_of code msg) c) msg in
      ground (arith, full)

split_at-first : (sep : ℕ) (s : Text) → (w : Text) × (ws : List Text) × (split_at sep s ≡ w ∷ ws)
unfolding split_at
split_at-first sep [] = ([], [], refl)
split_at-first sep (c ∷ s) =
    let (w, ws, e) = split_at-first sep s in
    elim (Bool-cases (c == sep)) [
      | inl ends ↦ ([], w ∷ ws, rw (e, split_at) (rw ends refl))
      | inr goes_on ↦ (c ∷ w, ws, rw (e, split_at) (rw goes_on refl))
    ]

split_at-line :
    (sep x : ℕ) (s : Text)
    → (x == sep) ≡ false
    → (w : Text) × (ws : List Text) × (split_at sep (x ∷ s) ≡ (x ∷ w) ∷ ws)
unfolding split_at
split_at-line sep x s other =
    let (w, ws, e) = split_at-first sep s in (w, ws, rw (e, split_at) (rw other refl))

printed_ne_lf : (x : ℕ) → is_space x ≡ false → (x == 10) ≡ false
unfolding is_space
printed_ne_lf x printed = ground arith

select-said :
    (x : ℕ) (w : Text) (ws : List Text)
    → is_space x ≡ false
    → select is_said ((x ∷ w) ∷ ws) ≡ (x ∷ w) ∷ select is_said ws
unfolding select any
select-said x w ws printed = rw printed refl

-- A text that begins with a printed character is heard.
pub says-text : (code x : ℕ) (s : Text) → is_space x ≡ false → says code (text (x ∷ s)) ≡ code ∷ []
unfolding messages_of lines_of code_of
says-text code x s printed =
    let (w, ws, e) = split_at-line 10 x s (printed_ne_lf x printed) in
    rw e rw (select-said x w ws printed) (ground arith)

pub says-or_default :
    (code : ℕ) (msg : Msg) (x : ℕ) (s : Text)
    → is_space x ≡ false
    → says code (or_default msg (text (x ∷ s))) ≡ says_or code msg
unfolding or_default
says-or_default code no_msg x s printed = says-text code x s printed
says-or_default code (text []) x s printed = says-text code x s printed
says-or_default code (text (a ∷ b)) x s printed = refl
says-or_default code (lines ls) x s printed = refl
says-or_default code (dsn k r) x s printed = refl
