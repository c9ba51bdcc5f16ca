-- ===== src/Connection/Headers.antt =====
-- The headers that email/connection.js adds to a message: Received and Authentication-Results.
use companyly_microservices.Base.{
  Bool, true, false, none, some, List, [], ◌∷◌, ◌++◌, Text, ◌==◌, if◌then◌else◌, codes, is_empty,
  join, reverse,
}
use companyly_microservices.Transaction.State.{Transaction}
use companyly_microservices.Transaction.Message.{add_header, remove_header}
use companyly_microservices.Connection.State.{helo, ehlo, Connection}
use companyly_microservices.Connection.Reset.{Env}
use companyly_microservices.Connection.Greeting.{get_remote}

-- `\r?\n` at the start of the reversed text goes.
abbrev cut_newline : Text → Text → Text
cut_newline whole [] = whole
cut_newline whole (c ∷ []) = if c == 10 then [] else whole
cut_newline whole (c ∷ d ∷ s) = if c == 10 then (if d == 13 then s else d ∷ s) else whole

abbrev cut_fold : Text → Text
cut_fold [] = []
cut_fold (c ∷ s) = if c == 9 then cut_newline (c ∷ s) s else cut_newline (c ∷ s) (c ∷ s)

-- `replace(/\r?\n\t?$/, '')`
unfoldable strip_fold : Text → Text
strip_fold s = reverse (cut_fold (reverse s))

module _ {M : Type 0} (env : Env M) where
  unfoldable pub received_line : Transaction M → Connection M → Text
  unfolding strip_fold
  received_line t c =
      let esmtp_said : Bool = elim c.hello.verb [
        | none ↦ false
        | some v ↦ elim v [ helo ↦ false | ehlo ↦ true ]
      ] in
      let smtp : Text =
        (if esmtp_said then codes "ESMTP" else codes "SMTP")
        ++ ((if c.tls.enabled then codes "S" else [])
            ++ elim c.authheader [ none ↦ [] | some a ↦ codes "A" ]) in
      let host : Text = elim c.hello.host [ none ↦ codes "null" | some h ↦ h ] in
      let from : Text = elim t.mail_from [ none ↦ codes "null" | some f ↦ f ] in
      codes "from "
      ++ host
      ++ codes " ("
      ++ get_remote c.remote.info c
      ++ codes ")"
      ++ (13 ∷ 10 ∷ 9 ∷ codes "by ")
      ++ c.local.host
      ++ codes " ("
      ++ c.local.info
      ++ codes ") with "
      ++ smtp
      ++ codes " id "
      ++ t.uuid
      ++ (13 ∷ 10 ∷ 9 ∷ codes "envelope-from ")
      ++ from
      ++ elim c.tls.cipher [ none ↦ [] | some s ↦ (13 ∷ 10 ∷ 9 ∷ strip_fold (codes "tls " ++ s)) ]
      ++ elim c.authheader [ none ↦ [] | some a ↦ codes " " ++ strip_fold a ]
      ++ (59 ∷ 13 ∷ 10 ∷ 9 ∷ env.date)

  -- `auth_results()`: the header, empty where there are no results.
  unfoldable pub auth_results : Connection M → Text
  auth_results c =
      let results : List Text =
        reverse c.auth_results
        ++ elim c.transaction [ none ↦ [] | some t ↦ reverse t.auth_results ] in
      if is_empty results then [] else join (59 ∷ 13 ∷ 10 ∷ 9 ∷ []) (c.local.host ∷ results)

  -- `auth_results(message)`, as plugins call it: the message is kept with the transaction.
  unfoldable add_auth_result : Text → Connection M → Connection M
  add_auth_result message c = elim c.transaction [
    | none ↦ record c { auth_results = message ∷ c.auth_results }
    | some t ↦ record c {
      transaction = some (record t { auth_results = message ∷ t.auth_results });
    }
  ]

  unfoldable rename_all : List Text → Transaction M → Transaction M
  rename_all [] t = t
  rename_all (a ∷ as') t =
      rename_all as' (add_header env.parser (codes "Original-Authentication-Results") a t)

  unfoldable pub auth_results_clean : Transaction M → Transaction M
  unfolding rename_all
  auth_results_clean t =
      let ars = env.parser.get_all (codes "Authentication-Results") t.message in
      if is_empty ars
      then t
      else remove_header env.parser (codes "Authentication-Results") (rename_all ars t)
