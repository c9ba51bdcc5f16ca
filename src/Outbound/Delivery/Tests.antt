-- ===== src/Outbound/Delivery/Tests.antt =====
-- A delivery of email/outbound/hmail.js at concrete values.
use companyly_microservices.Base.{
  ℕ, Bool, true, false, ◌≡◌, refl, none, some, [], ◌∷◌, ◌++◌, Text, codes, decimal, is_space,
}
use companyly_microservices.Outbound.Delivery.Reply.{Reply, read_reply}
use companyly_microservices.Outbound.Delivery.State.{ehlo, mail, dot_lmtp, Mx, Config, Dialog}
use companyly_microservices.Outbound.Delivery.Lines.{hear}
use companyly_microservices.Outbound.Delivery.Socket.{start}
use companyly_microservices.Outbound.Delivery.Recipients.{hear_all}
use companyly_microservices.Outbound.Delivery.Ending.{Ends}
use companyly_microservices.Outbound.Delivery.Sorting.{hear_all-Ends}
use companyly_microservices.Outbound.Delivery.Tls.{Stranded, hear-Stranded}

abbrev plain : Config ℕ
plain = record {
  pooling = false;
  enable_tls = true;
  tls_loaded = true;
  no_tls = false;
  force_tls = false;
  mail_from = λ _. codes "<me@a.example>";
  format = λ _ a. codes "<" ++ (decimal a ++ codes "@b.example>");
  base64 = λ s. s;
  cram_md5_response = λ user pass s. s;
}

abbrev strict : Config ℕ
strict = record plain { force_tls = true }

abbrev host : Bool → Mx
host lmtp = record {
  exchange = codes "mx.b.example";
  using_lmtp = lmtp;
  bind_helo = codes "a.example";
  auth_user = none;
  auth_pass = none;
  auth_type = none;
}

abbrev said : ℕ → Reply
said code = record { code = code; more = false; extc = none; rest = codes "ok" }

abbrev fresh : Dialog ℕ
unfolding start
fresh = start plain false false (host false) (7 ∷ 8 ∷ 9 ∷ [])

abbrev mailing : Dialog ℕ
mailing = record fresh { command = mail }

abbrev dotted : Dialog ℕ
dotted = record fresh {
  command = dot_lmtp;
  ok_recips = 7 ∷ 8 ∷ [];
  fail_recips = 9 ∷ [];
  mx = host true;
}

abbrev greeted : Dialog ℕ
greeted = record fresh { command = ehlo }

-- The greeting is answered with EHLO.
abbrev greeting : Text
greeting = codes "220 mx.b.example ESMTP"

reads_code :
    read_reply (codes "550-5.1.1 no such user")
    ≡ some (record {
      code = 550;
      more = true;
      extc = some (codes "5.1.1");
      rest = codes "no such user";
    })
unfolding read_reply is_space
reads_code = refl

hear_all-Ends_example :
    Ends plain
      (7 ∷ [])
      (8 ∷ [])
      (9 ∷ [])
      (hear_all plain (said 250 ∷ said 250 ∷ said 450 ∷ said 550 ∷ []) mailing)
unfolding fresh
hear_all-Ends_example =
    hear_all-Ends plain mailing (said 250) 7 (said 250) ((8, said 450) ∷ (9, said 550) ∷ []) refl
      refl refl
      record {
        sorted_ok = refl;
        sorted_fail = refl;
        sorted_bounce = refl;
        all_recipients = refl;
        asked = refl;
        can_write = refl;
        may_write = refl;
        not_auth = refl;
        processing = refl;
        not_finished = refl;
        no_outcome = refl;
      }
      ((refl, refl), ((refl, refl), ((refl, refl), tt)))

hear-Stranded_example : Stranded strict greeted (hear strict (said 502) greeted)
unfolding fresh
hear-Stranded_example = hear-Stranded strict (said 502) greeted refl refl refl refl refl refl
