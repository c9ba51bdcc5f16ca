-- ===== src/Outbound/Item/Tests.antt =====
-- A queued message of email/outbound/hmail.js at concrete values.
use mathlib.Core.List.{Perm}
use companyly_microservices.Base.{
  ℕ, ◌==◌, true, false, Option, ◌≡◌, refl, none, some, List, [], ◌∷◌, ◌++◌, Text, codes,
}
use companyly_microservices.Outbound.Mx.{MxRecord, sort_mx}
use companyly_microservices.Outbound.Mx.Order.{IsOrdered, sort_mx-IsOrdered}
use companyly_microservices.Outbound.Item.State.{hook_bounce, fail_all, HMailItem, Config}
use companyly_microservices.Outbound.Item.{temp_fail}
use companyly_microservices.Outbound.Item.Hosts.{try_deliver}
use companyly_microservices.Outbound.Item.Retries.{waits, failures, failures_bounce}
use companyly_microservices.Outbound.Item.Attempts.{left, attempts, attempts_end}

abbrev twice : Config Text
twice = record {
  disabled = false;
  ipv6_enabled = true;
  temp_fail_intervals = 64 ∷ 128 ∷ [];
  is_ip = λ _. false;
  forced_host = λ _. false;
  fill = λ m. m;
}

abbrev exchanger : ℕ → MxRecord Text
exchanger n = record {
  priority = n;
  exchange = codes "mx.example";
  port = none;
  path = none;
  using_lmtp = false;
  family = none;
  settings = none;
}

abbrev queued : HMailItem ℕ Text
queued = record {
  num_failures = 0;
  refcount = 3;
  todo = some (record {
    domain = codes "b.example";
    mail_from_user = codes "me";
    rcpt_to = 7 ∷ [];
    force_tls = false;
  });
  mxlist = exchanger 10 ∷ [];
  hostlist = [];
  force_tls = false;
  events = [];
}

sort_mx-IsOrdered_example :
    IsOrdered (sort_mx (λ i. i == 0) (exchanger 20 ∷ exchanger 10 ∷ exchanger 20 ∷ []))
    × Perm
        (sort_mx (λ i. i == 0) (exchanger 20 ∷ exchanger 10 ∷ exchanger 20 ∷ []))
        (exchanger 20 ∷ exchanger 10 ∷ exchanger 20 ∷ [])
sort_mx-IsOrdered_example =
    sort_mx-IsOrdered (λ i. i == 0) (exchanger 20 ∷ exchanger 10 ∷ exchanger 20 ∷ [])

failures_bounce_example :
    (waits (failures twice (codes "busy" ∷ codes "down" ∷ []) queued).events ≡ 128000 ∷ 64000 ∷ [])
    × ((temp_fail twice
          (codes "gone")
          (failures twice (codes "busy" ∷ codes "down" ∷ []) queued)).events
        ≡ hook_bounce (codes "Too many failures (" ++ (codes "gone" ++ codes ")"))
          ∷ fail_all
          ∷ (failures twice (codes "busy" ∷ codes "down" ∷ []) queued).events)
failures_bounce_example =
    failures_bounce twice queued _ (codes "busy" ∷ codes "down" ∷ []) (codes "gone") refl refl refl

-- A name with two addresses: one request to DNS, and two connections.
abbrev two_addresses : MxRecord Text → Option (List Text)
two_addresses mx = some (codes "192.0.2.1" ∷ codes "192.0.2.2" ∷ [])

attempts_end_example :
    ((attempts twice two_addresses 3 (try_deliver twice queued)).num_failures ≡ 1)
    × (left twice two_addresses (attempts twice two_addresses 3 (try_deliver twice queued)) ≡ 0)
attempts_end_example = attempts_end twice two_addresses 3 queued
