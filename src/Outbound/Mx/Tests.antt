-- ===== src/Outbound/Mx/Tests.antt =====
-- The mail exchangers of email/outbound/hmail.js at concrete values.
use companyly_microservices.Base.{false, none, some, Text, codes}
use companyly_microservices.Outbound.Mx.{MxRecord}

abbrev relay : MxRecord Text
relay = record {
  priority = 0;
  exchange = codes "relay.example";
  port = none;
  path = none;
  using_lmtp = false;
  family = none;
  settings = some (codes "credentials");
}
