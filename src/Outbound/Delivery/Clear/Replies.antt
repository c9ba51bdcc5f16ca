-- ===== src/Outbound/Delivery/Clear/Replies.antt =====
-- Forced TLS in email/outbound/hmail.js: no reply of the server makes the client talk in the clear.
use companyly_microservices.Outbound.Delivery.Reply.{Reply}
use companyly_microservices.Outbound.Delivery.State.{Dialog}
