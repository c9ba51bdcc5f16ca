-- ===== src/Outbound/Delivery.antt =====
-- email/outbound/hmail.js: the dialogue with another mail server, `try_deliver_host_on_socket`.
pub mod State
pub mod Reply
pub mod Ehlo
pub mod Dialog
pub mod Lines
pub mod Socket
pub mod Recipients
pub mod Ending
pub mod Sorting
pub mod Lmtp
pub mod Tls
pub mod Clear
pub mod Tests
