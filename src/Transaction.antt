-- ===== src/Transaction.antt =====
-- email/transaction.js: one message on its way in.
pub mod State
pub mod DotStuff
pub mod Message
