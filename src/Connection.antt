-- ===== src/Connection.antt =====
-- email/connection.js: one SMTP connection.
pub mod State
pub mod Reset
pub mod Respond
pub mod Greeting
pub mod Envelope
pub mod Headers
pub mod Data
pub mod Queue
pub mod Words
pub mod Commands
pub mod Line
pub mod Input
pub mod Socket
pub mod Answers
pub mod Rest
pub mod Heard
pub mod Closures
pub mod Waiting
pub mod Verdicts
pub mod Recipients
pub mod Messages
pub mod Pausing
pub mod Order
pub mod Size
pub mod Sample
pub mod Tests
