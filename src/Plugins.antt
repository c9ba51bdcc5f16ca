-- ===== src/Plugins.antt =====
-- email/plugins.js: the engine that runs the plugins of a hook, one after the other.
pub mod State
pub mod Engine
pub mod Order
pub mod Denial
pub mod Cancelling
pub mod Tests
