-- ===== src/Outbound.antt =====
-- email/outbound: the delivery side of the server.
pub mod TimerQueue
pub mod Delivery
pub mod Mx
pub mod MxLookup
pub mod Item
pub mod Bounce
pub mod Qfile
