-- ===== src/Transport.antt =====
-- The transports of adapters/cuttledb.js: what they share, and each of them.
pub mod Router
pub mod Tcp
pub mod Ws
pub mod Connect
