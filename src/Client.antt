-- ===== src/Client.antt =====
-- The class `CuttleDB` of adapters/cuttledb.js, over any transport.
pub mod Exec
pub mod KeyValues
pub mod OneLine
pub mod Send
pub mod Simulation
pub mod Schema
pub mod Session
pub mod Grouping
pub mod Queries
pub mod Rows
pub mod Transaction
pub mod RoundTrip
pub mod Methods
