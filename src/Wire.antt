-- ===== src/Wire.antt =====
-- The line protocol as the SDK writes and reads it: the helpers of adapters/cuttledb.js.
pub mod Body
pub mod Contract
pub mod Escape
pub mod Groups
pub mod Row
pub mod Rowlist
pub mod Results
