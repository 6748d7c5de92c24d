-- ===== src/Tests.antt =====
-- Runs of the model at concrete inputs, and the theorems applied there.
mod Wire
mod Transport
mod Client
mod Cluster
mod Results
mod Wasm
mod Groups
mod Crypto
mod Session
mod Servers
mod Flight
mod Frames
mod Link
mod Module
mod Search
