-- ===== src/Tests.antt =====
-- The theorems applied to concrete values.
pub mod Values
pub mod Documents
pub mod Trees
pub mod Writing
pub mod Data
pub mod Smoothing
pub mod Server
pub mod Requests
pub mod Parsing
pub mod Watching
pub mod Serving
pub mod Logs
