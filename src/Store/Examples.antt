-- ===== src/Store/Examples.antt =====
-- Examples for the store: a platform that stands for Node, and a log on it.
pub mod Codec
pub mod Payloads
pub mod Toy
pub mod Logs
pub mod Starts
