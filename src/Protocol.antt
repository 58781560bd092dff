-- ===== src/Protocol.antt =====
-- packages/protocol: results, the types of the domain and of the store's events, and the limits.
pub mod Result
pub mod Types
pub mod Constants
pub mod Tags
pub mod Ids
