-- ===== src/History.antt =====
-- packages/history/src/history.ts: the clipboard history, its state and its operations.
pub mod Ports
pub mod Tags
pub mod State
pub mod Replay
pub mod Replayed
pub mod Fates
pub mod Load
pub mod Updates
pub mod Tabs
pub mod Ingest
pub mod Removal
pub mod Queries
pub mod Blobs
pub mod Untouched
pub mod Refused
pub mod Failures
pub mod Listed
pub mod Found
pub mod TagSets
pub mod Keyed
pub mod Run
pub mod Synced
pub mod Examples
