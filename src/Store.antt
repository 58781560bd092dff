-- ===== src/Store.antt =====
-- packages/store/src: the append-only log of the history, and the files of the blobs.
pub mod Platform
pub mod Lines
pub mod Chain
pub mod Record
pub mod Payload
pub mod Log
pub mod Sealed
pub mod Kinds
pub mod Events
pub mod Files
pub mod Written
pub mod Opening
pub mod Appended
pub mod Reopened
pub mod Fresh
pub mod Crashes
pub mod Blobs
pub mod BlobFiles
pub mod Ports
pub mod Compact
pub mod Replays
pub mod Rebuilt
pub mod Compacted
pub mod Tampering
pub mod Restarts
pub mod Examples
