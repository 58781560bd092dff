-- ===== src/Privacy.antt =====
-- packages/privacy/src: what may be recorded, and how secrets are masked.
pub mod Spans
pub mod Classify
pub mod Cover
pub mod Refusals
pub mod Verdicts
pub mod Examples
