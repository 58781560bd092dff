-- ===== src/Keyring.antt =====
-- packages/keyring/src: the master key of the store, which the operating system wraps or a passphrase
-- derives. Backend has backend.ts, KeyFile the file `key.bin`, Unlocking the operations of keyring.ts
-- and passphrase.ts, Calls their sequences. Fits: a locked
-- keyring. OneKey, Zeroed, Reopened and Rekeyed have the theorems.
pub mod Backend
pub mod KeyFile
pub mod Unlocking
pub mod Calls
pub mod Fits
pub mod OneKey
pub mod Zeroed
pub mod Rekeyed
pub mod Phrases
pub mod Examples
