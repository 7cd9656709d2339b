-- ===== src/Dedup.antt =====
-- src/dedup.rs: keys, their hexadecimal text, the set of seen keys, and near-duplicates.
pub mod Hex
pub mod Key
pub mod SimHash
pub mod Seen
pub mod Gate
