-- ===== src/Tests.antt =====
-- Runs at concrete inputs, and each theorem at an input that meets its hypotheses.
mod Scope
mod Retention
mod Unit
mod Dedup
mod Gate
mod Reconcile
mod SimHash
mod InMem
mod Fusion
mod Store
mod Metadata
mod Reordering
mod Decoding
mod Pipeline
