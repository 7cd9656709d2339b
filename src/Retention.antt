-- ===== src/Retention.antt =====
-- src/retention.rs: candidates, rules, policies and the evaluation of a batch.
pub mod Candidate
pub mod Rule
pub mod Policy
pub mod Batch
