-- ===== src/Lib.antt =====
-- Verification of rig-memory-policy: backend-neutral policies for the memory of agents.
--
-- The crate decides what a memory backend keeps. A backend describes each entry as a
-- `RetentionCandidate` (src/retention.rs), whose metadata is a `FrameMetadata` (src/metadata.rs) with
-- an optional scope (src/scope.rs). A `RetentionPolicy` is a list of rules with a default decision;
-- it decides one candidate by the first rule that does not defer, and a batch by running each rule
-- over the candidates that no earlier rule took. `compute_key` and `DedupSet` (src/dedup.rs) tell
-- repeated entries apart by content, `SimHash` near repetitions, and an `ExactHashResolver`
-- (src/reconcile.rs) says whether an incoming text is to be added. An `InMemoryStore` (src/inmem.rs)
-- keeps episodes and retrieves them by the tokens that they share with a query;
-- `reciprocal_rank_fusion` (src/fusion.rs) merges ranked lists. The traits of src/store.rs describe a
-- durable backend, and src/conformance.rs runs one through its calls. Failing calls of the crate's
-- own types return a `PolicyError` (src/error.rs).
--
-- Files, with the code they model:
--   Retention/Candidate    `RetentionCandidate`, its builder methods and `salience`
--   Retention/Rule         `RetentionDecision`, `RetentionRule::evaluate`; Firing: when a rule fires
--   Retention/Policy       `RetentionPolicy`, `evaluate`; Builder: one method per rule;
--                          FirstMatch: the relation that `evaluate` implements
--   Retention/Batch        `evaluate_batch`; Report: `RetentionReport`; Partition: nothing is lost;
--                          Agreement: policies without ranking rules; Steps and Ranking: one rule
--                          over the pool; Meaning and Uniqueness: the one report that a
--                          whole policy is to make of a batch; Stages, Reordering and
--                          Again: a policy in two stages, a batch in another order, and
--                          a policy over what it has kept (Kept); Split, Best, Recent and
--                          Salient: what is kept, and how the rest is decided
--   Scope                  `Scope`, `normalize_scope`, `scope_path`, `scope_matches`; Normal,
--                          Containment and Isolation: their laws in terms of paths;
--                          Paths: what a `Scope` stands for
--   Metadata               `FrameKind`, `FrameMetadata`; Map: `into_map` and `try_from_map`;
--                          RoundTrip: the one reads what the other wrote; Lookup and Decoding:
--                          which maps are decoded, and to what
--   Errors                 the type of src/error.rs
--   Dedup/Key              `compute_key`; Collisions: which entries share a key
--   Dedup/Hex              `hex_encode`, `hex_decode`; Pairs and RoundTrip: the two are inverse
--   Dedup/Seen             `DedupSet` with its lock; Laws and Snapshot: its calls one by one;
--                          Reload: a set that is written out and read back;
--                          FiniteSet and Calls: the finite set that it stands for, and any
--                          sequence of calls
--   Dedup/Gate             the calls `contains` and `insert` of several callers that share the set, as
--                          examples/retention_policy.rs makes them, in any interleaving: Turns,
--                          Restart, Entries, Races, Progress and Calls
--   Dedup/SimHash          `SimHash`; Columns, Majority, Reorder and Distance: what the bits say;
--                          Locality: texts that share most of their tokens
--   Reconcile              `ReconcileOp`, `ExactHashResolver`; History: its answers after any
--                          observations
--   InMem                  `InMemoryStore`; Keys, Lookup, History and Retrieval: its storage keys,
--                          what `get` finds after one append and after many, and what
--                          `retrieve_similar` selects; Contents and Calls: any sequence of calls
--   Fusion                 `reciprocal_rank_fusion`; Table, Ranking and Scores: its loop variables
--                          as one table, the result as that table in order, and its sums
--   Store                  the traits of src/store.rs, and `verify_backend` of src/conformance.rs;
--                          Contract: how the run ends over a backend that keeps to what
--                          the traits ask; Counting: the store of the
--                          tests in src/store.rs and `persist_all`; Persisting: what it does there
--   Example                the program examples/retention_policy.rs; Summaries: what its policy
--                          keeps
--   Pipeline               the first test of tests/policy_pipeline.rs, as a run on any texts;
--                          Passing: what it observes
--   Bits                   `|`, `^` and `count_ones` on binary digits
--   Text, Sort, HashSet    what the crate uses of the Rust standard library's `str`, `sort_by` and
--                          `HashSet`, with the laws that it documents
--   Floats                 `f32` and `f64` as an abstract record of operations
--   Prelude                names, lists and tests shared by all
--   Tests                  runs at concrete inputs; Unit: the unit tests of the source, as Boolean
--                          functions that the model answers by `true`
--
-- State is passed explicitly: a call on a `DedupSet` takes the set and returns it with the result.
-- The poison flag of its lock is a field, so that the error path of each call is part of the model.
-- A text is the list of its Unicode scalar values; machine integers are natural
-- numbers: `saturating_sub` is their subtraction, `saturating_add` is written out with the bound of
-- `u64`, and an `i32` column of `SimHash` is its value modulo 2^32, wrapping as a release build does.
-- No loop has fuel: all are structural on the rules, the candidates, the bytes, the columns or the
-- texts.
--
-- Parameters: the operations of floats (record `Floats`; a theorem that needs `total_cmp` to be a
-- total order says so by `IsTotalCmp`, and one about scores by `IsRatio`), the Unicode tables for
-- letters and case (record `Unicode`), the deserialiser that serde derives (record `Serde`, with
-- `IsDerived` and `IsStrict`), and BLAKE3 (record `Blake3`, with `IsBlake3`: hashing in
-- pieces is hashing the concatenation, and a hash has 32 bytes).
--
-- Callers in Dedup/Gate are steps of a relation: each call of `contains` or `insert` is one step,
-- since it holds the lock from its start to its end, and any caller that is not done may go next.
--
-- Not modelled: serialisation of the types, which serde derives; the suspension of futures, since
-- each is awaited at once; the values of the hash, so that the tests about far apart fingerprints
-- run with a stand-in; whether a float is finite; src/lib.rs, which only re-exports names.
pub mod Bits
pub mod Dedup
pub mod Errors
pub mod Example
pub mod Floats
pub mod Fusion
pub mod HashSet
pub mod InMem
pub mod Metadata
pub mod Pipeline
pub mod Prelude
pub mod Reconcile
pub mod Retention
pub mod Scope
pub mod Sort
pub mod Store
mod Tests
pub mod Text
