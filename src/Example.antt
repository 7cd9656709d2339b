-- ===== src/Example.antt =====
-- examples/retention_policy.rs: the calls of a client, from the key of an entry to its decision.
pub mod Summaries
use rig_memory_policy.Prelude.{Bool, true, false, ◌≡◌, some}
use rig_memory_policy.Text.{Text, codes}
use rig_memory_policy.Metadata.{FrameKind, FrameMetadata, kind_as_str}
use rig_memory_policy.Scope
use rig_memory_policy.Scope.{Scope}
use rig_memory_policy.Floats.{Floats}
use rig_memory_policy.Errors.{PolicyError, Result, ok, err}
use rig_memory_policy.Dedup.Key.{Blake3, compute_key}
use rig_memory_policy.Dedup.Hex.{DedupKey, hex_encode_key}
use rig_memory_policy.Dedup.Seen
use rig_memory_policy.Dedup.Seen.{DedupSet}
use rig_memory_policy.Retention.Candidate
use rig_memory_policy.Retention.Rule.{RetentionDecision, decision_eq}
use rig_memory_policy.Retention.Policy
use rig_memory_policy.Retention.Policy.{RetentionPolicy}
use rig_memory_policy.Retention.Policy.Builder

-- `Scope::new("tenant-a/support")`, and the key of the text in it.
unfoldable pub support : Scope
unfolding Scope.new
support = Scope.new (codes "tenant-a/support")

unfoldable pub summary_key : Blake3 → DedupKey
unfolding support compute_key kind_as_str
summary_key b =
    compute_key b (kind_as_str FrameKind.compaction_summary) (codes "conv-1") (codes "assistant")
      (some (Scope.as_str support)) (codes "support summary for tenant-a")

-- The metadata of the entry.
unfoldable pub summary_metadata : DedupKey → FrameMetadata
unfolding support hex_encode_key
summary_metadata key = record {
  schema_version = 1;
  kind = FrameKind.compaction_summary;
  conversation_id = codes "conv-1";
  chat_role = codes "assistant";
  dedup_key = hex_encode_key key;
  scope = some (Scope.as_str support);
}

-- The policy, for the scope that it is built with.
unfoldable pub scoped_summaries : Text → RetentionPolicy
unfolding Policy.new Policy.default_decision Builder.drop_outside_scope Builder.keep_summaries
    Scope.new
scoped_summaries required =
    Policy.default_decision
      (Builder.keep_summaries (Builder.drop_outside_scope Policy.new (some (Scope.new required))))
      RetentionDecision.drop

module _ (f : Floats) (b : Blake3) where
  -- The candidate and its decision.
  unfoldable pub decision : RetentionDecision
  unfolding summary_metadata summary_key scoped_summaries Candidate.new Candidate.with_sequence
      Policy.evaluate
  decision =
      Policy.evaluate (scoped_summaries (codes "tenant-a/support"))
        (Candidate.with_sequence (Candidate.new f (summary_metadata (summary_key b))) 7)

  -- `run`, with the calls of the set on `seen`.
  after_contains : DedupSet → Result Bool → Result Bool
  after_contains seen (err e) = err e
  after_contains seen (ok true) = ok true
  after_contains seen (ok false) = elim (Seen.insert seen (summary_key b)).1 [
    | err e ↦ err e
    | ok _ ↦ ok (decision_eq decision RetentionDecision.keep)
  ]

  unfoldable pub run : Result Bool
  unfolding after_contains decision Seen.new Seen.contains Seen.insert
  run = after_contains Seen.new (Seen.contains Seen.new (summary_key b))

  -- `main`: whether the exit code is that of success.
  unfoldable pub main : Bool
  unfolding run
  main = elim run [ ok answer ↦ answer | err _ ↦ false ]
