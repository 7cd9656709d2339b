-- ===== src/Tests/Retention.antt =====
-- Runs of src/retention.rs, with whole numbers for the floats: importance in thousandths.
use Prim.Native.Nat.{◌/◌}
use rig_memory_policy.Prelude.{
  ◌+◌, ltb, ◌==◌, if◌then◌else◌, ℕ, ◌*◌, ◌^◌, min, compare, [], ◌∷◌, List, ◌≡◌, ◌↔◌, ◌⊎◌, refl,
  some, arith, Perm, filter,
}
use rig_memory_policy.Text.{codes}
use rig_memory_policy.Metadata.{FrameKind, FrameMetadata}
use rig_memory_policy.Floats.{Floats, IsTotalCmp}
use rig_memory_policy.Sort.{sort_by}
use rig_memory_policy.Retention.Candidate
use rig_memory_policy.Retention.Candidate.{RetentionCandidate}
use rig_memory_policy.Retention.Rule
use rig_memory_policy.Retention.Rule.{RetentionDecision, RetentionRule}
use rig_memory_policy.Retention.Rule.Firing.{verdict, Fires, evaluate-Fires}
use rig_memory_policy.Retention.Policy
use rig_memory_policy.Retention.Policy.{RetentionPolicy}
use rig_memory_policy.Retention.Policy.Builder
use rig_memory_policy.Retention.Policy.FirstMatch.{Decides, evaluate_iff}
use rig_memory_policy.Scope.Containment.{Matching}
use rig_memory_policy.Example.{scoped_summaries}
use rig_memory_policy.Example.Summaries.{scoped_summaries_iff}
use rig_memory_policy.Retention.Batch.{evaluate_batch, step, by_recency}
use rig_memory_policy.Retention.Batch.Report.{RetentionReport, empty, push, bucket, everything}
use rig_memory_policy.Retention.Batch.Partition.{evaluate_batch-perm}
use rig_memory_policy.Retention.Batch.Agreement.{decided_as, evaluate_batch-evaluate}
use rig_memory_policy.Retention.Batch.Split.{Split, evaluate_batch-Split}
use rig_memory_policy.Retention.Batch.Meaning.{Means}
use rig_memory_policy.Retention.Batch.Uniqueness.{evaluate_batch_iff_Means}
use rig_memory_policy.Retention.Batch.Best.{KeepsBest}
use rig_memory_policy.Retention.Batch.Recent.{
  IsAsRecent, recent_or_dropped, evaluate_batch-keep_most_recent,
}
use rig_memory_policy.Retention.Batch.Salient.{
  IsAsSalient, salient_or_dropped, evaluate_batch-keep_top_by_salience,
}

abbrev pub whole_floats : Floats
whole_floats = record {
  Single = ℕ;
  Double = ℕ;
  one = 1000;
  clamp_unit = λ w. min w 1000;
  nothing = 0;
  of_usize = λ n. n;
  ratio = λ a b. if a == 0 then 0 else a * 1000 / b + 1;
  is_positive = λ a. ltb 0 a;
  partial_cmp = λ a b. some (compare a b);
  widen = λ w. w;
  of_u64 = λ n. n;
  div = λ a b. a / b;
  mul = λ a b. a * b / 1000;
  half_pow = λ n. 1000 / 2 ^ n;
  null = 0;
  unit = 1000;
  epsilon = 1;
  add = λ a b. a + b;
  exceeds_zero = λ a. ltb 0 a;
  total_cmp = compare;
}

pub whole_floats-IsTotalCmp : IsTotalCmp whole_floats
whole_floats-IsTotalCmp = record { flip = λ a b. ground arith; trans = λ a b c p q. ground arith }

abbrev pub summary : FrameMetadata
summary = record {
  schema_version = 1;
  kind = FrameKind.compaction_summary;
  conversation_id = codes "conv-1";
  chat_role = codes "assistant";
  dedup_key = codes "abc";
  scope = some (codes "tenant-a/project-1");
}

abbrev pub numbered : ℕ → RetentionCandidate whole_floats
unfolding Candidate.new Candidate.with_sequence
numbered n = Candidate.with_sequence (Candidate.new whole_floats summary) n

abbrev pub sample_batch : List (RetentionCandidate whole_floats)
sample_batch = numbered 1 ∷ numbered 3 ∷ numbered 2 ∷ []

-- `keep_most_recent(2)`, and the rest is dropped.
abbrev pub two_newest : RetentionPolicy
two_newest = record {
  rules = RetentionRule.keep_most_recent 2 ∷ [];
  fallback = RetentionDecision.drop;
}

-- `keep_recent(2)`, then `drop_written_before(200)`.
abbrev plain_policy : RetentionPolicy
plain_policy = record {
  rules = RetentionRule.keep_recent 2 ∷ RetentionRule.drop_written_before 200 ∷ [];
  fallback = RetentionDecision.defer;
}

built :
    Builder.keep_most_recent (Policy.default_decision Policy.new RetentionDecision.drop) 2
    ≡ two_newest
unfolding Builder.keep_most_recent Policy.default_decision Policy.new
built = refl

two_newest_kept : evaluate_batch two_newest sample_batch ≡ record {
  keep = numbered 3 ∷ numbered 2 ∷ [];
  drop = numbered 1 ∷ [];
  invalidate = [];
  defer = [];
}
unfolding evaluate_batch step sort_by by_recency push Candidate.new Candidate.with_sequence
two_newest_kept = refl

-- The later of two entries, marked as superseding the earlier one, is the one that is invalidated.
superseding_is_invalidated :
    evaluate_batch
      (record {
        rules = RetentionRule.invalidate_superseded ∷ [];
        fallback = RetentionDecision.keep;
      })
      (numbered 1 ∷ Candidate.with_supersedes (numbered 2) (codes "1") ∷ [])
    ≡ record {
      keep = numbered 1 ∷ [];
      drop = [];
      invalidate = Candidate.with_supersedes (numbered 2) (codes "1") ∷ [];
      defer = [];
    }
unfolding evaluate_batch step Rule.evaluate push Candidate.new Candidate.with_sequence
    Candidate.with_supersedes
superseding_is_invalidated = refl

evaluate-Fires_example :
    ((Rule.evaluate (RetentionRule.keep_recent 2) (numbered 3)
        ≡ verdict (RetentionRule.keep_recent 2))
      ↔ Fires (RetentionRule.keep_recent 2) (numbered 3))
    × ((Rule.evaluate (RetentionRule.keep_recent 2) (numbered 3)
          ≡ verdict (RetentionRule.keep_recent 2))
        ⊎ (Rule.evaluate (RetentionRule.keep_recent 2) (numbered 3) ≡ RetentionDecision.defer))
evaluate-Fires_example = evaluate-Fires (RetentionRule.keep_recent 2) (numbered 3)

evaluate_iff_example :
    (Policy.evaluate plain_policy (numbered 1) ≡ RetentionDecision.defer)
    ↔ Decides RetentionDecision.defer (numbered 1) plain_policy.rules RetentionDecision.defer
evaluate_iff_example = evaluate_iff plain_policy (numbered 1) RetentionDecision.defer

evaluate_batch-perm_example :
    Perm (everything (evaluate_batch two_newest sample_batch) []) sample_batch
evaluate_batch-perm_example = evaluate_batch-perm two_newest sample_batch

evaluate_batch-evaluate_example :
    Perm
      (bucket RetentionDecision.keep (evaluate_batch plain_policy sample_batch))
      (filter (decided_as plain_policy RetentionDecision.keep) sample_batch)
evaluate_batch-evaluate_example =
    evaluate_batch-evaluate plain_policy RetentionDecision.keep sample_batch (tt, (tt, tt))

-- `drop_written_before(200)`, `keep_most_recent(1)` and `keep_recent(2)`.
abbrev mixed_policy : RetentionPolicy
mixed_policy = record {
  rules =
      RetentionRule.drop_written_before 200
      ∷ RetentionRule.keep_most_recent 1
      ∷ RetentionRule.keep_recent 2
      ∷ [];
  fallback = RetentionDecision.defer;
}

abbrev mixed_batch : List (RetentionCandidate whole_floats)
unfolding Candidate.with_written_at_unix_ms
mixed_batch = Candidate.with_written_at_unix_ms (numbered 9) 100 ∷ sample_batch

evaluate_batch-Split_example :
    Split mixed_policy.rules mixed_policy.fallback mixed_batch empty
      (evaluate_batch mixed_policy mixed_batch)
evaluate_batch-Split_example = evaluate_batch-Split mixed_policy mixed_batch

evaluate_batch-keep_most_recent_example :
    KeepsBest IsAsRecent 2 sample_batch (evaluate_batch (recent_or_dropped 2) sample_batch)
evaluate_batch-keep_most_recent_example = evaluate_batch-keep_most_recent 2 sample_batch

scoped_summaries_iff_example :
    ((Policy.evaluate (scoped_summaries (codes "tenant-a")) (numbered 1) ≡ RetentionDecision.keep)
      ↔ (((numbered 1).metadata.kind ≡ FrameKind.compaction_summary)
          × Matching (some (codes "tenant-a")) (numbered 1).metadata.scope))
    × ((Policy.evaluate (scoped_summaries (codes "tenant-a")) (numbered 1) ≡ RetentionDecision.keep)
        ⊎ (Policy.evaluate (scoped_summaries (codes "tenant-a")) (numbered 1)
            ≡ RetentionDecision.drop))
scoped_summaries_iff_example = scoped_summaries_iff (codes "tenant-a") (numbered 1)

evaluate_batch-keep_top_by_salience_example :
    KeepsBest
      (IsAsSalient 1000 9000)
      1
      sample_batch
      (evaluate_batch (salient_or_dropped 1 1000 9000) sample_batch)
evaluate_batch-keep_top_by_salience_example =
    evaluate_batch-keep_top_by_salience 1 1000 9000 sample_batch whole_floats-IsTotalCmp

abbrev mixed_report : RetentionReport whole_floats
unfolding Candidate.with_written_at_unix_ms
mixed_report = record {
  keep = numbered 3 ∷ numbered 2 ∷ [];
  drop = Candidate.with_written_at_unix_ms (numbered 9) 100 ∷ [];
  invalidate = [];
  defer = numbered 1 ∷ [];
}

report_of_mixed : evaluate_batch mixed_policy mixed_batch ≡ mixed_report
unfolding evaluate_batch step sort_by by_recency push Candidate.new Candidate.with_sequence
    Rule.evaluate Candidate.with_written_at_unix_ms
report_of_mixed = refl

evaluate_batch_iff_Means_example :
    Means mixed_policy.fallback mixed_policy.rules mixed_batch mixed_report
    ↔ (evaluate_batch mixed_policy mixed_batch ≡ mixed_report)
evaluate_batch_iff_Means_example =
    evaluate_batch_iff_Means mixed_policy mixed_batch mixed_report whole_floats-IsTotalCmp

rules_in_order :
    Policy.rules (Builder.keep_most_recent (Builder.keep_summaries Policy.new) 2)
    ≡ RetentionRule.keep_frame_kind FrameKind.compaction_summary
      ∷ RetentionRule.keep_most_recent 2
      ∷ []
unfolding Policy.rules Policy.new Policy.rule Builder.keep_summaries Builder.keep_most_recent
rules_in_order = refl
