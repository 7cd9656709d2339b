-- ===== src/Retention/Batch/Recent.antt =====
-- The policy `new().keep_most_recent(count).default_decision(Drop)` over a batch.
use rig_memory_policy.Prelude.{ℕ, suc, ◌<◌, ◌≤◌, false, List, ◌≡◌, ◌⊎◌, arith, Option, none, some}
use rig_memory_policy.Floats.{Floats}
use rig_memory_policy.Sort.Laws.{Before}
use rig_memory_policy.Sort.Orders.{compare_option}
use rig_memory_policy.Sort.{is_gt, then_with}
use rig_memory_policy.Retention.Candidate.{RetentionCandidate}
use rig_memory_policy.Retention.Rule.{RetentionDecision, RetentionRule}
use rig_memory_policy.Retention.Policy
use rig_memory_policy.Retention.Policy.{RetentionPolicy}
use rig_memory_policy.Retention.Policy.Builder
use rig_memory_policy.Retention.Batch.Report.{empty}
use rig_memory_policy.Retention.Batch.{by_recency, evaluate_batch}
use rig_memory_policy.Retention.Batch.Best.{KeepsBest, evaluate_batch-KeepsBest}
use rig_memory_policy.Retention.Batch.Ranking.{step-keep_most_recent}

-- A number that is absent counts less than any that is there.
abbrev pub height : Option ℕ → ℕ
height none = 0
height (some n) = suc n

unfoldable pub recent_or_dropped : ℕ → RetentionPolicy
unfolding Policy.new Builder.keep_most_recent Policy.default_decision
recent_or_dropped count =
    Policy.default_decision (Builder.keep_most_recent Policy.new count) RetentionDecision.drop

by_option :
    (x y v w : Option ℕ)
    → is_gt (then_with (compare_option y x) (compare_option w v)) ≡ false
    → (height y < height x) ⊎ ((height y ≡ height x) × (height w ≤ height v))
by_option x y v w e = ground arith

module _ {f : Floats} where
  -- `a` has the higher sequence number, or the same one and no lower write time.
  abbrev pub IsAsRecent : RetentionCandidate f → RetentionCandidate f → Type 0
  IsAsRecent a b =
      (height b.sequence < height a.sequence)
      ⊎ ((height b.sequence ≡ height a.sequence)
          × (height b.written_at_unix_ms ≤ height a.written_at_unix_ms))

  Before-IsAsRecent : (a b : RetentionCandidate f) → Before by_recency a b → IsAsRecent a b
  unfolding by_recency
  Before-IsAsRecent a b h =
      by_option a.sequence b.sequence a.written_at_unix_ms b.written_at_unix_ms h

  -- The policy that keeps the most recent candidates and drops by default keeps `count` of them, or
  -- all if there are fewer, and drops the others; each kept one has a higher sequence number than
  -- each dropped one, or the same and no earlier write time, where a missing number counts less than
  -- any.
  pub evaluate_batch-keep_most_recent :
      (count : ℕ) (candidates : List (RetentionCandidate f))
      → KeepsBest IsAsRecent count candidates (evaluate_batch (recent_or_dropped count) candidates)
  unfolding recent_or_dropped
  evaluate_batch-keep_most_recent count candidates =
      evaluate_batch-KeepsBest IsAsRecent by_recency Before-IsAsRecent
        (RetentionRule.keep_most_recent count) count (step-keep_most_recent count empty) candidates
