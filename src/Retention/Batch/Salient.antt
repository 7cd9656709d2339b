-- ===== src/Retention/Batch/Salient.antt =====
-- The policy `new().keep_top_by_salience(count, half_life_ms, as_of_unix_ms).default_decision(Drop)`
-- over a batch.
use rig_memory_policy.Prelude.{ℕ, false, List, ◌≡◌}
use rig_memory_policy.Floats.{Floats, IsTotalCmp}
use rig_memory_policy.Sort.Laws.{Before}
use rig_memory_policy.Sort.{is_gt}
use rig_memory_policy.Retention.Candidate.{RetentionCandidate, salience}
use rig_memory_policy.Retention.Rule.{RetentionDecision, RetentionRule}
use rig_memory_policy.Retention.Policy
use rig_memory_policy.Retention.Policy.{RetentionPolicy}
use rig_memory_policy.Retention.Policy.Builder
use rig_memory_policy.Retention.Batch.Report.{empty}
use rig_memory_policy.Retention.Batch.{by_salience, evaluate_batch}
use rig_memory_policy.Retention.Batch.Best.{KeepsBest, evaluate_batch-KeepsBest}
use rig_memory_policy.Retention.Batch.Ranking.{step-keep_top_by_salience}

unfoldable pub salient_or_dropped : ℕ → ℕ → ℕ → RetentionPolicy
unfolding Policy.new Builder.keep_top_by_salience Policy.default_decision
salient_or_dropped count half_life_ms as_of_unix_ms =
    Policy.default_decision
      (Builder.keep_top_by_salience Policy.new count half_life_ms as_of_unix_ms)
      RetentionDecision.drop

module _ {f : Floats} where
  -- The salience of `b` is not above that of `a`.
  abbrev pub IsAsSalient : ℕ → ℕ → RetentionCandidate f → RetentionCandidate f → Type 0
  IsAsSalient half_life as_of a b =
      is_gt (f.total_cmp (salience b as_of half_life) (salience a as_of half_life)) ≡ false

  Before-IsAsSalient :
      (half_life as_of : ℕ) (a b : RetentionCandidate f)
      → Before (by_salience as_of half_life) a b
      → IsAsSalient half_life as_of a b
  unfolding by_salience
  Before-IsAsSalient half_life as_of a b h = h

  -- If `total_cmp` is a total order, the policy that keeps the top by salience and drops by default
  -- keeps `count` candidates, or all if there are fewer, and drops the others; no dropped one has a
  -- higher salience than a kept one.
  pub evaluate_batch-keep_top_by_salience :
      (count half_life as_of : ℕ) (candidates : List (RetentionCandidate f))
      → IsTotalCmp f
      → KeepsBest
          (IsAsSalient half_life as_of)
          count
          candidates
          (evaluate_batch (salient_or_dropped count half_life as_of) candidates)
  unfolding salient_or_dropped
  evaluate_batch-keep_top_by_salience count half_life as_of candidates t =
      evaluate_batch-KeepsBest (IsAsSalient half_life as_of) (by_salience as_of half_life)
        (Before-IsAsSalient half_life as_of)
        (RetentionRule.keep_top_by_salience count half_life as_of) count
        (λ batch. step-keep_top_by_salience count half_life as_of empty batch t) candidates
