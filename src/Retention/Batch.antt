-- ===== src/Retention/Batch.antt =====
-- src/retention.rs, `evaluate_batch`: the rules run over a shrinking pool of candidates, and each
-- candidate ends in one list of the report.
pub mod Report
pub mod Partition
pub mod Agreement
pub mod Ranking
pub mod Steps
pub mod Split
pub mod Meaning
pub mod Uniqueness
pub mod Stages
pub mod Reordering
pub mod Kept
pub mod Again
pub mod Best
pub mod Recent
pub mod Salient
use rig_memory_policy.Prelude.{
  ℕ, suc, ltb, Bool, true, false, List, [], ◌∷◌, ◌++◌, Option, none, some, Ordering, is_nil,
  if◌then◌else◌,
}
use rig_memory_policy.Sort.{sort_by, then_with}
use rig_memory_policy.Sort.Orders.{compare_option}
use rig_memory_policy.Floats.{Floats}
use rig_memory_policy.Retention.Candidate.{RetentionCandidate, salience}
use rig_memory_policy.Retention.Rule
use rig_memory_policy.Retention.Rule.{RetentionDecision, RetentionRule}
use rig_memory_policy.Retention.Policy.{RetentionPolicy}
use rig_memory_policy.Retention.Batch.Report.{RetentionReport, empty, push}

-- The pool between two rules: the report so far, and the candidates that are left.
abbrev pub Pool : Floats → Type 0
Pool f = RetentionReport f × List (RetentionCandidate f)

module _ {f : Floats} where
  -- The comparison of `KeepMostRecent`: descending by sequence, then by write time.
  unfoldable pub by_recency : RetentionCandidate f → RetentionCandidate f → Ordering
  by_recency a b =
      then_with (compare_option b.sequence a.sequence)
        (compare_option b.written_at_unix_ms a.written_at_unix_ms)

  -- The comparison of `KeepTopBySalience`: descending by salience.
  unfoldable pub by_salience : ℕ → ℕ → RetentionCandidate f → RetentionCandidate f → Ordering
  by_salience as_of_unix_ms half_life_ms a b =
      f.total_cmp (salience b as_of_unix_ms half_life_ms) (salience a as_of_unix_ms half_life_ms)

  -- The loop of the two ranking rules over the sorted batch: `kept` counts up to `count`.
  unfoldable pub keep_first :
      ℕ → List (RetentionCandidate f) → ℕ → RetentionReport f → List (RetentionCandidate f) → Pool f
  keep_first count [] kept report next = (report, next)
  keep_first count (c ∷ batch) kept report next = elim (ltb kept count) [
    | true ↦ keep_first count batch (suc kept) (push RetentionDecision.keep c report) next
    | false ↦ keep_first count batch kept report (next ++ c ∷ [])
  ]

  -- The `match` on one candidate's decision: three lists of the report, or the next batch.
  place :
      RetentionDecision
      → RetentionCandidate f
      → RetentionReport f
      → List (RetentionCandidate f)
      → Pool f
  place RetentionDecision.defer c report next = (report, next ++ c ∷ [])
  place d c report next = (push d c report, next)

  -- The loop of every other rule.
  pub route :
      RetentionRule
      → List (RetentionCandidate f)
      → RetentionReport f
      → List (RetentionCandidate f)
      → Pool f
  unfolding place
  route r [] report next = (report, next)
  route r (c ∷ batch) report next =
      let placed = place (Rule.evaluate r c) c report next in route r batch placed.0 placed.1

  -- The `match` on one rule.
  unfoldable pub step : RetentionRule → RetentionReport f → List (RetentionCandidate f) → Pool f
  unfolding keep_first route
  step (RetentionRule.keep_most_recent count) report batch =
      keep_first count (sort_by by_recency batch) 0 report []
  step (RetentionRule.keep_top_by_salience count half_life_ms as_of_unix_ms) report batch =
      keep_first count (sort_by (by_salience as_of_unix_ms half_life_ms) batch) 0 report []
  step r report batch = route r batch report []

  -- The loop over the rules, which ends early when no candidate is left.
  unfoldable pub run : List RetentionRule → RetentionReport f → List (RetentionCandidate f) → Pool f
  run [] report batch = (report, batch)
  run (r ∷ rs) report batch =
      let stepped = step r report batch in
      if is_nil batch then (report, batch) else run rs stepped.0 stepped.1

  -- The last loop: what is left goes by the default decision.
  unfoldable pub flush :
      RetentionDecision → List (RetentionCandidate f) → RetentionReport f → RetentionReport f
  flush d [] report = report
  flush d (c ∷ batch) report = flush d batch (push d c report)

  -- `RetentionPolicy::evaluate_batch`.
  unfoldable pub evaluate_batch : RetentionPolicy → List (RetentionCandidate f) → RetentionReport f
  unfolding run flush
  evaluate_batch p candidates =
      let done = run p.rules empty candidates in flush p.fallback done.1 done.0
