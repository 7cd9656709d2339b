-- ===== src/Tests/Unit/Batches.antt =====
-- src/retention.rs, the tests of `evaluate_batch` and of `salience`, with importance in thousandths.
use rig_memory_policy.Prelude.{
  ℕ, ◌==◌, ltb, Bool, true, false, ◌&&◌, [], ◌∷◌, ◌≡◌, refl, Option, none, some, length, any,
}
use rig_memory_policy.Sort.{sort_by}
use rig_memory_policy.Retention.Candidate
use rig_memory_policy.Retention.Candidate.{RetentionCandidate, salience}
use rig_memory_policy.Retention.Rule
use rig_memory_policy.Retention.Rule.{RetentionDecision}
use rig_memory_policy.Retention.Policy
use rig_memory_policy.Retention.Policy.{RetentionPolicy}
use rig_memory_policy.Retention.Policy.Builder
use rig_memory_policy.Retention.Batch.{evaluate_batch, run, flush, step, by_recency, by_salience}
use rig_memory_policy.Retention.Batch.Report.{push}
use rig_memory_policy.Tests.Retention.{whole_floats}
use rig_memory_policy.Tests.Unit.Policies.{message}

-- The sequence number is there and is this one.
abbrev is_number : ℕ → Option ℕ → Bool
is_number n none = false
is_number n (some m) = m == n

abbrev evaluate_batch_processes_keep_most_recent : Bool
evaluate_batch_processes_keep_most_recent =
    let policy =
      Policy.default_decision (Builder.keep_most_recent Policy.new 2) RetentionDecision.drop in
    let report = evaluate_batch policy (
      Candidate.with_sequence message 1
      ∷ Candidate.with_sequence message 3
      ∷ Candidate.with_sequence message 2
      ∷ []) in
    (length report.keep == 2)
    && (length report.drop == 1)
    && (length report.defer == 0)
    && any (λ c. is_number 3 c.sequence) report.keep
    && any (λ c. is_number 2 c.sequence) report.keep

abbrev evaluate_batch_routes_invalidations_into_their_own_bucket : Bool
evaluate_batch_routes_invalidations_into_their_own_bucket =
    let policy =
      Policy.default_decision (Builder.invalidate_expired Policy.new 1000) RetentionDecision.keep in
    let report = evaluate_batch policy (
      Candidate.with_valid_to_unix_ms message 2000
      ∷ Candidate.with_valid_to_unix_ms message 500
      ∷ []) in
    (length report.keep == 1)
    && (length report.invalidate == 1)
    && (length report.drop == 0)
    && (length report.defer == 0)

abbrev weighted : ℕ → ℕ → RetentionCandidate whole_floats
weighted written importance =
    Candidate.with_importance (Candidate.with_written_at_unix_ms message written) importance

abbrev salience_decays_with_age_and_scales_with_importance : Bool
salience_decays_with_age_and_scales_with_importance =
    ltb (salience (weighted 5000 1000) 10000 1000) (salience (weighted 9000 1000) 10000 1000)
    && (salience (weighted 9000 1000) 10000 1000 == 500)
    && (salience (weighted 0 250) 10000 0 == 250)

abbrev keep_top_by_salience_prefers_recent_important_candidates : Bool
keep_top_by_salience_prefers_recent_important_candidates =
    let policy =
      Policy.default_decision (Builder.keep_top_by_salience Policy.new 2 10000 100000)
        RetentionDecision.drop in
    let report =
      evaluate_batch policy (weighted 50000 1000 ∷ weighted 99000 200 ∷ weighted 99000 900 ∷ []) in
    (length report.keep == 2)
    && (length report.drop == 1)
    && any (λ c. is_number 900 c.importance) report.keep
    && any (λ c. is_number 200 c.importance) report.keep
    && any (λ c. is_number 1000 c.importance) report.drop

batches_pass :
    (evaluate_batch_processes_keep_most_recent
      && evaluate_batch_routes_invalidations_into_their_own_bucket
      && salience_decays_with_age_and_scales_with_importance
      && keep_top_by_salience_prefers_recent_important_candidates)
    ≡ true
unfolding evaluate_batch run flush step by_recency by_salience sort_by push salience Policy.new
    Policy.rule Policy.default_decision Rule.evaluate Builder.keep_most_recent
    Builder.invalidate_expired Builder.keep_top_by_salience Candidate.new Candidate.with_sequence
    Candidate.with_valid_to_unix_ms Candidate.with_written_at_unix_ms Candidate.with_importance
batches_pass = refl
