-- ===== src/Tests/Reordering.antt =====
-- A batch in two orders, which the sequence numbers tell apart, a policy in two stages, and a policy over
-- what it has kept.
use mathlib.Core.List.{Mem}
use mathlib.Core.List.Perm
use rig_memory_policy.Prelude.{[], ◌∷◌, ◌++◌, List, ◌≡◌, refl, Ordering, Perm, All}
use rig_memory_policy.Prelude.Members.{mem-of_All}
use rig_memory_policy.Sort.Unique.{IsTieFree}
use rig_memory_policy.Retention.Candidate
use rig_memory_policy.Retention.Candidate.{RetentionCandidate}
use rig_memory_policy.Retention.Rule.{RetentionDecision, RetentionRule}
use rig_memory_policy.Retention.Batch.{evaluate_batch, by_recency}
use rig_memory_policy.Retention.Batch.Report.{bucket}
use rig_memory_policy.Retention.Batch.Agreement.{policy}
use rig_memory_policy.Retention.Batch.Meaning.{join}
use rig_memory_policy.Retention.Batch.Stages.{evaluate_batch-append}
use rig_memory_policy.Retention.Batch.Again.{evaluate_batch-again}
use rig_memory_policy.Retention.Batch.Reordering.{evaluate_batch-reordered}
use rig_memory_policy.Tests.Retention.{
  whole_floats, whole_floats-IsTotalCmp, numbered, sample_batch, two_newest,
}

-- Only equal candidates have equal keys.
abbrev Apart : RetentionCandidate whole_floats → RetentionCandidate whole_floats → Type 0
Apart a b = by_recency a b ≡ Ordering.eq → a ≡ b

candidate-set : IsSet (RetentionCandidate whole_floats)
candidate-set = hlevel

Apart-prop : (a b : RetentionCandidate whole_floats) → IsProp (Apart a b)
Apart-prop a b = hlevel candidate-set

row :
    (c : RetentionCandidate whole_floats)
    → All (Apart c) sample_batch
    → (b : RetentionCandidate whole_floats) → Mem b sample_batch
    → Apart c b
row c h = mem-of_All (Apart c) (Apart-prop c) sample_batch h

abbrev Alone : RetentionCandidate whole_floats → Type 0
Alone a = (b : RetentionCandidate whole_floats) → Mem b sample_batch → Apart a b

Alone-prop : (a : RetentionCandidate whole_floats) → IsProp (Alone a)
Alone-prop a = hlevel (Apart-prop a)

all-Alone : All Alone sample_batch
unfolding by_recency Candidate.new Candidate.with_sequence
all-Alone = (
  row (numbered 1) (λ e. refl, (λ e. cc, (λ e. cc, tt))),
  (
    row (numbered 3) (λ e. cc, (λ e. refl, (λ e. cc, tt))),
    (row (numbered 2) (λ e. cc, (λ e. cc, (λ e. refl, tt))), tt),
  ),
)

sample_batch-IsTieFree : IsTieFree by_recency sample_batch
sample_batch-IsTieFree a b ma mb = mem-of_All Alone Alone-prop sample_batch all-Alone a ma b mb

abbrev other_order : List (RetentionCandidate whole_floats)
other_order = numbered 3 ∷ numbered 1 ∷ numbered 2 ∷ []

evaluate_batch-reordered_example :
    Perm
      (bucket RetentionDecision.keep (evaluate_batch two_newest sample_batch))
      (bucket RetentionDecision.keep (evaluate_batch two_newest other_order))
evaluate_batch-reordered_example =
    evaluate_batch-reordered two_newest sample_batch other_order RetentionDecision.keep
      whole_floats-IsTotalCmp (λ ranking. sample_batch-IsTieFree, tt)
      (Perm.swap (numbered 3) (numbered 1) (numbered 2 ∷ []))

evaluate_batch-again_example :
    Perm
      (bucket RetentionDecision.keep
        (evaluate_batch two_newest (evaluate_batch two_newest sample_batch).keep))
      (evaluate_batch two_newest sample_batch).keep
evaluate_batch-again_example =
    evaluate_batch-again two_newest sample_batch RetentionDecision.keep whole_floats-IsTotalCmp
      (λ ranking. sample_batch-IsTieFree, tt)

abbrev two_newest_rules : List RetentionRule
two_newest_rules = RetentionRule.keep_most_recent 2 ∷ []

abbrev first_kept : List RetentionRule
first_kept = RetentionRule.keep_recent 1 ∷ []

evaluate_batch-append_example :
    evaluate_batch (policy (two_newest_rules ++ first_kept) RetentionDecision.drop) sample_batch
    ≡ join
        (record (evaluate_batch (policy two_newest_rules RetentionDecision.defer) sample_batch) {
          defer = [];
        })
        (evaluate_batch
          (policy first_kept RetentionDecision.drop)
          (evaluate_batch (policy two_newest_rules RetentionDecision.defer) sample_batch).defer)
evaluate_batch-append_example =
    evaluate_batch-append two_newest_rules first_kept RetentionDecision.drop sample_batch
