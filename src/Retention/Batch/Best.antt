-- ===== src/Retention/Batch/Best.antt =====
-- A policy with one ranking rule that drops what the rule does not keep.
use mathlib.Core.List.Perm
use rig_memory_policy.Prelude.{
  ℕ, min, List, [], ◌∷◌, ◌++◌, ◌≡◌, refl, ◌∙◌, arith, Perm, Ordering, length, All, All-map,
  append_assoc, append-nil,
}
use rig_memory_policy.Floats.{Floats}
use rig_memory_policy.Sort.Laws.{Before}
use rig_memory_policy.Sort.Selection.{IsSelection}
use rig_memory_policy.Retention.Candidate.{RetentionCandidate}
use rig_memory_policy.Retention.Rule.{RetentionDecision, RetentionRule}
use rig_memory_policy.Retention.Batch.Report.{RetentionReport, empty, push}
use rig_memory_policy.Retention.Batch.{run, flush, step, evaluate_batch}
use rig_memory_policy.Retention.Batch.Agreement.{policy}

module _ {f : Floats} where
  flush-drop :
      (batch : List (RetentionCandidate f)) (r : RetentionReport f)
      → flush RetentionDecision.drop batch r ≡ record r { drop = r.drop ++ batch }
  unfolding flush push
  flush-drop [] r = rw (append-nil r.drop) refl
  flush-drop (c ∷ batch) r =
      flush-drop batch (push RetentionDecision.drop c r) ∙ rw (append_assoc r.drop) refl

  -- `report` keeps `count` of the candidates, or all if there are fewer, and drops the rest; each
  -- kept one is as good as each dropped one.
  pub record KeepsBest (IsAsGood : RetentionCandidate f → RetentionCandidate f → Type 0) (count : ℕ)
      (candidates : List (RetentionCandidate f)) (report : RetentionReport f) : Type 0 where
    pub none_lost : Perm (report.keep ++ report.drop) candidates
    pub none_else : (report.invalidate ≡ []) × (report.defer ≡ [])
    pub size : length report.keep ≡ min count (length candidates)
    pub best : All (λ a. All (IsAsGood a) report.drop) report.keep

  module _ (IsAsGood : RetentionCandidate f → RetentionCandidate f → Type 0)
      (cmp : RetentionCandidate f → RetentionCandidate f → Ordering)
      (good : (a b : RetentionCandidate f) → Before cmp a b → IsAsGood a b) (rule : RetentionRule)
      (count : ℕ) where
    KeepsBest-of_selection :
        (candidates top rest : List (RetentionCandidate f))
        → IsSelection cmp count candidates top rest
        → KeepsBest IsAsGood count candidates (record empty { keep = top; drop = rest })
    KeepsBest-of_selection candidates top rest s = record {
      none_lost = s.perm;
      none_else = (refl, refl);
      size = s.size;
      best = All-map _ _ (λ a h. All-map _ _ (good a) rest h) top s.best;
    }

    -- A rule that selects by the comparison keeps the best in this sense.
    pub evaluate_batch-KeepsBest :
        ((batch : List (RetentionCandidate f))
          → (top : List (RetentionCandidate f)) × (rest : List (RetentionCandidate f)) × (step rule
                empty batch
              ≡ (record empty { keep = top }, rest))
            × IsSelection cmp count batch top rest)
        → (candidates : List (RetentionCandidate f))
        → KeepsBest IsAsGood count candidates
            (evaluate_batch (policy (rule ∷ []) RetentionDecision.drop) candidates)
    unfolding evaluate_batch run flush
    evaluate_batch-KeepsBest select [] = record {
      none_lost = Perm.rfl;
      none_else = (refl, refl);
      size = omega arith;
      best = tt;
    }
    evaluate_batch-KeepsBest select (c ∷ candidates) =
        let (top, rest, e, s) = select (c ∷ candidates) in
        rw (e, flush-drop rest (record empty { keep = top }))
          (KeepsBest-of_selection (c ∷ candidates) top rest s)
