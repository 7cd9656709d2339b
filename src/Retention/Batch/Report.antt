-- ===== src/Retention/Batch/Report.antt =====
-- src/retention.rs, `RetentionReport`, and what it holds altogether.
use mathlib.Core.List.Perm
use rig_memory_policy.Prelude.{List, [], ◌∷◌, ◌++◌, Perm, perm_over, perm_slot}
use rig_memory_policy.Floats.{Floats}
use rig_memory_policy.Retention.Candidate.{RetentionCandidate}
use rig_memory_policy.Retention.Rule.{RetentionDecision}

-- `struct RetentionReport`.
pub record RetentionReport (f : Floats) : Type 0 where
  pub keep : List (RetentionCandidate f)
  pub drop : List (RetentionCandidate f)
  pub invalidate : List (RetentionCandidate f)
  pub defer : List (RetentionCandidate f)

module _ {f : Floats} where
  -- The derived default.
  abbrev pub empty : RetentionReport f
  empty = record { keep = []; drop = []; invalidate = []; defer = [] }

  -- `report.keep.push(candidate)`, and so for the other lists.
  unfoldable pub push :
      RetentionDecision → RetentionCandidate f → RetentionReport f → RetentionReport f
  push RetentionDecision.keep c r = record r { keep = r.keep ++ c ∷ [] }
  push RetentionDecision.drop c r = record r { drop = r.drop ++ c ∷ [] }
  push RetentionDecision.invalidate c r = record r { invalidate = r.invalidate ++ c ∷ [] }
  push RetentionDecision.defer c r = record r { defer = r.defer ++ c ∷ [] }

  -- The list of a decision.
  abbrev pub bucket : RetentionDecision → RetentionReport f → List (RetentionCandidate f)
  bucket RetentionDecision.keep r = r.keep
  bucket RetentionDecision.drop r = r.drop
  bucket RetentionDecision.invalidate r = r.invalidate
  bucket RetentionDecision.defer r = r.defer

  -- All candidates of a report, and those that are still in the pool.
  abbrev pub everything :
      RetentionReport f → List (RetentionCandidate f) → List (RetentionCandidate f)
  everything r pool = r.keep ++ (r.drop ++ (r.invalidate ++ (r.defer ++ pool)))

  pub everything-congr :
      (r : RetentionReport f) {xs ys : List (RetentionCandidate f)}
      → Perm xs ys
      → Perm (everything r xs) (everything r ys)
  everything-congr r p =
      Perm.append_left r.keep
        (Perm.append_left r.drop (Perm.append_left r.invalidate (Perm.append_left r.defer p)))

  -- A candidate of the pool may stand in front of everything.
  pub everything-cons :
      (r : RetentionReport f) (c : RetentionCandidate f) (pool : List (RetentionCandidate f))
      → Perm (everything r (c ∷ pool)) (c ∷ everything r pool)
  everything-cons r c pool =
      perm_over r.keep (perm_over r.drop (perm_over r.invalidate (perm_over r.defer Perm.rfl)))

  -- A push moves the candidate from the pool into the report.
  pub everything-push :
      (d : RetentionDecision) (c : RetentionCandidate f) (r : RetentionReport f)
      (pool : List (RetentionCandidate f))
      → Perm (everything (push d c r) pool) (everything r (c ∷ pool))
  unfolding push
  everything-push RetentionDecision.keep c r pool =
      perm_slot r.keep (perm_over r.drop (perm_over r.invalidate (perm_over r.defer Perm.rfl)))
  everything-push RetentionDecision.drop c r pool =
      Perm.append_left r.keep
        (perm_slot r.drop (perm_over r.invalidate (perm_over r.defer Perm.rfl)))
  everything-push RetentionDecision.invalidate c r pool =
      Perm.append_left r.keep
        (Perm.append_left r.drop (perm_slot r.invalidate (perm_over r.defer Perm.rfl)))
  everything-push RetentionDecision.defer c r pool =
      Perm.append_left r.keep
        (Perm.append_left r.drop (Perm.append_left r.invalidate (perm_slot r.defer Perm.rfl)))
