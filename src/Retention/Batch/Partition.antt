-- ===== src/Retention/Batch/Partition.antt =====
-- No candidate of a batch is lost or counted twice.
use mathlib.Core.List.{perm_middle}
use mathlib.Core.List.Perm
use rig_memory_policy.Prelude.{
  ℕ, suc, ltb, List, [], ◌∷◌, ◌++◌, append_assoc, append-nil, Perm, Bool-cases, inl, inr,
}
use rig_memory_policy.Floats.{Floats}
use rig_memory_policy.Sort.{sort_by}
use rig_memory_policy.Sort.Laws.{sort_by-perm}
use rig_memory_policy.Retention.Candidate.{RetentionCandidate}
use rig_memory_policy.Retention.Rule
use rig_memory_policy.Retention.Rule.{RetentionDecision, RetentionRule}
use rig_memory_policy.Retention.Policy.{RetentionPolicy}
use rig_memory_policy.Retention.Batch.Report.{
  RetentionReport, empty, push, everything, everything-congr, everything-push,
}
use rig_memory_policy.Retention.Batch.{
  Pool, keep_first, place, route, step, run, flush, evaluate_batch, by_recency, by_salience,
}

module _ {f : Floats} where
  -- All candidates of a pool.
  abbrev total : Pool f → List (RetentionCandidate f)
  total p = everything p.0 p.1

  -- A candidate that moves from the front of the batch to the end of the next batch.
  requeue :
      (r : RetentionReport f) (c : RetentionCandidate f) (next batch : List (RetentionCandidate f))
      → Perm (everything r ((next ++ c ∷ []) ++ batch)) (everything r (next ++ c ∷ batch))
  requeue r c next batch = rw append_assoc Perm.rfl

  -- A candidate that moves from the front of the batch into the report.
  settle :
      (d : RetentionDecision) (r : RetentionReport f) (c : RetentionCandidate f)
      (next batch : List (RetentionCandidate f))
      → Perm (everything (push d c r) (next ++ batch)) (everything r (next ++ c ∷ batch))
  settle d r c next batch =
      Perm.trans (everything-push d c r (next ++ batch))
        (everything-congr r (Perm.symm (perm_middle next batch)))

  keep_first-perm :
      (count : ℕ) (batch : List (RetentionCandidate f)) (kept : ℕ) (r : RetentionReport f)
      (next : List (RetentionCandidate f))
      → Perm (total (keep_first count batch kept r next)) (everything r (next ++ batch))
  unfolding keep_first
  keep_first-perm count [] kept r next = rw append-nil Perm.rfl
  keep_first-perm count (c ∷ batch) kept r next = elim (Bool-cases (ltb kept count)) [
    | inl e ↦
        rw (e, keep_first)
          (Perm.trans
            (keep_first-perm count batch (suc kept) (push RetentionDecision.keep c r) next)
            (settle RetentionDecision.keep r c next batch))
    | inr e ↦
        rw (e, keep_first)
          (Perm.trans (keep_first-perm count batch kept r (next ++ c ∷ []))
            (requeue r c next batch))
  ]

  place-perm :
      (d : RetentionDecision) (c : RetentionCandidate f) (r : RetentionReport f)
      (next batch : List (RetentionCandidate f))
      → Perm
          (everything (place d c r next).0 ((place d c r next).1 ++ batch))
          (everything r (next ++ c ∷ batch))
  unfolding place
  place-perm RetentionDecision.defer c r next batch = requeue r c next batch
  place-perm d c r next batch = settle d r c next batch

  route-perm :
      (rule : RetentionRule) (batch : List (RetentionCandidate f)) (r : RetentionReport f)
      (next : List (RetentionCandidate f))
      → Perm (total (route rule batch r next)) (everything r (next ++ batch))
  unfolding route
  route-perm rule [] r next = rw append-nil Perm.rfl
  route-perm rule (c ∷ batch) r next =
      let d = Rule.evaluate rule c in
      Perm.trans (route-perm rule batch (place d c r next).0 (place d c r next).1)
        (place-perm d c r next batch)

  step-perm :
      (rule : RetentionRule) (r : RetentionReport f) (batch : List (RetentionCandidate f))
      → Perm (total (step rule r batch)) (everything r batch)
  unfolding step
  step-perm (RetentionRule.keep_most_recent count) r batch =
      Perm.trans (keep_first-perm count (sort_by by_recency batch) 0 r [])
        (everything-congr r (sort_by-perm by_recency batch))
  step-perm (RetentionRule.keep_top_by_salience count half_life as_of) r batch =
      Perm.trans (keep_first-perm count (sort_by (by_salience as_of half_life) batch) 0 r [])
        (everything-congr r (sort_by-perm (by_salience as_of half_life) batch))
  step-perm rule r batch = route-perm rule batch r []

  run-perm :
      (rules : List RetentionRule) (r : RetentionReport f) (batch : List (RetentionCandidate f))
      → Perm (total (run rules r batch)) (everything r batch)
  unfolding run
  run-perm [] r batch = Perm.rfl
  run-perm (rule ∷ rules) r [] = Perm.rfl
  run-perm (rule ∷ rules) r (c ∷ batch) =
      Perm.trans (run-perm rules _ _) (step-perm rule r (c ∷ batch))

  flush-perm :
      (d : RetentionDecision) (batch : List (RetentionCandidate f)) (r : RetentionReport f)
      → Perm (everything (flush d batch r) []) (everything r batch)
  unfolding flush
  flush-perm d [] r = Perm.rfl
  flush-perm d (c ∷ batch) r =
      Perm.trans (flush-perm d batch (push d c r)) (everything-push d c r batch)

  -- The four lists of the report together are a rearrangement of the candidates: every candidate is
  -- in exactly one of them, as often as it was passed in.
  pub evaluate_batch-perm :
      (p : RetentionPolicy) (candidates : List (RetentionCandidate f))
      → Perm (everything (evaluate_batch p candidates) []) candidates
  unfolding evaluate_batch
  evaluate_batch-perm p candidates =
      let done = run p.rules empty candidates in
      Perm.trans (flush-perm p.fallback done.1 done.0) (run-perm p.rules empty candidates)
