-- ===== src/Retention/Batch/Stages.antt =====
-- A policy in two stages: the second one decides what the first one defers.
use rig_memory_policy.Prelude.{
  List, [], ◌∷◌, ◌++◌, ◌≡◌, refl, sym, ap, ◌∙◌, filter, take, drop, if◌then◌else◌, append-nil, ◌&&◌,
}
use rig_memory_policy.Sort.{sort_by}
use rig_memory_policy.Floats.{Floats}
use rig_memory_policy.Retention.Candidate.{RetentionCandidate}
use rig_memory_policy.Retention.Rule
use rig_memory_policy.Retention.Rule.{RetentionDecision, RetentionRule, decision_eq}
use rig_memory_policy.Retention.Policy.{is_decided}
use rig_memory_policy.Retention.Batch.{
  Pool, route, step, run, flush, evaluate_batch, by_recency, by_salience,
}
use rig_memory_policy.Retention.Batch.Report.{RetentionReport, empty}
use rig_memory_policy.Retention.Batch.Ranking.{keep_first-take_drop}
use rig_memory_policy.Retention.Batch.Agreement.{policy, settled, route-bucket, flush-bucket}
use rig_memory_policy.Retention.Batch.Meaning.{join, join_assoc, join-tabulate, route-join}

module _ {f : Floats} where
  -- A pool behind a report: what a rule adds does not depend on what is there.
  abbrev after : RetentionReport f → Pool f → Pool f
  after r (out, rest) = (join r out, rest)

  join-empty : (r : RetentionReport f) → join r empty ≡ r
  join-empty r = λ i. record {
    keep = append-nil r.keep i;
    drop = append-nil r.drop i;
    invalidate = append-nil r.invalidate i;
    defer = append-nil r.defer i;
  }

  kept-join :
      (r : RetentionReport f) (top : List (RetentionCandidate f))
      → record r { keep = r.keep ++ top } ≡ join r (record empty { keep = top })
  kept-join r top = λ i. record {
    keep = r.keep ++ top;
    drop = sym (append-nil r.drop) i;
    invalidate = sym (append-nil r.invalidate) i;
    defer = sym (append-nil r.defer) i;
  }

  route-after :
      (rule : RetentionRule) (r : RetentionReport f) (batch : List (RetentionCandidate f))
      → route rule batch r [] ≡ after r (route rule batch empty [])
  route-after rule r batch =
      route-join rule batch r ∙ sym (ap (after r) (route-join rule batch empty))

  ranked-after :
      (p q : Pool f) (r : RetentionReport f) (top rest : List (RetentionCandidate f))
      → p ≡ (record r { keep = r.keep ++ top }, rest)
      → q ≡ (record empty { keep = top }, rest)
      → p ≡ after r q
  ranked-after p q r top rest e e' =
      e ∙ ap (λ out. (out, rest)) (kept-join r top) ∙ sym (ap (after r) e')

  step-after :
      (rule : RetentionRule) (r : RetentionReport f) (batch : List (RetentionCandidate f))
      → step rule r batch ≡ after r (step rule empty batch)
  unfolding step
  step-after (RetentionRule.keep_most_recent count) r batch =
      let ranked = sort_by by_recency batch in
      ranked-after _ _ r (take count ranked) (drop count ranked)
        (keep_first-take_drop count ranked r) (keep_first-take_drop count ranked empty)
  step-after (RetentionRule.keep_top_by_salience count half_life as_of) r batch =
      let ranked = sort_by (by_salience as_of half_life) batch in
      ranked-after _ _ r (take count ranked) (drop count ranked)
        (keep_first-take_drop count ranked r) (keep_first-take_drop count ranked empty)
  step-after _ r batch = route-after _ r batch

  run-after :
      (rules : List RetentionRule) (r : RetentionReport f) (batch : List (RetentionCandidate f))
      → run rules r batch ≡ after r (run rules empty batch)
  unfolding run
  run-after [] r batch = ap (λ out. (out, batch)) (sym (join-empty r))
  run-after (rule ∷ rules) r [] = ap (λ out. (out, [])) (sym (join-empty r))
  run-after (rule ∷ rules) r (c ∷ batch) =
      let (out, rest) = step rule empty (c ∷ batch) in
      let later = run rules empty rest in
      ap (λ p. run rules p.0 p.1) (step-after rule r (c ∷ batch))
      ∙ run-after rules (join r out) rest
      ∙ ap (λ s. (s, later.1)) (join_assoc r out later.0)
      ∙ sym (ap (after r) (run-after rules out rest))

  run-nil : (rules : List RetentionRule) (r : RetentionReport f) → run rules r [] ≡ (r, [])
  unfolding run
  run-nil [] r = refl
  run-nil (rule ∷ rules) r = refl

  run-append :
      (rules later : List RetentionRule) (r : RetentionReport f)
      (batch : List (RetentionCandidate f))
      → run (rules ++ later) r batch ≡ run later (run rules r batch).0 (run rules r batch).1
  unfolding run
  run-append [] later r batch = refl
  run-append (rule ∷ rules) later r [] = sym (run-nil later r)
  run-append (rule ∷ rules) later r (c ∷ batch) =
      let stepped = step rule r (c ∷ batch) in run-append rules later stepped.0 stepped.1

  flush-after :
      (d : RetentionDecision) (batch : List (RetentionCandidate f)) (r : RetentionReport f)
      → flush d batch r ≡ join r (flush d batch empty)
  flush-after d batch r =
      join-tabulate r _ _ (λ e. flush-bucket e d batch r)
      ∙ sym (ap (join r) (join-tabulate empty _ _ (λ e. flush-bucket e d batch empty)))

  flush-defer :
      (batch : List (RetentionCandidate f)) (r : RetentionReport f)
      → flush RetentionDecision.defer batch r ≡ record r { defer = r.defer ++ batch }
  flush-defer batch r = λ i. record {
    keep =
        (flush-bucket RetentionDecision.keep RetentionDecision.defer batch r ∙ append-nil r.keep) i;
    drop =
        (flush-bucket RetentionDecision.drop RetentionDecision.defer batch r ∙ append-nil r.drop) i;
    invalidate =
        (flush-bucket RetentionDecision.invalidate RetentionDecision.defer batch r
            ∙ append-nil r.invalidate)
          i;
    defer = flush-bucket RetentionDecision.defer RetentionDecision.defer batch r i;
  }

  none_left :
      (e : RetentionDecision) (c : RetentionCandidate f) (xs : List (RetentionCandidate f))
      → xs ≡ []
      → (if is_decided e && decision_eq e RetentionDecision.defer then c ∷ xs else xs) ≡ []
  none_left RetentionDecision.defer c xs h = h
  none_left RetentionDecision.keep c xs h = h
  none_left RetentionDecision.drop c xs h = h
  none_left RetentionDecision.invalidate c xs h = h

  -- No rule puts a candidate into the list of the deferred ones.
  never_settled :
      (rule : RetentionRule) (batch : List (RetentionCandidate f))
      → filter (settled RetentionDecision.defer rule) batch ≡ []
  unfolding filter
  never_settled rule [] = refl
  never_settled rule (c ∷ batch) = none_left (Rule.evaluate rule c) c _ (never_settled rule batch)

  step-defer :
      (rule : RetentionRule) (batch : List (RetentionCandidate f))
      → (step rule empty batch).0.defer ≡ []
  unfolding step
  step-defer (RetentionRule.keep_most_recent count) batch =
      ap (λ p. p.0.defer) (keep_first-take_drop count (sort_by by_recency batch) empty)
  step-defer (RetentionRule.keep_top_by_salience count half_life as_of) batch =
      ap (λ p. p.0.defer)
        (keep_first-take_drop count (sort_by (by_salience as_of half_life) batch) empty)
  step-defer rule batch =
      route-bucket RetentionDecision.defer rule batch empty [] ∙ never_settled rule batch

  run-defer :
      (rules : List RetentionRule) (batch : List (RetentionCandidate f))
      → (run rules empty batch).0.defer ≡ []
  unfolding run
  run-defer [] batch = refl
  run-defer (rule ∷ rules) [] = refl
  run-defer (rule ∷ rules) (c ∷ batch) =
      let (out, rest) = step rule empty (c ∷ batch) in
      ap (λ p. p.0.defer) (run-after rules out rest)
      ∙ ap (◌++◌ out.defer) (run-defer rules rest)
      ∙ append-nil out.defer
      ∙ step-defer rule (c ∷ batch)

  -- With the last loop: the rules of the second stage see what the first one leaves.
  staged :
      (rules later : List RetentionRule) (fallback : RetentionDecision)
      (batch : List (RetentionCandidate f))
      → evaluate_batch (policy (rules ++ later) fallback) batch
        ≡ join
            (run rules empty batch).0
            (evaluate_batch (policy later fallback) (run rules empty batch).1)
  unfolding evaluate_batch
  staged rules later fallback batch =
      let (out, rest) = run rules empty batch in
      let (out', rest') = run later empty rest in
      ap (λ p. flush fallback p.1 p.0)
        (run-append rules later empty batch ∙ run-after later out rest)
      ∙ flush-after fallback rest' (join out out')
      ∙ join_assoc out out' (flush fallback rest' empty)
      ∙ ap (join out) (sym (flush-after fallback rest' out'))

  deferring :
      (rules : List RetentionRule) (batch : List (RetentionCandidate f))
      → evaluate_batch (policy rules RetentionDecision.defer) batch
        ≡ record (run rules empty batch).0 { defer = (run rules empty batch).1 }
  unfolding evaluate_batch
  deferring rules batch =
      let (out, rest) = run rules empty batch in
      flush-defer rest out ∙ ap (λ xs. record out { defer = xs ++ rest }) (run-defer rules batch)

  -- With the rules of two policies in turn, a batch is decided as by the first policy, with defer as
  -- its default, and what that one defers as by the second one, list behind list.
  pub evaluate_batch-append :
      (rules later : List RetentionRule) (fallback : RetentionDecision)
      (candidates : List (RetentionCandidate f))
      → let first = evaluate_batch (policy rules RetentionDecision.defer) candidates in
        evaluate_batch (policy (rules ++ later) fallback) candidates
        ≡ join (record first { defer = [] }) (evaluate_batch (policy later fallback) first.defer)
  evaluate_batch-append rules later fallback candidates =
      let (out, rest) = run rules empty candidates in
      staged rules later fallback candidates
      ∙ ap (λ xs. join (record out { defer = xs }) (evaluate_batch (policy later fallback) rest))
          (run-defer rules candidates)
      ∙ sym (
          ap (λ r. join (record r { defer = [] }) (evaluate_batch (policy later fallback) r.defer))
            (deferring rules candidates))
