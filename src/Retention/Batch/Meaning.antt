-- ===== src/Retention/Batch/Meaning.antt =====
-- What a policy is to make of a batch, rule by rule, and that `evaluate_batch` makes it.
use rig_memory_policy.Prelude.{
  List, [], ◌∷◌, ◌++◌, ◌≡◌, ◌⊎◌, inl, inr, refl, sym, ◌∙◌, Ordering, filter, append_assoc,
  append-nil, if◌then◌else◌,
}
use rig_memory_policy.Floats.{Floats, IsTotalCmp}
use rig_memory_policy.Sort.Selection.{IsSelection, nothing-IsSelection}
use rig_memory_policy.Retention.Candidate.{RetentionCandidate}
use rig_memory_policy.Retention.Rule.{RetentionDecision, RetentionRule, decision_eq}
use rig_memory_policy.Retention.Policy.{RetentionPolicy}
use rig_memory_policy.Retention.Batch.Report.{RetentionReport, empty, bucket}
use rig_memory_policy.Retention.Batch.{
  route, run, step, flush, by_recency, by_salience, evaluate_batch,
}
use rig_memory_policy.Retention.Batch.Steps.{limit}
use rig_memory_policy.Retention.Batch.Ranking.{step-keep_most_recent, step-keep_top_by_salience}
use rig_memory_policy.Retention.Batch.Agreement.{
  IsPointwise, deferred, settled, step_pointwise, route-bucket, route-next, flush-bucket,
}

module _ {f : Floats} where
  -- The order of a ranking rule; every other rule has none.
  abbrev pub order : RetentionRule → RetentionCandidate f → RetentionCandidate f → Ordering
  order (RetentionRule.keep_most_recent _) = by_recency
  order (RetentionRule.keep_top_by_salience _ half_life as_of) = by_salience as_of half_life
  order _ = λ a b. Ordering.eq

  -- One report behind another, list by list.
  abbrev pub join : RetentionReport f → RetentionReport f → RetentionReport f
  join r out = record {
    keep = r.keep ++ out.keep;
    drop = r.drop ++ out.drop;
    invalidate = r.invalidate ++ out.invalidate;
    defer = r.defer ++ out.defer;
  }

  -- A report of what a function gives for each decision.
  abbrev pub tabulate : (RetentionDecision → List (RetentionCandidate f)) → RetentionReport f
  tabulate g = record {
    keep = g RetentionDecision.keep;
    drop = g RetentionDecision.drop;
    invalidate = g RetentionDecision.invalidate;
    defer = g RetentionDecision.defer;
  }

  -- The lists into which a rule by itself puts the candidates that it does not defer.
  abbrev pub settled_by : RetentionRule → List (RetentionCandidate f) → RetentionReport f
  settled_by rule batch = tabulate (λ d. filter (settled d rule) batch)

  -- The report that the rules, one after the other, are to make of a batch: a ranking rule keeps a
  -- selection by its order and passes on the rest; another rule passes on what it defers and puts the
  -- others into the lists of their decisions; at the end the default decision takes what is left.
  pub data Means (fallback : RetentionDecision)
      : List RetentionRule → List (RetentionCandidate f) → RetentionReport f → Type 0 where
    by_default :
        (batch : List (RetentionCandidate f))
        → Means fallback [] batch (tabulate (λ d. if decision_eq fallback d then batch else []))
    by_rank :
        (rule : RetentionRule) (rules : List RetentionRule)
        (batch top rest : List (RetentionCandidate f)) (out : RetentionReport f)
        → ¬ IsPointwise rule
        → IsSelection (order rule) (limit rule) batch top rest
        → Means fallback rules rest out
        → Means fallback (rule ∷ rules) batch (join (record empty { keep = top }) out)
    one_by_one :
        (rule : RetentionRule) (rules : List RetentionRule) (batch : List (RetentionCandidate f))
        (out : RetentionReport f)
        → IsPointwise rule
        → Means fallback rules (filter (deferred rule) batch) out
        → Means fallback (rule ∷ rules) batch (join (settled_by rule batch) out)

  pub join_assoc : (a b c : RetentionReport f) → join (join a b) c ≡ join a (join b c)
  join_assoc a b c =
      rw
        (
          append_assoc a.keep b.keep c.keep,
          append_assoc a.drop b.drop c.drop,
          append_assoc a.invalidate b.invalidate c.invalidate,
          append_assoc a.defer b.defer c.defer,
        )
        refl

  -- A report is known by its lists.
  pub join-tabulate :
      (r after : RetentionReport f) (g : RetentionDecision → List (RetentionCandidate f))
      → ((d : RetentionDecision) → bucket d after ≡ bucket d r ++ g d)
      → after ≡ join r (tabulate g)
  join-tabulate r after g h = λ i. record {
    keep = h RetentionDecision.keep i;
    drop = h RetentionDecision.drop i;
    invalidate = h RetentionDecision.invalidate i;
    defer = h RetentionDecision.defer i;
  }

  pub route-join :
      (rule : RetentionRule) (batch : List (RetentionCandidate f)) (r : RetentionReport f)
      → route rule batch r [] ≡ (join r (settled_by rule batch), filter (deferred rule) batch)
  route-join rule batch r = λ i.
      (join-tabulate r _ _ (λ d. route-bucket d rule batch r []) i, route-next rule batch r [] i)

module _ (f : Floats) where
  abbrev Ranks : RetentionRule → Type 0
  Ranks rule =
      (r : RetentionReport f) (batch : List (RetentionCandidate f))
      → (top : List (RetentionCandidate f)) × (rest : List (RetentionCandidate f)) × (step rule r
            batch
          ≡ (record r { keep = r.keep ++ top }, rest))
        × IsSelection (order rule) (limit rule) batch top rest

  rule_cases :
      IsTotalCmp f → (rule : RetentionRule) → IsPointwise rule ⊎ ((¬ IsPointwise rule) × Ranks rule)
  rule_cases t (RetentionRule.keep_most_recent count) =
      inr (λ h. h, λ r batch. step-keep_most_recent count r batch)
  rule_cases t (RetentionRule.keep_top_by_salience count half_life as_of) =
      inr (λ h. h, λ r batch. step-keep_top_by_salience count half_life as_of r batch t)
  rule_cases t _ = inl tt

nothing_left :
    {f : Floats} (d : RetentionDecision)
    → tabulate {f = f} (λ e. if decision_eq d e then [] else []) ≡ empty
nothing_left RetentionDecision.keep = refl
nothing_left RetentionDecision.drop = refl
nothing_left RetentionDecision.invalidate = refl
nothing_left RetentionDecision.defer = refl

module _ {f : Floats} (t : IsTotalCmp f) (fallback : RetentionDecision) where
  -- Of nothing the rules are to make nothing.
  Means-nil : (rules : List RetentionRule) → Means {f = f} fallback rules [] empty
  unfolding filter
  Means-nil [] = rw (sym (nothing_left {f = f} fallback)) (by_default [])
  Means-nil (rule ∷ rules) = elim (rule_cases f t rule) [
    | inl single ↦ one_by_one rule rules [] empty single (Means-nil rules)
    | inr (ranking, _) ↦
        by_rank rule rules [] [] [] empty ranking (nothing-IsSelection (order rule) (limit rule))
          (Means-nil rules)
  ]

  -- What the run over the rules and the last loop add to a report.
  run-Means :
      (rules : List RetentionRule) (r : RetentionReport f) (batch : List (RetentionCandidate f))
      → (out : RetentionReport f) × (flush fallback (run rules r batch).1 (run rules r batch).0
          ≡ join r out)
        × Means fallback rules batch out
  unfolding run flush
  run-Means [] r batch =
      (_, join-tabulate r _ _ (λ d. flush-bucket d fallback batch r), by_default batch)
  run-Means (rule ∷ rules) r [] = (
    empty,
    join-tabulate r r (λ _. []) (λ d. sym (append-nil (bucket d r))),
    Means-nil (rule ∷ rules),
  )
  run-Means (rule ∷ rules) r (c ∷ batch) = elim (rule_cases f t rule) [
    | inl single ↦
        let (out, e, m) =
          run-Means rules (join r (settled_by rule (c ∷ batch)))
            (filter (deferred rule) (c ∷ batch)) in
        (
          join (settled_by rule (c ∷ batch)) out,
          rw (step_pointwise rule r (c ∷ batch) single, route-join rule (c ∷ batch) r)
              (e ∙ join_assoc r (settled_by rule (c ∷ batch)) out),
          one_by_one rule rules (c ∷ batch) out single m,
        )
    | inr (ranking, select) ↦
        let (top, rest, stepped, s) = select r (c ∷ batch) in
        let (out, e, m) = run-Means rules (record r { keep = r.keep ++ top }) rest in
        (
          join (record empty { keep = top }) out,
          rw stepped (e ∙ rw (append_assoc r.keep top out.keep) refl),
          by_rank rule rules (c ∷ batch) top rest out ranking s m,
        )
  ]

-- If `total_cmp` is a total order, the report is the one that the rules, taken one after the other,
-- are to make of the candidates, with the order inside its lists.
pub evaluate_batch-Means :
    {f : Floats} (p : RetentionPolicy) (candidates : List (RetentionCandidate f))
    → IsTotalCmp f
    → Means p.fallback p.rules candidates (evaluate_batch p candidates)
unfolding evaluate_batch
evaluate_batch-Means p candidates t =
    let (out, e, m) = run-Means t p.fallback p.rules empty candidates in rw e m
