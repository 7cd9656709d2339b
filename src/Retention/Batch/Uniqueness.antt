-- ===== src/Retention/Batch/Uniqueness.antt =====
-- The report that a policy's rules are to make of a batch is determined: `evaluate_batch` gives it,
-- and nothing else is one.
use mathlib.Core.Path.{ap₂, subst}
use rig_memory_policy.Prelude.{
  List, [], ◌∷◌, ◌≡◌, ◌⊎◌, inl, inr, refl, sym, ap, ◌∙◌, filter, if◌then◌else◌, ◌↔◌,
}
use rig_memory_policy.Floats.{Floats, IsTotalCmp}
use rig_memory_policy.Sort.{IsTotal}
use rig_memory_policy.Sort.Selection.{IsSelection}
use rig_memory_policy.Sort.Stable.{IsSelection-unique}
use rig_memory_policy.Retention.Candidate.{RetentionCandidate}
use rig_memory_policy.Retention.Rule.{RetentionDecision, RetentionRule, decision_eq}
use rig_memory_policy.Retention.Policy.{RetentionPolicy}
use rig_memory_policy.Retention.Batch.Report.{RetentionReport, empty}
use rig_memory_policy.Retention.Batch.{evaluate_batch}
use rig_memory_policy.Retention.Batch.Steps.{limit}
use rig_memory_policy.Retention.Batch.Ranking.{by_recency-IsTotal, by_salience-IsTotal}
use rig_memory_policy.Retention.Batch.Agreement.{IsPointwise, deferred}
use rig_memory_policy.Retention.Batch.Meaning.{
  order, join, tabulate, settled_by, Means, by_default, by_rank, one_by_one, evaluate_batch-Means,
}

module _ {f : Floats} (t : IsTotalCmp f) (fallback : RetentionDecision) where
  pub order-IsTotal : (rule : RetentionRule) → IsTotal (order {f = f} rule)
  order-IsTotal (RetentionRule.keep_most_recent _) = by_recency-IsTotal
  order-IsTotal (RetentionRule.keep_top_by_salience _ half_life as_of) =
      by_salience-IsTotal t as_of half_life
  order-IsTotal _ = record { flip = λ a b. refl; trans = λ a b c p q. refl }

  -- What a report of each list of rules must be.
  abbrev pub Inverted :
      List RetentionRule → List (RetentionCandidate f) → RetentionReport f → Type 0
  Inverted [] batch out = out ≡ tabulate (λ d. if decision_eq fallback d then batch else [])
  Inverted (rule ∷ rules) batch out =
      ((top : List (RetentionCandidate f)) × (rest : List (RetentionCandidate f))
        × (later : RetentionReport f) × (¬ IsPointwise rule)
        × IsSelection (order rule) (limit rule) batch top rest
        × Means {f = f} fallback rules rest later
        × (out ≡ join (record empty { keep = top }) later))
      ⊎ ((later : RetentionReport f) × IsPointwise rule
          × Means {f = f} fallback rules (filter (deferred rule) batch) later
          × (out ≡ join (settled_by rule batch) later))

  pub invert :
      (rules : List RetentionRule) (batch : List (RetentionCandidate f)) (out : RetentionReport f)
      → Means {f = f} fallback rules batch out
      → Inverted rules batch out
  invert _ _ _ (by_default batch) = refl
  invert _ _ _ (by_rank rule rules batch top rest out ranking s m) =
      inl (top, rest, out, ranking, s, m, refl)
  invert _ _ _ (one_by_one rule rules batch out single m) = inr (out, single, m, refl)

  -- Of a batch the rules are to make one report.
  Means-unique :
      (rules : List RetentionRule) (batch : List (RetentionCandidate f))
      (out out' : RetentionReport f)
      → Means {f = f} fallback rules batch out
      → Means {f = f} fallback rules batch out'
      → out ≡ out'
  Means-unique [] batch out out' m m' = invert _ _ _ m ∙ sym (invert _ _ _ m')
  Means-unique (rule ∷ rules) batch out out' m m' = elim (invert _ _ _ m) [
    | inl (top, rest, later, ranking, s, n, e) ↦ elim (invert _ _ _ m') [
      | inl (top', rest', later', _, s', n', e') ↦
          let (q, q') =
            IsSelection-unique (limit rule) batch top rest top' rest' (order-IsTotal rule) s s' in
          let same_later =
            Means-unique rules rest later later' n
              (subst (λ x. Means fallback rules x later') (sym q') n') in
          e ∙ ap₂ (λ x y. join (record empty { keep = x }) y) q same_later ∙ sym e'
      | inr (_, single, _, _) ↦ absurd (ranking single)
    ]
    | inr (later, single, n, e) ↦ elim (invert _ _ _ m') [
      | inl (_, _, _, ranking, _, _, _) ↦ absurd (ranking single)
      | inr (later', _, n', e') ↦
          e ∙ ap (join (settled_by rule batch)) (Means-unique rules _ later later' n n') ∙ sym e'
    ]
  ]

-- If `total_cmp` is a total order, a report is the one that the rules, taken one after the other, are to make of the candidates, if
-- and only if `evaluate_batch` returns it.
pub evaluate_batch_iff_Means :
    {f : Floats} (p : RetentionPolicy) (candidates : List (RetentionCandidate f))
    (out : RetentionReport f)
    → IsTotalCmp f
    → Means p.fallback p.rules candidates out ↔ (evaluate_batch p candidates ≡ out)
evaluate_batch_iff_Means p candidates out t = (
  Means-unique t p.fallback p.rules candidates (evaluate_batch p candidates) out
      (evaluate_batch-Means p candidates t),
  λ e. subst (Means p.fallback p.rules candidates) e (evaluate_batch-Means p candidates t),
)
