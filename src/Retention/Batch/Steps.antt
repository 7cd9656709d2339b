-- ===== src/Retention/Batch/Steps.antt =====
-- One rule over a pool, in the two ways in which the loop treats it.
use rig_memory_policy.Prelude.{
  ℕ, ◌≤◌, List, [], ◌++◌, ◌≡◌, ◌⊎◌, inl, inr, refl, arith, Perm, length, length-take, take, drop,
  take-append-drop,
}
use rig_memory_policy.Sort.{sort_by}
use rig_memory_policy.Sort.Laws.{sort_by-perm}
use rig_memory_policy.Floats.{Floats}
use rig_memory_policy.Retention.Candidate.{RetentionCandidate}
use rig_memory_policy.Retention.Rule
use rig_memory_policy.Retention.Rule.{RetentionRule, RetentionDecision}
use rig_memory_policy.Retention.Batch.Report.{RetentionReport}
use rig_memory_policy.Retention.Batch.{step, route, keep_first, by_recency, by_salience}
use rig_memory_policy.Retention.Batch.Ranking.{keep_first-take_drop}

-- How many candidates a rule may keep by rank.
abbrev pub limit : RetentionRule → ℕ
limit (RetentionRule.keep_most_recent count) = count
limit (RetentionRule.keep_top_by_salience count _ _) = count
limit _ = 0

module _ {f : Floats} where
  -- A ranking rule splits the batch, keeps the first part, no longer than its count, and would
  -- defer every candidate by itself.
  pub record IsRanked (rule : RetentionRule) (r : RetentionReport f)
      (batch top rest : List (RetentionCandidate f)) : Type 0 where
    pub stepped : step rule r batch ≡ (record r { keep = r.keep ++ top }, rest)
    pub perm : Perm (top ++ rest) batch
    pub few : length top ≤ limit rule
    pub deferring : (c : RetentionCandidate f) → Rule.evaluate rule c ≡ RetentionDecision.defer

  abbrev Ranked : RetentionRule → RetentionReport f → List (RetentionCandidate f) → Type 0
  Ranked rule r batch =
      (top : List (RetentionCandidate f)) × (rest : List (RetentionCandidate f)) × IsRanked rule r
        batch top rest

  split-Ranked :
      (rule : RetentionRule) (r : RetentionReport f) (batch ranked : List (RetentionCandidate f))
      → step rule r batch ≡ keep_first (limit rule) ranked 0 r []
      → Perm ranked batch
      → ((c : RetentionCandidate f) → Rule.evaluate rule c ≡ RetentionDecision.defer)
      → Ranked rule r batch
  split-Ranked rule r batch ranked e p defers = (
    take (limit rule) ranked,
    drop (limit rule) ranked,
    record {
      stepped = rw (keep_first-take_drop (limit rule) ranked r) at e;
      perm = rw take-append-drop p;
      few = omega (arith, length-take (limit rule) ranked);
      deferring = defers;
    },
  )

  pub step_cases :
      (rule : RetentionRule) (r : RetentionReport f) (batch : List (RetentionCandidate f))
      → (step rule r batch ≡ route rule batch r []) ⊎ Ranked rule r batch
  unfolding step Rule.evaluate
  step_cases (RetentionRule.keep_most_recent count) r batch = inr (
      split-Ranked (RetentionRule.keep_most_recent count) r batch (sort_by by_recency batch) refl
        (sort_by-perm by_recency batch) (λ c. refl))
  step_cases (RetentionRule.keep_top_by_salience count half_life as_of) r batch = inr (
      split-Ranked (RetentionRule.keep_top_by_salience count half_life as_of) r batch
        (sort_by (by_salience as_of half_life) batch) refl
        (sort_by-perm (by_salience as_of half_life) batch) (λ c. refl))
  step_cases rule r batch = inl refl
