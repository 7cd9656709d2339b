-- ===== src/Retention/Batch/Ranking.antt =====
-- What the two ranking rules keep: the front of the batch in their order.
use rig_memory_policy.Prelude.{
  ℕ, suc, ltb, ◌-◌, true, false, List, [], ◌∷◌, ◌++◌, ◌≡◌, ◌∙◌, append_assoc, append-nil,
  Bool-cases, inl, inr, arith, take, drop, take-nil, drop-nil,
}
use rig_memory_policy.Floats.{Floats, IsTotalCmp}
use rig_memory_policy.Sort.{sort_by, IsTotal}
use rig_memory_policy.Sort.Selection.{IsSelection, sort_by-IsSelection}
use rig_memory_policy.Sort.Orders.{
  compare_option, compare_option-IsTotal, reversed-IsTotal, both-IsTotal, by_key-IsTotal,
}
use rig_memory_policy.Retention.Candidate.{RetentionCandidate, salience}
use rig_memory_policy.Retention.Rule.{RetentionDecision, RetentionRule}
use rig_memory_policy.Retention.Batch.Report.{RetentionReport, push}
use rig_memory_policy.Retention.Batch.{keep_first, step, by_recency, by_salience}

room : (count kept : ℕ) → ltb kept count ≡ true → count - kept ≡ suc (count - suc kept)
room count kept e = ground arith

full : (count kept : ℕ) → ltb kept count ≡ false → count - kept ≡ 0
full count kept e = ground arith

module _ {f : Floats} where
  pub by_recency-IsTotal : IsTotal (by_recency {f = f})
  unfolding by_recency
  by_recency-IsTotal =
      both-IsTotal _ _
        (by_key-IsTotal _ (λ (c : RetentionCandidate f). c.sequence)
          (reversed-IsTotal compare_option compare_option-IsTotal))
        (by_key-IsTotal _ (λ (c : RetentionCandidate f). c.written_at_unix_ms)
          (reversed-IsTotal compare_option compare_option-IsTotal))

  pub by_salience-IsTotal :
      IsTotalCmp f → (as_of half_life : ℕ) → IsTotal (by_salience {f = f} as_of half_life)
  unfolding by_salience
  by_salience-IsTotal t as_of half_life =
      by_key-IsTotal _ (λ (c : RetentionCandidate f). salience c as_of half_life)
        (reversed-IsTotal f.total_cmp t)

  keep_first_lem :
      (count : ℕ) (batch : List (RetentionCandidate f)) (kept : ℕ) (r : RetentionReport f)
      (next : List (RetentionCandidate f))
      → keep_first count batch kept r next ≡ (
        record r { keep = r.keep ++ take (count - kept) batch },
        next ++ drop (count - kept) batch,
      )
  unfolding keep_first push take drop
  keep_first_lem count [] kept r next = rw (take-nil, drop-nil, append-nil, append-nil)
  keep_first_lem count (c ∷ batch) kept r next = elim (Bool-cases (ltb kept count)) [
    | inl e ↦
        rw (e, keep_first)
          (keep_first_lem count batch (suc kept) (push RetentionDecision.keep c r) next
            ∙ rw (room count kept e, append_assoc))
    | inr e ↦
        rw (e, keep_first)
          (keep_first_lem count batch kept r (next ++ c ∷ [])
            ∙ rw (full count kept e, append_assoc))
  ]

  pub keep_first-take_drop :
      (count : ℕ) (batch : List (RetentionCandidate f)) (r : RetentionReport f)
      → keep_first count batch 0 r []
        ≡ (record r { keep = r.keep ++ take count batch }, drop count batch)
  keep_first-take_drop count batch r =
      let whole : count - 0 ≡ count = omega arith in rw whole at (keep_first_lem count batch 0 r [])

  -- `KeepMostRecent` adds the selection by recency to the kept ones, leaves the rest in the pool and
  -- touches no other list.
  pub step-keep_most_recent :
      (count : ℕ) (r : RetentionReport f) (batch : List (RetentionCandidate f))
      → (top : List (RetentionCandidate f)) × (rest : List (RetentionCandidate f)) × (step
            (RetentionRule.keep_most_recent count)
            r
            batch
          ≡ (record r { keep = r.keep ++ top }, rest))
        × IsSelection by_recency count batch top rest
  unfolding step
  step-keep_most_recent count r batch =
      let ranked = sort_by by_recency batch in
      (
        take count ranked,
        drop count ranked,
        keep_first-take_drop count ranked r,
        sort_by-IsSelection by_recency count batch by_recency-IsTotal,
      )

  -- If `total_cmp` is a total order, `KeepTopBySalience` adds the selection by salience to the kept
  -- ones, leaves the rest in the pool and touches no other list.
  pub step-keep_top_by_salience :
      (count half_life as_of : ℕ) (r : RetentionReport f) (batch : List (RetentionCandidate f))
      → IsTotalCmp f
      → (top : List (RetentionCandidate f)) × (rest : List (RetentionCandidate f)) × (step
            (RetentionRule.keep_top_by_salience count half_life as_of)
            r
            batch
          ≡ (record r { keep = r.keep ++ top }, rest))
        × IsSelection (by_salience as_of half_life) count batch top rest
  unfolding step
  step-keep_top_by_salience count half_life as_of r batch t =
      let ranked = sort_by (by_salience as_of half_life) batch in
      (
        take count ranked,
        drop count ranked,
        keep_first-take_drop count ranked r,
        sort_by-IsSelection (by_salience as_of half_life) count batch
            (by_salience-IsTotal t as_of half_life),
      )
