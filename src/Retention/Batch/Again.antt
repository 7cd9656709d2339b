-- ===== src/Retention/Batch/Again.antt =====
-- A policy over what it has kept.
use mathlib.Core.Path.{subst}
use mathlib.Core.List.{Mem, mem-append_right}
use mathlib.Core.List.Perm
use rig_memory_policy.Prelude.{
  List, [], ◌∷◌, ◌++◌, ◌≡◌, inl, inr, refl, ap, ◌∙◌, true, if◌then◌else◌, Perm, All, filter,
}
use rig_memory_policy.Prelude.Filters.{filter-All}
use rig_memory_policy.Prelude.Members.{mem-of_mem-filter, All-of_mem, mem-of_All}
use rig_memory_policy.Floats.{Floats, IsTotalCmp}
use rig_memory_policy.Sort.Again.{IsSelection-again}
use rig_memory_policy.Retention.Candidate.{RetentionCandidate}
use rig_memory_policy.Retention.Rule.{RetentionDecision, RetentionRule, decision_eq}
use rig_memory_policy.Retention.Policy.{RetentionPolicy}
use rig_memory_policy.Retention.Batch.{evaluate_batch}
use rig_memory_policy.Retention.Batch.Report.{RetentionReport, bucket}
use rig_memory_policy.Retention.Batch.Steps.{limit}
use rig_memory_policy.Retention.Batch.Agreement.{policy, deferred, settled}
use rig_memory_policy.Retention.Batch.Meaning.{
  join, tabulate, Means, by_default, by_rank, one_by_one, evaluate_batch-Means,
}
use rig_memory_policy.Retention.Batch.Uniqueness.{order-IsTotal, invert}
use rig_memory_policy.Retention.Batch.Reordering.{
  IsDecisive, SameLists, join-SameLists, IsDecisive-of_subset, Means-SameLists, carry,
}
use rig_memory_policy.Retention.Batch.Kept.{
  all_kept, kept_within, settled_by-again, deferred-again, by_default-again,
}

module _ {f : Floats} where
  joined_again :
      (top rest : List (RetentionCandidate f)) (out' later' : RetentionReport f)
      → out' ≡ join (all_kept top) later'
      → SameLists later' (all_kept rest)
      → SameLists out' (all_kept (top ++ rest))
  joined_again top rest out' later' e same =
      carry out' (all_kept (top ++ rest)) (join (all_kept top) later')
        (join (all_kept top) (all_kept rest)) e refl
        (join-SameLists (all_kept top) (all_kept top) later' (all_kept rest) (λ d. Perm.rfl) same)

module _ {f : Floats} (t : IsTotalCmp f) (fallback : RetentionDecision) where
  -- The rules over a rearrangement of what they are to keep of a batch.
  abbrev KeepsAgain : List RetentionRule → List (RetentionCandidate f) → Type 0
  KeepsAgain rules kept =
      (out' : RetentionReport f)
      → Means {f = f} fallback rules kept out'
      → SameLists out' (all_kept kept)

  moved_again :
      (rules : List RetentionRule) (kept moved : List (RetentionCandidate f))
      (out' : RetentionReport f)
      → IsDecisive rules kept
      → KeepsAgain rules kept
      → Perm moved kept
      → Means {f = f} fallback rules moved out'
      → SameLists out' (all_kept kept)
  moved_again rules kept moved out' decisive again p m d =
      let m' = evaluate_batch-Means (policy rules fallback) kept t in
      Perm.trans
        (Perm.symm
          (Means-SameLists t fallback rules kept moved _ out' decisive (Perm.symm p) m' m d))
        (again _ m' d)

  kept_again :
      (rules : List RetentionRule) (batch : List (RetentionCandidate f)) (out : RetentionReport f)
      → Means {f = f} fallback rules batch out
      → IsDecisive rules batch
      → KeepsAgain rules out.keep
  kept_again _ _ _ (by_default batch) _ out' m' =
      rw
        (
          invert t fallback [] _ out' m',
          by_default-again fallback batch
              (tabulate (λ d. if decision_eq fallback d then batch else [])) refl,
        )
        (λ d. Perm.rfl)
  kept_again _ _ _ (by_rank rule rules batch top rest later ranking s m) (h, hs) out' m' =
      elim (invert t fallback (rule ∷ rules) (top ++ later.keep) out' m') [
        | inl (top', rest', later', _, s', n', e') ↦
            let (sub, few) = kept_within fallback rules rest later m in
            let (same, moved) =
              IsSelection-again (order-IsTotal t fallback rule) (limit rule) batch top rest
                later.keep s sub top' rest' (h ranking) few s' in
            let in_batch = λ (c : RetentionCandidate f) (k : Mem c rest).
              (Perm.mem_iff s.perm).0 (mem-append_right top k) in
            let decisive = IsDecisive-of_subset rules batch rest in_batch hs in
            let rest_again =
              moved_again rules later.keep rest' later'
                (IsDecisive-of_subset rules rest later.keep sub decisive)
                (kept_again rules rest later m decisive) moved n' in
            joined_again top later.keep out' later' (e' ∙ ap (λ x. join (all_kept x) later') same)
              rest_again
        | inr (_, single, _, _) ↦ absurd (ranking single)
      ]
  kept_again _ _ _ (one_by_one rule rules batch later single m) (h, hs) out' m' =
      let first = filter (settled RetentionDecision.keep rule) batch in
      elim (invert t fallback (rule ∷ rules) (first ++ later.keep) out' m') [
        | inl (_, _, _, ranking, _, _, _) ↦ absurd (ranking single)
        | inr (later', _, n', e') ↦
            let left = filter (deferred rule) batch in
            let (sub, few) = kept_within fallback rules left later m in
            let hk = filter-All (settled RetentionDecision.keep rule) batch in
            let hl : All (λ c. deferred rule c ≡ true) later.keep = All-of_mem _ later.keep (λ c k.
              mem-of_All _ (λ c. hlevel) left (filter-All (deferred rule) batch) c (sub c k)) in
            let decisive =
              IsDecisive-of_subset rules batch left (λ c. mem-of_mem-filter (deferred rule) c batch)
                hs in
            let later_again = kept_again rules left later m decisive later' (
              subst (λ x. Means fallback rules x later')
                (deferred-again rule first later.keep hk hl) n') in
            joined_again first later.keep out' later'
              (e' ∙ ap (λ x. join x later') (settled_by-again rule first later.keep hk hl))
              later_again
      ]

-- If `total_cmp` is a total order, and no ranking rule finds two different candidates equal, a policy
-- that is given what it kept of a batch keeps all of it, and drops, invalidates or defers nothing.
pub evaluate_batch-again :
    {f : Floats} (p : RetentionPolicy) (candidates : List (RetentionCandidate f))
    (d : RetentionDecision)
    → IsTotalCmp f
    → IsDecisive p.rules candidates
    → let kept = (evaluate_batch p candidates).keep in
      Perm (bucket d (evaluate_batch p kept)) (bucket d (all_kept kept))
evaluate_batch-again p candidates d t decisive =
    let kept = (evaluate_batch p candidates).keep in
    kept_again t p.fallback p.rules candidates (evaluate_batch p candidates)
      (evaluate_batch-Means p candidates t) decisive (evaluate_batch p kept)
      (evaluate_batch-Means p kept t) d
