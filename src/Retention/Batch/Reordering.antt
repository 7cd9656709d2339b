-- ===== src/Retention/Batch/Reordering.antt =====
-- When the order of the candidates does not matter.
use mathlib.Core.Path.{subst}
use mathlib.Core.List.{Mem, mem-append_right}
use mathlib.Core.List.Perm
use rig_memory_policy.Prelude.{
  List, [], ◌∷◌, ◌≡◌, inl, inr, sym, Bool, true, false, if◌then◌else◌, Perm, All,
}
use rig_memory_policy.Prelude.Members.{filter_perm, mem-of_mem-filter}
use rig_memory_policy.Floats.{Floats, IsTotalCmp}
use rig_memory_policy.Sort.Unique.{IsTieFree, IsTieFree-of_subset}
use rig_memory_policy.Sort.Stable.{IsSelection-eq_of_perm}
use rig_memory_policy.Retention.Candidate.{RetentionCandidate}
use rig_memory_policy.Retention.Rule.{RetentionDecision, RetentionRule, decision_eq}
use rig_memory_policy.Retention.Policy.{RetentionPolicy}
use rig_memory_policy.Retention.Batch.{evaluate_batch}
use rig_memory_policy.Retention.Batch.Report.{RetentionReport, empty, bucket}
use rig_memory_policy.Retention.Batch.Steps.{limit}
use rig_memory_policy.Retention.Batch.Agreement.{IsPointwise, deferred, settled}
use rig_memory_policy.Retention.Batch.Meaning.{order, join, tabulate, Means, evaluate_batch-Means}
use rig_memory_policy.Retention.Batch.Uniqueness.{order-IsTotal, invert}

-- No ranking rule finds two different candidates of the batch equal.
abbrev pub IsDecisive : {f : Floats} → List RetentionRule → List (RetentionCandidate f) → Type 0
IsDecisive rules batch = All (λ rule. ¬ IsPointwise rule → IsTieFree (order rule) batch) rules

module _ {f : Floats} where
  abbrev pub SameLists : RetentionReport f → RetentionReport f → Type 0
  SameLists r r' = (d : RetentionDecision) → Perm (bucket d r) (bucket d r')

  pub join-SameLists :
      (a a' b b' : RetentionReport f)
      → SameLists a a'
      → SameLists b b'
      → SameLists (join a b) (join a' b')
  join-SameLists a a' b b' h k RetentionDecision.keep =
      Perm.append (h RetentionDecision.keep) (k RetentionDecision.keep)
  join-SameLists a a' b b' h k RetentionDecision.drop =
      Perm.append (h RetentionDecision.drop) (k RetentionDecision.drop)
  join-SameLists a a' b b' h k RetentionDecision.invalidate =
      Perm.append (h RetentionDecision.invalidate) (k RetentionDecision.invalidate)
  join-SameLists a a' b b' h k RetentionDecision.defer =
      Perm.append (h RetentionDecision.defer) (k RetentionDecision.defer)

  tabulate-SameLists :
      (g g' : RetentionDecision → List (RetentionCandidate f))
      → ((d : RetentionDecision) → Perm (g d) (g' d))
      → SameLists (tabulate g) (tabulate g')
  tabulate-SameLists g g' h RetentionDecision.keep = h RetentionDecision.keep
  tabulate-SameLists g g' h RetentionDecision.drop = h RetentionDecision.drop
  tabulate-SameLists g g' h RetentionDecision.invalidate = h RetentionDecision.invalidate
  tabulate-SameLists g g' h RetentionDecision.defer = h RetentionDecision.defer

  if_perm :
      (b : Bool) {xs ys : List (RetentionCandidate f)}
      → Perm xs ys
      → Perm (if b then xs else []) (if b then ys else [])
  if_perm true p = p
  if_perm false p = Perm.rfl

  pub IsDecisive-of_subset :
      (rules : List RetentionRule) (batch rest : List (RetentionCandidate f))
      → ((c : RetentionCandidate f) → Mem c rest → Mem c batch)
      → IsDecisive rules batch
      → IsDecisive rules rest
  IsDecisive-of_subset [] batch rest sub _ = tt
  IsDecisive-of_subset (rule ∷ rules) batch rest sub (h, hs) = (
    λ ranking. IsTieFree-of_subset (order rule) batch rest sub (h ranking),
    IsDecisive-of_subset rules batch rest sub hs,
  )

  pub carry :
      (out out' a a' : RetentionReport f)
      → out ≡ a
      → out' ≡ a'
      → SameLists a a'
      → SameLists out out'
  carry out out' a a' e e' h d =
      subst (λ r. Perm (bucket d r) (bucket d out')) (sym e)
        (subst (λ r. Perm (bucket d a) (bucket d r)) (sym e') (h d))

  kept-SameLists :
      (top top' : List (RetentionCandidate f))
      → top ≡ top'
      → SameLists (record empty { keep = top }) (record empty { keep = top' })
  kept-SameLists top top' e d =
      subst
        (λ x. Perm (bucket d (record empty { keep = top })) (bucket d (record empty { keep = x })))
        e Perm.rfl

module _ {f : Floats} (t : IsTotalCmp f) (fallback : RetentionDecision) where
  pub Means-SameLists :
      (rules : List RetentionRule) (batch batch' : List (RetentionCandidate f))
      (out out' : RetentionReport f)
      → IsDecisive rules batch
      → Perm batch batch'
      → Means {f = f} fallback rules batch out
      → Means {f = f} fallback rules batch' out'
      → SameLists out out'
  Means-SameLists [] batch batch' out out' _ p m m' =
      rw (invert t fallback [] batch out m, invert t fallback [] batch' out' m')
        (tabulate-SameLists _ _ (λ d. if_perm (decision_eq fallback d) p))
  Means-SameLists (rule ∷ rules) batch batch' out out' (h, hs) p m m' =
      elim (invert t fallback (rule ∷ rules) batch out m) [
        | inl (top, rest, later, ranking, s, n, e) ↦
            elim (invert t fallback (rule ∷ rules) batch' out' m') [
              | inl (top', rest', later', _, s', n', e') ↦
                  let (q, q') =
                    IsSelection-eq_of_perm (limit rule) batch batch' top rest top' rest'
                      (order-IsTotal t fallback rule) (h ranking) p s s' in
                  let left = λ (c : RetentionCandidate f) (k : Mem c rest).
                    (Perm.mem_iff s.perm).0 (mem-append_right top k) in
                  let later_same =
                    Means-SameLists rules rest rest later later'
                      (IsDecisive-of_subset rules batch rest left hs) Perm.rfl n
                      (subst (λ x. Means fallback rules x later') (sym q') n') in
                  carry out out' _ _ e e'
                    (join-SameLists _ _ later later' (kept-SameLists top top' q) later_same)
              | inr (_, single, _, _) ↦ absurd (ranking single)
            ]
        | inr (later, single, n, e) ↦ elim (invert t fallback (rule ∷ rules) batch' out' m') [
          | inl (_, _, _, ranking, _, _, _) ↦ absurd (ranking single)
          | inr (later', _, n', e') ↦
              let moved = filter_perm (deferred rule) batch batch' p in
              let later_same =
                Means-SameLists rules _ _ later later'
                  (IsDecisive-of_subset rules batch _
                    (λ c. mem-of_mem-filter (deferred rule) c batch) hs)
                  moved n n' in
              carry out out' _ _ e e' (
                join-SameLists _ _ later later'
                  (tabulate-SameLists _ _ (λ d. filter_perm (settled d rule) batch batch' p))
                  later_same)
        ]
      ]

-- If `total_cmp` is a total order, and no ranking rule finds two different candidates equal, the
-- lists of the report hold the same candidates, as often, in whatever order the batch is given.
pub evaluate_batch-reordered :
    {f : Floats} (p : RetentionPolicy) (candidates candidates' : List (RetentionCandidate f))
    (d : RetentionDecision)
    → IsTotalCmp f
    → IsDecisive p.rules candidates
    → Perm candidates candidates'
    → Perm (bucket d (evaluate_batch p candidates)) (bucket d (evaluate_batch p candidates'))
evaluate_batch-reordered p candidates candidates' d t decisive moved =
    Means-SameLists t p.fallback p.rules candidates candidates' _ _ decisive moved
      (evaluate_batch-Means p candidates t) (evaluate_batch-Means p candidates' t) d
