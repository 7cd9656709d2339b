-- ===== src/Retention/Batch/Split.antt =====
-- A whole policy over a batch: some candidates are kept by rank, and every other one goes as
-- `evaluate` says of it alone.
use mathlib.Core.List.{perm_append_comm}
use mathlib.Core.List.Perm
use rig_memory_policy.Prelude.{
  ℕ, ◌+◌, ◌≤◌, true, not, List, [], ◌∷◌, ◌++◌, ◌≡◌, refl, sym, append_assoc, append-nil, inl, inr,
  Perm, arith, filter, length, length-append, All, All-append_right, if◌then◌else◌,
}
use rig_memory_policy.Prelude.Filters.{
  filter-append, filter-congr, filter-All, filter-partition, filter-passed, filter-stopped,
}
use rig_memory_policy.Prelude.Members.{All-of_perm}
use rig_memory_policy.Floats.{Floats}
use rig_memory_policy.Retention.Candidate.{RetentionCandidate}
use rig_memory_policy.Retention.Rule
use rig_memory_policy.Retention.Rule.{RetentionDecision, RetentionRule, decision_eq}
use rig_memory_policy.Retention.Policy.{RetentionPolicy}
use rig_memory_policy.Retention.Batch.Report.{RetentionReport, empty, bucket}
use rig_memory_policy.Retention.Batch.{route, run, flush, evaluate_batch}
use rig_memory_policy.Retention.Batch.Steps.{IsRanked, limit, step_cases}
use rig_memory_policy.Retention.Batch.Agreement.{
  policy, deferred, settled, decided_as, joined, apart, decided_by_default, route-bucket,
  route-next, flush-bucket,
}

-- How many candidates the rules may keep by rank altogether.
abbrev pub budget : List RetentionRule → ℕ
budget [] = 0
budget (rule ∷ rules) = limit rule + budget rules

-- What is kept by rank counts in the list of the kept ones only.
abbrev pub kept_as {ℓ} : {A : Type ℓ} → RetentionDecision → List A → List A
kept_as d xs = if decision_eq RetentionDecision.keep d then xs else []

kept_as-nil {ℓ} : {A : Type ℓ} (d : RetentionDecision) (rest : List A) → kept_as d [] ++ rest ≡ rest
kept_as-nil RetentionDecision.keep rest = refl
kept_as-nil _ rest = refl

kept_as-append {ℓ} :
    {A : Type ℓ} (d : RetentionDecision) (xs ys : List A)
    → kept_as d (xs ++ ys) ≡ kept_as d xs ++ kept_as d ys
kept_as-append RetentionDecision.keep xs ys = refl
kept_as-append _ xs ys = refl

-- Three parts that a report and a split of the pool add up from.
perm_last {ℓ} : {A : Type ℓ} (a b k o : List A) → Perm ((a ++ b) ++ (k ++ o)) (a ++ (k ++ (o ++ b)))
perm_last a b k o =
    rw (append_assoc, sym (append_assoc k o b)) (Perm.append_left a (perm_append_comm b (k ++ o)))

module _ {f : Floats} where
  bucket-keep :
      (d : RetentionDecision) (r : RetentionReport f) (top : List (RetentionCandidate f))
      → bucket d (record r { keep = r.keep ++ top }) ≡ bucket d r ++ kept_as d top
  bucket-keep RetentionDecision.keep r top = refl
  bucket-keep RetentionDecision.drop r top = sym (append-nil r.drop)
  bucket-keep RetentionDecision.invalidate r top = sym (append-nil r.invalidate)
  bucket-keep RetentionDecision.defer r top = sym (append-nil r.defer)

  -- The batch is split into `ranked` and `others`: what the report `after` has over `before` is the
  -- ranked ones as kept, and the others as the policy decides each of them.
  pub record IsSplit (rules : List RetentionRule) (fallback : RetentionDecision)
      (batch : List (RetentionCandidate f)) (before after : RetentionReport f)
      (ranked others : List (RetentionCandidate f)) : Type 0 where
    pub perm : Perm (ranked ++ others) batch
    pub few : length ranked ≤ budget rules
    pub agrees :
        (d : RetentionDecision)
        → Perm (bucket d after) (
            bucket d before
            ++ (kept_as d ranked ++ filter (decided_as (policy rules fallback) d) others))

  abbrev pub Split :
      List RetentionRule
      → RetentionDecision
      → List (RetentionCandidate f)
      → RetentionReport f
      → RetentionReport f
      → Type 0
  Split rules fallback batch before after =
      (ranked : List (RetentionCandidate f)) × (others : List (RetentionCandidate f)) × IsSplit
        rules fallback batch before after ranked others

  -- A rule that looks at single candidates, before rules that split what it leaves.
  module _ (rule : RetentionRule) (rules : List RetentionRule) (fallback : RetentionDecision)
      (r after : RetentionReport f) (batch : List (RetentionCandidate f)) where
    abbrev stopped : List (RetentionCandidate f)
    stopped = filter (λ c. not (deferred rule c)) batch

    others_agree :
        (d : RetentionDecision) (others : List (RetentionCandidate f))
        → All (λ c. deferred rule c ≡ true) others
        → filter (decided_as (policy (rule ∷ rules) fallback) d) (others ++ stopped)
          ≡ filter (decided_as (policy rules fallback) d) others ++ filter (settled d rule) batch
    others_agree d others h =
        let split = joined d rule rules fallback in
        rw
          (
            filter-append (decided_as (policy (rule ∷ rules) fallback) d) others stopped,
            filter-passed _ _ _ _ split (apart d rule) others h,
            filter-stopped _ _ _ _ split (apart d rule) batch,
          )
          refl

    others_deferred :
        (ranked others : List (RetentionCandidate f))
        → Perm (ranked ++ others) (filter (deferred rule) batch)
        → All (λ c. deferred rule c ≡ true) others
    others_deferred ranked others p = All-append_right _ ranked others (
        All-of_perm _ (λ c. hlevel) (ranked ++ others) (filter (deferred rule) batch) p
          (filter-All (deferred rule) batch))

    route-Split :
        Split rules fallback (filter (deferred rule) batch) (route rule batch r []).0 after
        → Split (rule ∷ rules) fallback batch r after
    route-Split (ranked, others, s) = (
      ranked,
      others ++ stopped,
      record {
        perm = rw (sym (append_assoc ranked others stopped)) (
            Perm.trans (Perm.append_right stopped s.perm) (filter-partition (deferred rule) batch));
        few = omega (arith, s.few);
        agrees = λ d. Perm.trans (s.agrees d) (
            rw
              (
                route-bucket d rule batch r [],
                others_agree d others (others_deferred ranked others s.perm),
              )
              (perm_last (bucket d r) (filter (settled d rule) batch) (kept_as d ranked) _));
      },
    )

  same_decision :
      (rule : RetentionRule) (rules : List RetentionRule) (fallback : RetentionDecision)
      → ((c : RetentionCandidate f) → Rule.evaluate rule c ≡ RetentionDecision.defer)
      → (d : RetentionDecision) (c : RetentionCandidate f)
      → decided_as (policy rules fallback) d c ≡ decided_as (policy (rule ∷ rules) fallback) d c
  same_decision rule rules fallback defers d c = rw (joined d rule rules fallback c, defers c) refl

  -- A ranking rule before rules that split what it leaves.
  ranked-Split :
      (rule : RetentionRule) (rules : List RetentionRule) (fallback : RetentionDecision)
      (r after : RetentionReport f) (batch top rest : List (RetentionCandidate f))
      → IsRanked rule r batch top rest
      → Split rules fallback rest (record r { keep = r.keep ++ top }) after
      → Split (rule ∷ rules) fallback batch r after
  ranked-Split rule rules fallback r after batch top rest k (ranked, others, s) = (
    top ++ ranked,
    others,
    record {
      perm = rw append_assoc (Perm.trans (Perm.append_left top s.perm) k.perm);
      few = omega (arith, s.few, k.few, length-append top ranked);
      agrees = λ d.
          rw
            (
              kept_as-append d top ranked,
              sym (filter-congr _ _ (same_decision rule rules fallback k.deferring d) others),
              append_assoc,
            )
            (rw (bucket-keep d r top, append_assoc) at (s.agrees d));
    },
  )

  run-Split :
      (rules : List RetentionRule) (fallback : RetentionDecision) (r : RetentionReport f)
      (batch : List (RetentionCandidate f))
      → Split rules fallback batch r (flush fallback (run rules r batch).1 (run rules r batch).0)
  unfolding run flush filter
  run-Split [] fallback r batch = (
    [],
    batch,
    record {
      perm = Perm.rfl;
      few = omega arith;
      agrees = λ d.
          rw (flush-bucket d fallback batch r, decided_by_default d fallback batch, kept_as-nil d _)
            Perm.rfl;
    },
  )
  run-Split (rule ∷ rules) fallback r [] = (
    [],
    [],
    record {
      perm = Perm.rfl;
      few = omega arith;
      agrees = λ d. rw (kept_as-nil d _, append-nil (bucket d r)) Perm.rfl;
    },
  )
  run-Split (rule ∷ rules) fallback r (c ∷ batch) = elim (step_cases rule r (c ∷ batch)) [
    | inl e ↦
        route-Split rule rules fallback r _ (c ∷ batch)
          (rw (e, sym (route-next rule (c ∷ batch) r [])) (run-Split rules fallback _ _))
    | inr (top, rest, k) ↦
        ranked-Split rule rules fallback r _ (c ∷ batch) top rest k
          (rw k.stepped (run-Split rules fallback (record r { keep = r.keep ++ top }) rest))
  ]

  -- Whatever the rules, the candidates split into `ranked`, at most as many as the ranking rules
  -- may keep, and `others`: the list of each decision holds the others to which `evaluate` gives that
  -- decision, and the list of the kept ones holds the ranked ones too.
  pub evaluate_batch-Split :
      (p : RetentionPolicy) (candidates : List (RetentionCandidate f))
      → Split p.rules p.fallback candidates empty (evaluate_batch p candidates)
  unfolding evaluate_batch
  evaluate_batch-Split p candidates = run-Split p.rules p.fallback empty candidates
