-- ===== src/Retention/Batch/Kept.antt =====
-- What a policy keeps of a batch, and what one rule makes of it a second time.
use mathlib.Core.Path.{ap₂}
use mathlib.Core.List.{Mem, Mem-prop, mem-append, mem-append_left, mem-append_right, not-mem-nil}
use mathlib.Core.List.Perm
use mathlib.Core.Logic.Or
use rig_memory_policy.Prelude.{
  ◌+◌, List, [], ◌∷◌, ◌++◌, ◌≡◌, ◌≤◌, refl, ◌∙◌, true, false, not, ◌&&◌, if◌then◌else◌, All,
  All-map, filter, length, length-append, append-nil, arith,
}
use rig_memory_policy.Prelude.Filters.{filter_alike, filter-append}
use rig_memory_policy.Prelude.Members.{length_perm, mem-of_mem-filter}
use rig_memory_policy.Floats.{Floats}
use rig_memory_policy.Retention.Candidate.{RetentionCandidate}
use rig_memory_policy.Retention.Rule
use rig_memory_policy.Retention.Rule.{RetentionDecision, RetentionRule, decision_eq}
use rig_memory_policy.Retention.Policy.{is_decided}
use rig_memory_policy.Retention.Batch.Report.{RetentionReport, empty, bucket}
use rig_memory_policy.Retention.Batch.Agreement.{deferred, settled}
use rig_memory_policy.Retention.Batch.Meaning.{
  tabulate, settled_by, Means, by_default, by_rank, one_by_one,
}

settled_again :
    (d e : RetentionDecision)
    → (is_decided e && decision_eq e RetentionDecision.keep) ≡ true
    → (is_decided e && decision_eq e d) ≡ decision_eq RetentionDecision.keep d
settled_again d RetentionDecision.keep h = refl
settled_again d RetentionDecision.drop h = absurd (cc)
settled_again d RetentionDecision.invalidate h = absurd (cc)
settled_again d RetentionDecision.defer h = absurd (cc)

passed_again :
    (d e : RetentionDecision)
    → not (is_decided e) ≡ true
    → (is_decided e && decision_eq e d) ≡ false
passed_again d e h = ground arith

kept_not_deferred :
    (e : RetentionDecision)
    → (is_decided e && decision_eq e RetentionDecision.keep) ≡ true
    → not (is_decided e) ≡ false
kept_not_deferred e h = ground arith

module _ {f : Floats} where
  -- A report in which all are kept.
  abbrev pub all_kept : List (RetentionCandidate f) → RetentionReport f
  all_kept xs = record empty { keep = xs }

  settled-le :
      (rule : RetentionRule) (batch : List (RetentionCandidate f))
      → length (filter (settled RetentionDecision.keep rule) batch)
          + length (filter (deferred rule) batch)
        ≤ length batch
  unfolding filter
  settled-le rule [] = omega arith
  settled-le rule (c ∷ batch) = ground (arith, settled-le rule batch)

  abbrev pub KeptWithin : List (RetentionCandidate f) → List (RetentionCandidate f) → Type 0
  KeptWithin kept batch =
      ((c : RetentionCandidate f) → Mem c kept → Mem c batch) × (length kept ≤ length batch)

  -- What is kept is in the batch.
  pub kept_within :
      (fallback : RetentionDecision) (rules : List RetentionRule)
      (batch : List (RetentionCandidate f)) (out : RetentionReport f)
      → Means fallback rules batch out
      → KeptWithin out.keep batch
  kept_within RetentionDecision.keep _ _ _ (by_default batch) = (λ c m. m, omega arith)
  kept_within RetentionDecision.drop _ _ _ (by_default batch) =
      (λ c m. absurd (not-mem-nil m), omega arith)
  kept_within RetentionDecision.invalidate _ _ _ (by_default batch) =
      (λ c m. absurd (not-mem-nil m), omega arith)
  kept_within RetentionDecision.defer _ _ _ (by_default batch) =
      (λ c m. absurd (not-mem-nil m), omega arith)
  kept_within fallback _ _ _ (by_rank rule rules batch top rest out ranking s m) =
      let (sub, few) = kept_within fallback rules rest out m in
      (
        λ c k. (Perm.mem_iff s.perm).0 (
            Or.elim Mem-prop (mem-append.0 k) (λ k. mem-append_left rest k)
              (λ k. mem-append_right top (sub c k))),
        omega (
          arith,
          few,
          length_perm _ _ s.perm,
          length-append top rest,
          length-append top out.keep,
        ),
      )
  kept_within fallback _ _ _ (one_by_one rule rules batch out single m) =
      let (sub, few) = kept_within fallback rules (filter (deferred rule) batch) out m in
      (
        λ c k.
            Or.elim Mem-prop (mem-append.0 k)
              (mem-of_mem-filter (settled RetentionDecision.keep rule) c batch)
              (λ k. mem-of_mem-filter (deferred rule) c batch (sub c k)),
        omega (
          arith,
          few,
          settled-le rule batch,
          length-append (filter (settled RetentionDecision.keep rule) batch) out.keep,
        ),
      )

  pub all_kept_list :
      (d : RetentionDecision) (xs : List (RetentionCandidate f))
      → (if decision_eq RetentionDecision.keep d then xs else []) ≡ bucket d (all_kept xs)
  all_kept_list RetentionDecision.keep xs = refl
  all_kept_list RetentionDecision.drop xs = refl
  all_kept_list RetentionDecision.invalidate xs = refl
  all_kept_list RetentionDecision.defer xs = refl

  -- A rule by itself keeps again what it has kept, and defers again what it has deferred.
  module _ (rule : RetentionRule) (kept later : List (RetentionCandidate f))
      (hk : All (λ c. settled RetentionDecision.keep rule c ≡ true) kept)
      (hl : All (λ c. deferred rule c ≡ true) later) where
    settled-again :
        (d : RetentionDecision) → filter (settled d rule) (kept ++ later) ≡ bucket d (all_kept kept)
    settled-again d =
        filter-append (settled d rule) kept later
        ∙ ap₂ ◌++◌
            (filter_alike (settled d rule) (decision_eq RetentionDecision.keep d) kept
              (All-map _ _ (λ c. settled_again d (Rule.evaluate rule c)) kept hk))
            (filter_alike (settled d rule) false later
              (All-map _ _ (λ c. passed_again d (Rule.evaluate rule c)) later hl))
        ∙ append-nil (if decision_eq RetentionDecision.keep d then kept else [])
        ∙ all_kept_list d kept

    pub deferred-again : filter (deferred rule) (kept ++ later) ≡ later
    deferred-again =
        filter-append (deferred rule) kept later
        ∙ ap₂ ◌++◌
            (filter_alike (deferred rule) false kept
              (All-map _ _ (λ c. kept_not_deferred (Rule.evaluate rule c)) kept hk))
            (filter_alike (deferred rule) true later hl)

    -- What the rule makes of them, list by list.
    pub settled_by-again : settled_by rule (kept ++ later) ≡ all_kept kept
    settled_by-again = λ i. record {
      keep = settled-again RetentionDecision.keep i;
      drop = settled-again RetentionDecision.drop i;
      invalidate = settled-again RetentionDecision.invalidate i;
      defer = settled-again RetentionDecision.defer i;
    }

  pub by_default-again :
      (fallback : RetentionDecision) (batch : List (RetentionCandidate f)) (out : RetentionReport f)
      → out ≡ tabulate (λ d. if decision_eq fallback d then batch else [])
      → tabulate (λ d. if decision_eq fallback d then out.keep else []) ≡ all_kept out.keep
  by_default-again RetentionDecision.keep batch out e = refl
  by_default-again RetentionDecision.drop batch out e = rw e refl
  by_default-again RetentionDecision.invalidate batch out e = rw e refl
  by_default-again RetentionDecision.defer batch out e = rw e refl
