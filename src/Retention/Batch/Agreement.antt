-- ===== src/Retention/Batch/Agreement.antt =====
-- A policy with no ranking rule treats a batch as it treats each candidate.
use mathlib.Core.List.Perm
use rig_memory_policy.Prelude.{
  Bool, true, false, not, ◌&&◌, List, [], ◌∷◌, ◌++◌, ◌≡◌, refl, sym, ap, ◌∙◌, append_assoc,
  append-nil, Perm, arith, filter, find, All, if◌then◌else◌,
}
use rig_memory_policy.Prelude.Filters.{
  filter-passes, append_if, append_if_all, append_if_nil, filter_const,
}
use rig_memory_policy.Floats.{Floats}
use rig_memory_policy.Retention.Candidate.{RetentionCandidate}
use rig_memory_policy.Retention.Rule
use rig_memory_policy.Retention.Rule.{RetentionDecision, RetentionRule, decision_eq}
use rig_memory_policy.Retention.Policy
use rig_memory_policy.Retention.Policy.{RetentionPolicy, is_decided}
use rig_memory_policy.Retention.Batch.Report.{RetentionReport, empty, push, bucket}
use rig_memory_policy.Retention.Batch.{place, route, step, run, flush, evaluate_batch}

-- The rule looks at one candidate at a time.
abbrev pub IsPointwise : RetentionRule → Type 0
IsPointwise (RetentionRule.keep_most_recent _) = ⊥
IsPointwise (RetentionRule.keep_top_by_salience _ _ _) = ⊥
IsPointwise _ = Unit

abbrev pub policy : List RetentionRule → RetentionDecision → RetentionPolicy
policy rules fallback = record { rules = rules; fallback = fallback }

module _ {f : Floats} where
  pub bucket-push :
      (d e : RetentionDecision) (c : RetentionCandidate f) (r : RetentionReport f)
      → bucket d (push e c r) ≡ (if decision_eq e d then bucket d r ++ c ∷ [] else bucket d r)
  unfolding push
  bucket-push RetentionDecision.keep e c r = ground arith
  bucket-push RetentionDecision.drop e c r = ground arith
  bucket-push RetentionDecision.invalidate e c r = ground arith
  bucket-push RetentionDecision.defer e c r = ground arith

  pub bucket-empty : (d : RetentionDecision) → bucket {f = f} d empty ≡ []
  bucket-empty RetentionDecision.keep = refl
  bucket-empty _ = refl

  -- The candidates that a rule gives a decision, and those that it puts into the list of `d`.
  abbrev pub deferred : RetentionRule → RetentionCandidate f → Bool
  deferred rule c = not (is_decided (Rule.evaluate rule c))

  abbrev pub settled : RetentionDecision → RetentionRule → RetentionCandidate f → Bool
  settled d rule c = is_decided (Rule.evaluate rule c) && decision_eq (Rule.evaluate rule c) d

  place-next :
      (e : RetentionDecision) (c : RetentionCandidate f) (r : RetentionReport f)
      (next rest : List (RetentionCandidate f))
      → (place e c r next).1 ++ rest ≡ next ++ (if not (is_decided e) then c ∷ rest else rest)
  unfolding place
  place-next RetentionDecision.defer c r next rest = append_assoc next (c ∷ []) rest
  place-next _ c r next rest = refl

  place-bucket :
      (d e : RetentionDecision) (c : RetentionCandidate f) (r : RetentionReport f)
      (next rest : List (RetentionCandidate f))
      → bucket d (place e c r next).0 ++ rest
        ≡ bucket d r ++ (if is_decided e && decision_eq e d then c ∷ rest else rest)
  unfolding place
  place-bucket d RetentionDecision.defer c r next rest = refl
  place-bucket d e c r next rest =
      ap (λ xs. xs ++ rest) (bucket-push d e c r) ∙ append_if (decision_eq e d) (bucket d r) c rest

  pub route-next :
      (rule : RetentionRule) (batch : List (RetentionCandidate f)) (r : RetentionReport f)
      (next : List (RetentionCandidate f))
      → (route rule batch r next).1 ≡ next ++ filter (deferred rule) batch
  unfolding route filter
  route-next rule [] r next = sym (append-nil next)
  route-next rule (c ∷ batch) r next =
      let placed = place (Rule.evaluate rule c) c r next in
      route-next rule batch placed.0 placed.1
      ∙ place-next (Rule.evaluate rule c) c r next (filter (deferred rule) batch)

  pub route-bucket :
      (d : RetentionDecision) (rule : RetentionRule) (batch : List (RetentionCandidate f))
      (r : RetentionReport f) (next : List (RetentionCandidate f))
      → bucket d (route rule batch r next).0 ≡ bucket d r ++ filter (settled d rule) batch
  unfolding route filter
  route-bucket d rule [] r next = sym (append-nil _)
  route-bucket d rule (c ∷ batch) r next =
      let placed = place (Rule.evaluate rule c) c r next in
      route-bucket d rule batch placed.0 placed.1
      ∙ place-bucket d (Rule.evaluate rule c) c r next (filter (settled d rule) batch)

  pub flush-bucket :
      (d e : RetentionDecision) (batch : List (RetentionCandidate f)) (r : RetentionReport f)
      → bucket d (flush e batch r) ≡ bucket d r ++ (if decision_eq e d then batch else [])
  unfolding flush
  flush-bucket d e [] r = append_if_nil (decision_eq e d) (bucket d r)
  flush-bucket d e (c ∷ batch) r =
      flush-bucket d e batch (push e c r)
      ∙ ap (λ xs. xs ++ (if decision_eq e d then batch else [])) (bucket-push d e c r)
      ∙ append_if_all (decision_eq e d) (bucket d r) c batch

  pub evaluate_step :
      (rule : RetentionRule) (rules : List RetentionRule) (fallback : RetentionDecision)
      (c : RetentionCandidate f)
      → Policy.evaluate (policy (rule ∷ rules) fallback) c ≡ (
          if deferred rule c
          then Policy.evaluate (policy rules fallback) c
          else Rule.evaluate rule c)
  unfolding Policy.evaluate find
  evaluate_step rule rules fallback c = ground arith

  pub step_pointwise :
      (rule : RetentionRule) (r : RetentionReport f) (batch : List (RetentionCandidate f))
      → IsPointwise rule
      → step rule r batch ≡ route rule batch r []
  unfolding step
  step_pointwise (RetentionRule.keep_most_recent _) r batch h = absurd h
  step_pointwise (RetentionRule.keep_top_by_salience _ _ _) r batch h = absurd h
  step_pointwise _ r batch h = refl

  -- The candidates to which the policy as a whole gives the decision.
  abbrev pub decided_as : RetentionPolicy → RetentionDecision → RetentionCandidate f → Bool
  decided_as p d c = decision_eq (Policy.evaluate p c) d

  pub joined :
      (d : RetentionDecision) (rule : RetentionRule) (rules : List RetentionRule)
      (fallback : RetentionDecision) (c : RetentionCandidate f)
      → decided_as (policy (rule ∷ rules) fallback) d c
        ≡ (if deferred rule c then decided_as (policy rules fallback) d c else settled d rule c)
  joined d rule rules fallback c = ground (arith, evaluate_step rule rules fallback c)

  pub apart :
      (d : RetentionDecision) (rule : RetentionRule) (c : RetentionCandidate f)
      → deferred rule c ≡ true
      → settled d rule c ≡ false
  apart d rule c h = ground arith

  pub decided_by_default :
      (d fallback : RetentionDecision) (batch : List (RetentionCandidate f))
      → filter (decided_as (policy [] fallback) d) batch
        ≡ (if decision_eq fallback d then batch else [])
  unfolding Policy.evaluate find
  decided_by_default d fallback batch = filter_const (decision_eq fallback d) batch

  -- One rule that looks at single candidates, before the rest of the policy.
  route_agrees :
      (d fallback : RetentionDecision) (rule : RetentionRule) (rules : List RetentionRule)
      (r : RetentionReport f) (batch : List (RetentionCandidate f))
      → Perm
          (bucket d (route rule batch r []).0
            ++ filter (decided_as (policy rules fallback) d) (route rule batch r []).1)
          (bucket d r ++ filter (decided_as (policy (rule ∷ rules) fallback) d) batch)
  route_agrees d fallback rule rules r batch =
      rw (route-bucket d rule batch r [], route-next rule batch r [], append_assoc)
        (Perm.append_left (bucket d r)
          (filter-passes _ _ _ _ (joined d rule rules fallback) (apart d rule) batch))

  run_agrees :
      (d fallback : RetentionDecision) (rules : List RetentionRule)
      → All IsPointwise rules
      → (r : RetentionReport f) (batch : List (RetentionCandidate f))
      → Perm
          (bucket d (flush fallback (run rules r batch).1 (run rules r batch).0))
          (bucket d r ++ filter (decided_as (policy rules fallback) d) batch)
  unfolding run flush filter
  run_agrees d fallback [] _ r batch =
      rw (flush-bucket d fallback batch r, decided_by_default d fallback batch) Perm.rfl
  run_agrees d fallback (rule ∷ rules) _ r [] = rw (append-nil (bucket d r)) Perm.rfl
  run_agrees d fallback (rule ∷ rules) (h, hs) r (c ∷ batch) =
      rw (step_pointwise rule r (c ∷ batch) h) (
        Perm.trans
          (run_agrees d fallback rules hs (route rule (c ∷ batch) r []).0
            (route rule (c ∷ batch) r []).1)
          (route_agrees d fallback rule rules r (c ∷ batch)))

  -- Without ranking rules, the list of each decision holds exactly the candidates to which `evaluate`
  -- gives that decision.
  pub evaluate_batch-evaluate :
      (p : RetentionPolicy) (d : RetentionDecision) (candidates : List (RetentionCandidate f))
      → All IsPointwise p.rules
      → Perm (bucket d (evaluate_batch p candidates)) (filter (decided_as p d) candidates)
  unfolding evaluate_batch
  evaluate_batch-evaluate p d candidates h =
      rw (bucket-empty d) at (run_agrees d p.fallback p.rules h empty candidates)
