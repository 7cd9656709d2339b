-- ===== src/Example/Summaries.antt =====
-- What the policy of the example keeps, and that the example succeeds.
use rig_memory_policy.Prelude.{
  Bool, true, false, find, ◌≡◌, ◌⊎◌, ◌↔◌, inl, inr, refl, arith, Option, none, some, if◌then◌else◌,
}
use rig_memory_policy.Text.{Text, codes}
use rig_memory_policy.Metadata.{FrameKind, kind_eq}
use rig_memory_policy.Scope
use rig_memory_policy.Scope.{scope_matches, normalize_scope}
use rig_memory_policy.Scope.Normal.{scope_path-normalize_scope}
use rig_memory_policy.Scope.Containment.{Matching, scope_matches_iff}
use rig_memory_policy.Floats.{Floats}
use rig_memory_policy.Errors.{ok}
use rig_memory_policy.HashSet.{member}
use rig_memory_policy.Dedup.Key.{Blake3}
use rig_memory_policy.Dedup.Seen
use rig_memory_policy.Retention.Candidate
use rig_memory_policy.Retention.Candidate.{RetentionCandidate}
use rig_memory_policy.Retention.Rule
use rig_memory_policy.Retention.Rule.{RetentionDecision}
use rig_memory_policy.Retention.Policy
use rig_memory_policy.Retention.Policy.Builder
use rig_memory_policy.Example.{
  scoped_summaries, summary_metadata, decision, run, main, after_contains, support,
}

in_scope_iff :
    (required : Text) (scope : Option Text)
    → (scope_matches (some (normalize_scope required)) scope ≡ true)
      ↔ Matching (some required) scope
in_scope_iff required none = scope_matches_iff (some (normalize_scope required)) none
in_scope_iff required (some given) =
    rw (scope_path-normalize_scope required) at
      (scope_matches_iff (some (normalize_scope required)) (some given))

kind_eq_iff :
    (kind : FrameKind)
    → (kind_eq kind FrameKind.compaction_summary ≡ true) ↔ (kind ≡ FrameKind.compaction_summary)
kind_eq_iff FrameKind.demoted_message = (λ e. cc, λ e. cc)
kind_eq_iff FrameKind.compaction_summary = (λ _. refl, λ _. refl)

choice_iff :
    (s k : Bool)
    → (let d : RetentionDecision =
          if s
          then if k then RetentionDecision.keep else RetentionDecision.drop
          else RetentionDecision.drop in
        ((d ≡ RetentionDecision.keep) ↔ ((s ≡ true) × (k ≡ true)))
        × ((d ≡ RetentionDecision.keep) ⊎ (d ≡ RetentionDecision.drop)))
choice_iff true true = ((λ _. (refl, refl), λ _. refl), inl refl)
choice_iff true false = ((λ e. cc, λ h. cc), inr refl)
choice_iff false k = ((λ e. cc, λ h. cc), inr refl)

module _ {f : Floats} where
  evaluate_lem :
      (required : Text) (c : RetentionCandidate f)
      → Policy.evaluate (scoped_summaries required) c ≡ (
          if scope_matches (some (normalize_scope required)) c.metadata.scope
          then if kind_eq c.metadata.kind FrameKind.compaction_summary
            then RetentionDecision.keep
            else RetentionDecision.drop
          else RetentionDecision.drop)
  unfolding scoped_summaries Policy.evaluate Rule.evaluate find Policy.new Policy.default_decision
      Builder.drop_outside_scope Builder.keep_summaries Scope.new Policy.rule
  evaluate_lem required c = ground arith

  -- The policy of the example, for any required scope, keeps exactly the compaction summaries whose
  -- scope has the path of the required one, and drops every other candidate.
  pub scoped_summaries_iff :
      (required : Text) (c : RetentionCandidate f)
      → ((Policy.evaluate (scoped_summaries required) c ≡ RetentionDecision.keep) ↔ (
          (c.metadata.kind ≡ FrameKind.compaction_summary)
          × Matching (some required) c.metadata.scope))
        × ((Policy.evaluate (scoped_summaries required) c ≡ RetentionDecision.keep)
            ⊎ (Policy.evaluate (scoped_summaries required) c ≡ RetentionDecision.drop))
  scoped_summaries_iff required c =
      let (in_scope, matching) = in_scope_iff required c.metadata.scope in
      let (is_kind, kind_is) = kind_eq_iff c.metadata.kind in
      let (kept, either) = choice_iff _ _ in
      rw (evaluate_lem required c) (
        (
          λ e. let (s, k) = kept.0 e in (is_kind k, in_scope s),
          λ h. kept.1 (matching h.1, kind_is h.0),
        ),
        either,
      )

module _ (f : Floats) (b : Blake3) where
  decision-eq-keep : decision f b ≡ RetentionDecision.keep
  unfolding decision summary_metadata Candidate.new Candidate.with_sequence support Scope.new
  decision-eq-keep =
      (scoped_summaries_iff (codes "tenant-a/support") _).0.1
        (refl, scope_path-normalize_scope (codes "tenant-a/support"))

  -- The key is new, so that `run` goes on to the decision, and that is to keep, whatever the hasher
  -- and the floats.
  main_lem : (run f b ≡ ok true) × (main f b ≡ true)
  unfolding run main after_contains Seen.new Seen.contains Seen.insert member
  main_lem = rw (decision-eq-keep) (refl, refl)
