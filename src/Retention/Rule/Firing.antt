-- ===== src/Retention/Rule/Firing.antt =====
-- When a rule fires, said in terms of the candidate's facts, and that `evaluate` says so.
use mathlib.Core.Logic.Iff
use mathlib.Core.Path.{subst}
use rig_memory_policy.Prelude.{
  eq_of_some, if◌then◌else◌, ℕ, Bool, true, false, ◌≤◌, ◌<◌, Option, none, some, ◌≡◌, ◌≢◌, ◌↔◌, ◌⊎◌,
  inl, inr, refl, arith, ap, sym, ◌∙◌, Bool-cases,
}
use rig_memory_policy.Text.{Text, text_eq_iff}
use rig_memory_policy.Metadata.{FrameKind, kind_eq}
use rig_memory_policy.Scope
use rig_memory_policy.Scope.{Scope, scope_matches, normalize_scope}
use rig_memory_policy.Scope.Containment.{Matching, scope_matches_iff}
use rig_memory_policy.Floats.{Floats}
use rig_memory_policy.Retention.Candidate.{RetentionCandidate}
use rig_memory_policy.Retention.Rule.{
  RetentionDecision, keep, drop, invalidate, defer, RetentionRule, on_fact, guarded, is_some,
  has_label, required_text, evaluate,
}

-- The decision that a rule gives when it fires.
abbrev pub verdict : RetentionRule → RetentionDecision
verdict (RetentionRule.keep_frame_kind _) = keep
verdict (RetentionRule.keep_scope _) = keep
verdict (RetentionRule.keep_recent _) = keep
verdict (RetentionRule.drop_written_before _) = drop
verdict (RetentionRule.drop_last_accessed_before _) = drop
verdict (RetentionRule.drop_outside_scope _) = drop
verdict (RetentionRule.keep_most_recent _) = keep
verdict (RetentionRule.invalidate_expired _) = invalidate
verdict RetentionRule.invalidate_superseded = invalidate
verdict (RetentionRule.keep_top_by_salience _ _ _) = keep
verdict (RetentionRule.keep_label _) = keep
verdict (RetentionRule.drop_label _) = drop

-- The fact is there, and it satisfies `P`. A missing fact satisfies nothing.
abbrev pub Has {ℓ} : {A : Type ℓ} → Option A → (A → Type 0) → Type ℓ
Has o P = (v : _) × (o ≡ some v) × P v

module _ {f : Floats} where
  -- The two ranking rules never fire for a single candidate.
  abbrev pub Fires : RetentionRule → RetentionCandidate f → Type 0
  Fires (RetentionRule.keep_frame_kind kind) c = c.metadata.kind ≡ kind
  Fires (RetentionRule.keep_scope scope) c =
      Has c.metadata.scope (λ t. normalize_scope t ≡ Scope.as_str scope)
  Fires (RetentionRule.keep_recent min_sequence) c = Has c.sequence (λ s. min_sequence ≤ s)
  Fires (RetentionRule.drop_written_before limit) c = Has c.written_at_unix_ms (λ t. t < limit)
  Fires (RetentionRule.drop_last_accessed_before limit) c =
      Has c.last_accessed_unix_ms (λ t. t < limit)
  Fires (RetentionRule.drop_outside_scope required) c =
      ¬ Matching (required_text required) c.metadata.scope
  Fires (RetentionRule.keep_most_recent _) c = ⊥
  Fires (RetentionRule.invalidate_expired as_of) c = Has c.valid_to_unix_ms (λ t. t ≤ as_of)
  Fires RetentionRule.invalidate_superseded c = Has c.supersedes (λ _. Unit)
  Fires (RetentionRule.keep_top_by_salience _ _ _) c = ⊥
  Fires (RetentionRule.keep_label label) c = c.retention_label ≡ some label
  Fires (RetentionRule.drop_label label) c = c.retention_label ≡ some label

guarded_iff : (b : Bool) (d : RetentionDecision) → d ≢ defer → (guarded b d ≡ d) ↔ (b ≡ true)
guarded_iff b d ne = ground arith

on_fact_iff :
    (o : Option ℕ) (test : ℕ → Bool) (d : RetentionDecision) {P : ℕ → Type 0}
    → d ≢ defer
    → ((v : ℕ) → (test v ≡ true) ↔ P v)
    → (on_fact o test d ≡ d) ↔ Has o P
on_fact_iff none test d ne same = (λ e. absurd (ne (sym e)), λ h. cc h.1)
on_fact_iff (some v) test d {P} ne same = (
  λ e. (v, refl, (same v).0 ((guarded_iff (test v) d ne).0 e)),
  λ (w, e, p). (guarded_iff (test v) d ne).1 ((same v).1 (subst P (sym (eq_of_some e)) p)),
)

kind_eq_iff : (a b : FrameKind) → (kind_eq a b ≡ true) ↔ (a ≡ b)
kind_eq_iff a b = ground arith

matches_iff :
    (s : Scope) (o : Option Text)
    → (Scope.matches s o ≡ true) ↔ Has o (λ t. normalize_scope t ≡ Scope.as_str s)
unfolding Scope.matches
matches_iff s none = (λ e. cc, λ h. cc h.1)
matches_iff s (some t) = (
  λ e. (t, refl, (text_eq_iff _ _).0 e),
  λ (u, e, p). (text_eq_iff _ _).1 (ap normalize_scope (eq_of_some e) ∙ p),
)

is_some_iff : (o : Option Text) → (is_some o ≡ true) ↔ Has o (λ _. Unit)
is_some_iff none = (λ e. cc, λ h. cc h.1)
is_some_iff (some t) = (λ _. (t, refl, tt), λ _. refl)

clash : {b : Bool} → b ≡ false → b ≡ true → ⊥
clash e h = cc

-- The rule on scopes drops where the scopes do not match.
unmatched_iff :
    (required candidate : Option Text)
    → ((if scope_matches required candidate then defer else drop) ≡ drop)
      ↔ (¬ Matching required candidate)
unmatched_iff required candidate = elim (Bool-cases (scope_matches required candidate)) [
  | inl e ↦ rw e (λ h. cc, λ no. absurd (no ((scope_matches_iff required candidate).0 e)))
  | inr e ↦ rw e (λ _ m. clash e ((scope_matches_iff required candidate).1 m), λ _. refl)
]

has_label_iff : (o : Option Text) (l : Text) → (has_label o l ≡ true) ↔ (o ≡ some l)
has_label_iff none l = (λ e. cc, λ e. cc)
has_label_iff (some k) l =
    (λ e. ap some ((text_eq_iff k l).0 e), λ e. (text_eq_iff k l).1 (eq_of_some e))

module _ {f : Floats} where
  pub evaluate-eq-verdict_iff :
      (r : RetentionRule) (c : RetentionCandidate f) → (evaluate r c ≡ verdict r) ↔ Fires r c
  unfolding evaluate
  evaluate-eq-verdict_iff (RetentionRule.keep_frame_kind kind) c =
      Iff.trans (guarded_iff _ _ (λ e. cc)) (kind_eq_iff _ _)
  evaluate-eq-verdict_iff (RetentionRule.keep_scope scope) c =
      Iff.trans (guarded_iff _ _ (λ e. cc)) (matches_iff _ _)
  evaluate-eq-verdict_iff (RetentionRule.keep_recent m) c =
      on_fact_iff _ _ _ (λ e. cc) (λ v. ground arith)
  evaluate-eq-verdict_iff (RetentionRule.drop_written_before t) c =
      on_fact_iff _ _ _ (λ e. cc) (λ v. ground arith)
  evaluate-eq-verdict_iff (RetentionRule.drop_last_accessed_before t) c =
      on_fact_iff _ _ _ (λ e. cc) (λ v. ground arith)
  evaluate-eq-verdict_iff (RetentionRule.drop_outside_scope required) c = unmatched_iff _ _
  evaluate-eq-verdict_iff (RetentionRule.keep_most_recent _) c = (λ e. cc, λ h. absurd h)
  evaluate-eq-verdict_iff (RetentionRule.invalidate_expired t) c =
      on_fact_iff _ _ _ (λ e. cc) (λ v. ground arith)
  evaluate-eq-verdict_iff RetentionRule.invalidate_superseded c =
      Iff.trans (guarded_iff _ _ (λ e. cc)) (is_some_iff _)
  evaluate-eq-verdict_iff (RetentionRule.keep_top_by_salience _ _ _) c = (λ e. cc, λ h. absurd h)
  evaluate-eq-verdict_iff (RetentionRule.keep_label label) c =
      Iff.trans (guarded_iff _ _ (λ e. cc)) (has_label_iff _ _)
  evaluate-eq-verdict_iff (RetentionRule.drop_label label) c =
      Iff.trans (guarded_iff _ _ (λ e. cc)) (has_label_iff _ _)

  -- A rule has no third decision.
  pub evaluate_cases :
      (r : RetentionRule) (c : RetentionCandidate f)
      → (evaluate r c ≡ verdict r) ⊎ (evaluate r c ≡ defer)
  unfolding evaluate
  evaluate_cases (RetentionRule.keep_frame_kind _) c = ground arith
  evaluate_cases _ c = ground arith

  -- A rule gives its verdict exactly when it fires, in terms of the candidate's facts, and it defers
  -- in every other case.
  pub evaluate-Fires :
      (r : RetentionRule) (c : RetentionCandidate f)
      → ((evaluate r c ≡ verdict r) ↔ Fires r c)
        × ((evaluate r c ≡ verdict r) ⊎ (evaluate r c ≡ defer))
  evaluate-Fires r c = (evaluate-eq-verdict_iff r c, evaluate_cases r c)
