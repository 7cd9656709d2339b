-- ===== src/Retention/Rule.antt =====
-- src/retention.rs, `RetentionDecision` and `RetentionRule`.
pub mod Firing
use rig_memory_policy.Prelude.{
  ℕ, Bool, true, false, ltb, leb, Option, none, some, if◌then◌else◌, ◌≡◌, refl, arith,
}
use rig_memory_policy.Text.{Text, text_eq}
use rig_memory_policy.Metadata.{FrameKind, kind_eq}
use rig_memory_policy.Scope
use rig_memory_policy.Scope.{Scope, scope_matches}
use rig_memory_policy.Floats.{Floats}
use rig_memory_policy.Retention.Candidate.{RetentionCandidate}

-- `enum RetentionDecision`.
pub data RetentionDecision : Type 0 where
  keep drop invalidate defer : RetentionDecision

-- The derived `==`.
abbrev pub decision_eq : RetentionDecision → RetentionDecision → Bool
decision_eq keep keep = true
decision_eq drop drop = true
decision_eq invalidate invalidate = true
decision_eq defer defer = true
decision_eq _ _ = false

-- `enum RetentionRule`.
pub data RetentionRule : Type 0 where
  keep_frame_kind : FrameKind → RetentionRule
  keep_scope : Scope → RetentionRule
  keep_recent : ℕ → RetentionRule
  drop_written_before : ℕ → RetentionRule
  drop_last_accessed_before : ℕ → RetentionRule
  drop_outside_scope : Option Scope → RetentionRule
  keep_most_recent : ℕ → RetentionRule
  invalidate_expired : ℕ → RetentionRule
  invalidate_superseded : RetentionRule
  keep_top_by_salience : ℕ → ℕ → ℕ → RetentionRule
  keep_label : Text → RetentionRule
  drop_label : Text → RetentionRule

-- `o.map(test).unwrap_or(Defer)`, where the test gives the decision or defers.
abbrev pub on_fact : Option ℕ → (ℕ → Bool) → RetentionDecision → RetentionDecision
on_fact none test d = defer
on_fact (some v) test d = if test v then d else defer

-- A guard of the `match`: the decision if it holds, and else the last arm.
abbrev pub guarded : Bool → RetentionDecision → RetentionDecision
guarded b d = if b then d else defer

abbrev pub is_some {ℓ} : {A : Type ℓ} → Option A → Bool
is_some none = false
is_some (some a) = true

-- `label == Some(…)`.
abbrev pub has_label : Option Text → Text → Bool
has_label none label = false
has_label (some l) label = text_eq l label

-- `required_scope.as_ref().map(Scope::as_str)`.
abbrev pub required_text : Option Scope → Option Text
required_text none = none
required_text (some s) = some (Scope.as_str s)

module _ {f : Floats} where
  -- `RetentionRule::evaluate`.
  unfoldable pub evaluate : RetentionRule → RetentionCandidate f → RetentionDecision
  evaluate (keep_frame_kind kind) c = guarded (kind_eq c.metadata.kind kind) keep
  evaluate (keep_scope scope) c = guarded (Scope.matches scope c.metadata.scope) keep
  evaluate (keep_most_recent count) c = defer
  evaluate (keep_top_by_salience count half_life_ms as_of_unix_ms) c = defer
  evaluate (invalidate_expired as_of_unix_ms) c =
      on_fact c.valid_to_unix_ms (λ valid_to. leb valid_to as_of_unix_ms) invalidate
  evaluate invalidate_superseded c = guarded (is_some c.supersedes) invalidate
  evaluate (keep_recent min_sequence) c =
      on_fact c.sequence (λ sequence. leb min_sequence sequence) keep
  evaluate (drop_written_before older_than_unix_ms) c =
      on_fact c.written_at_unix_ms (λ written_at. ltb written_at older_than_unix_ms) drop
  evaluate (drop_last_accessed_before older_than_unix_ms) c =
      on_fact c.last_accessed_unix_ms (λ accessed. ltb accessed older_than_unix_ms) drop
  evaluate (drop_outside_scope required_scope) c =
      if scope_matches (required_text required_scope) c.metadata.scope then defer else drop
  evaluate (keep_label label) c = guarded (has_label c.retention_label label) keep
  evaluate (drop_label label) c = guarded (has_label c.retention_label label) drop
