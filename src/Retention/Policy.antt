-- ===== src/Retention/Policy.antt =====
-- src/retention.rs, `RetentionPolicy`: an ordered list of rules with a default decision.
pub mod Builder
pub mod FirstMatch
use rig_memory_policy.Prelude.{unwrap_or, Bool, not, List, [], ◌∷◌, ◌++◌, map, find}
use rig_memory_policy.Floats.{Floats}
use rig_memory_policy.Retention.Candidate.{RetentionCandidate}
use rig_memory_policy.Retention.Rule
use rig_memory_policy.Retention.Rule.{RetentionDecision, defer, RetentionRule, decision_eq}

-- `struct RetentionPolicy`.
pub record RetentionPolicy : Type 0 where
  pub rules : List RetentionRule
  pub fallback : RetentionDecision

-- `new`, which is `default`.
unfoldable pub new : RetentionPolicy
new = record { rules = []; fallback = defer }

-- `rule`: push at the end.
unfoldable pub rule : RetentionPolicy → RetentionRule → RetentionPolicy
rule p r = record p { rules = p.rules ++ r ∷ [] }

unfoldable pub default_decision : RetentionPolicy → RetentionDecision → RetentionPolicy
default_decision p d = record p { fallback = d }

-- The accessor `rules`.
unfoldable pub rules : RetentionPolicy → List RetentionRule
rules p = p.rules

-- `*decision != RetentionDecision::Defer`.
abbrev pub is_decided : RetentionDecision → Bool
is_decided decision = not (decision_eq decision defer)

module _ {f : Floats} where
  -- `RetentionPolicy::evaluate`.
  unfoldable pub evaluate : RetentionPolicy → RetentionCandidate f → RetentionDecision
  evaluate p c = unwrap_or (find is_decided (map (λ r. Rule.evaluate r c) p.rules)) p.fallback
