-- ===== src/Retention/Policy/FirstMatch.antt =====
-- A policy against its specification: the first rule that fires decides.
use mathlib.Core.Path.{subst}
use rig_memory_policy.Prelude.{
  unwrap_or, List, [], ◌∷◌, map, find, ◌≡◌, ◌≢◌, ◌↔◌, inl, inr, refl, sym, ◌∙◌, arith,
}
use rig_memory_policy.Floats.{Floats}
use rig_memory_policy.Retention.Candidate.{RetentionCandidate}
use rig_memory_policy.Retention.Rule
use rig_memory_policy.Retention.Rule.{
  RetentionDecision, keep, drop, invalidate, defer, RetentionRule,
}
use rig_memory_policy.Retention.Rule.Firing.{
  verdict, Fires, evaluate-eq-verdict_iff, evaluate_cases,
}
use rig_memory_policy.Retention.Policy.{RetentionPolicy, evaluate, is_decided}

pub verdict-ne-defer : (r : RetentionRule) → verdict r ≢ defer
verdict-ne-defer (RetentionRule.keep_recent _) = cc
verdict-ne-defer _ = cc

module _ {f : Floats} (fallback : RetentionDecision) (c : RetentionCandidate f) where
  -- What the rules say of a candidate: the verdict of the first rule that fires, or the default.
  pub data Decides : List RetentionRule → RetentionDecision → Type 0 where
    by_default : Decides [] fallback
    by_rule :
        (r : RetentionRule) (rs : List RetentionRule) → Fires r c → Decides (r ∷ rs) (verdict r)
    passed :
        (r : RetentionRule) {rs : List RetentionRule} {d : RetentionDecision}
        → ¬ Fires r c
        → Decides rs d
        → Decides (r ∷ rs) d

  abbrev decide : List RetentionRule → RetentionDecision
  decide rs = unwrap_or (find is_decided (map (λ r. Rule.evaluate r c) rs)) fallback

  decide_fired :
      (r : RetentionRule) (rs : List RetentionRule) → Fires r c → decide (r ∷ rs) ≡ verdict r
  unfolding find
  decide_fired r rs h = ground (arith, (evaluate-eq-verdict_iff r c).1 h, verdict-ne-defer r)

  decide_passed :
      (r : RetentionRule) (rs : List RetentionRule) → ¬ Fires r c → decide (r ∷ rs) ≡ decide rs
  unfolding find
  decide_passed r rs h = elim (evaluate_cases r c) [
    | inl e ↦ absurd (h ((evaluate-eq-verdict_iff r c).0 e))
    | inr e ↦ rw e
  ]

  decide-Decides : (rs : List RetentionRule) → Decides rs (decide rs)
  unfolding find
  decide-Decides [] = by_default
  decide-Decides (r ∷ rs) = elim (evaluate_cases r c) [
    | inl e ↦
        let fires = (evaluate-eq-verdict_iff r c).0 e in
        subst (Decides (r ∷ rs)) (sym (decide_fired r rs fires)) (by_rule r rs fires)
    | inr e ↦
        let idle : ¬ Fires r c =
          λ h. verdict-ne-defer r (sym ((evaluate-eq-verdict_iff r c).1 h) ∙ e) in
        subst (Decides (r ∷ rs)) (sym (decide_passed r rs idle)) (passed r idle (decide-Decides rs))
  ]

  Decides-eq : {rs : List RetentionRule} {d : RetentionDecision} → Decides rs d → decide rs ≡ d
  unfolding find
  Decides-eq by_default = refl
  Decides-eq (by_rule r rs h) = decide_fired r rs h
  Decides-eq (passed r {rs = rs} h t) = decide_passed r rs h ∙ Decides-eq t

module _ {f : Floats} where
  -- A policy decides `d` exactly when the first rule that fires gives `d`, or no rule fires and `d` is
  -- the default decision.
  pub evaluate_iff :
      (p : RetentionPolicy) (c : RetentionCandidate f) (d : RetentionDecision)
      → (evaluate p c ≡ d) ↔ Decides p.fallback c p.rules d
  unfolding evaluate
  evaluate_iff p c d = (
    λ e. subst (Decides p.fallback c p.rules) e (decide-Decides p.fallback c p.rules),
    Decides-eq p.fallback c,
  )
