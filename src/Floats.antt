-- ===== src/Floats.antt =====
-- What the crate uses of `f32` and `f64`. The language has no floats, so their types and operations
-- are a parameter; the laws that a theorem needs are named hypotheses about it.
use rig_memory_policy.Prelude.{ℕ, Bool, Option, Ordering}
use rig_memory_policy.Sort.{IsTotal}

pub record Floats : Type 1 where
  pub Single : Type 0
  pub Double : Type 0
  -- `1.0`, and `clamp(0.0, 1.0)`.
  pub one : Single
  pub clamp_unit : Single → Single
  -- On `f32`: `0.0`, `as f32`, `/`, `> 0.0` and `partial_cmp`.
  pub nothing : Single
  pub of_usize : ℕ → Single
  pub ratio : Single → Single → Single
  pub is_positive : Single → Bool
  pub partial_cmp : Single → Single → Option Ordering
  -- `f64::from`, `as f64`, `/`, `*` and `0.5_f64.powf`.
  pub widen : Single → Double
  pub of_u64 : ℕ → Double
  pub div : Double → Double → Double
  pub mul : Double → Double → Double
  pub half_pow : Double → Double
  -- On `f64`: `0.0`, `1.0`, `EPSILON`, `+` and `> 0.0`.
  pub null : Double
  pub unit : Double
  pub epsilon : Double
  pub add : Double → Double → Double
  pub exceeds_zero : Double → Bool
  -- `f64::total_cmp`.
  pub total_cmp : Double → Double → Ordering

-- `total_cmp` is documented to be a total order.
abbrev pub IsTotalCmp : Floats → Type 0
IsTotalCmp f = IsTotal f.total_cmp
