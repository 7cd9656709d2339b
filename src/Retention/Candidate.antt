-- ===== src/Retention/Candidate.antt =====
-- src/retention.rs, `RetentionCandidate`: a candidate and the facts that a backend attaches to it.
use rig_memory_policy.Prelude.{ℕ, ◌==◌, ◌-◌, Option, none, some, or_else, unwrap_or, if◌then◌else◌}
use rig_memory_policy.Text.{Text}
use rig_memory_policy.Metadata.{FrameMetadata}
use rig_memory_policy.Floats.{Floats}

-- `struct RetentionCandidate`; the numbers are `u64`.
pub record RetentionCandidate (f : Floats) : Type 0 where
  pub metadata : FrameMetadata
  pub sequence : Option ℕ
  pub written_at_unix_ms : Option ℕ
  pub last_accessed_unix_ms : Option ℕ
  pub retention_label : Option Text
  pub valid_from_unix_ms : Option ℕ
  pub valid_to_unix_ms : Option ℕ
  pub supersedes : Option Text
  pub importance : Option f.Single

module _ (f : Floats) where
  unfoldable pub new : FrameMetadata → RetentionCandidate f
  new metadata = record {
    metadata = metadata;
    sequence = none;
    written_at_unix_ms = none;
    last_accessed_unix_ms = none;
    retention_label = none;
    valid_from_unix_ms = none;
    valid_to_unix_ms = none;
    supersedes = none;
    importance = none;
  }

module _ {f : Floats} (c : RetentionCandidate f) where
  unfoldable pub with_sequence : ℕ → RetentionCandidate f
  with_sequence sequence = record c { sequence = some sequence }

  unfoldable pub with_written_at_unix_ms : ℕ → RetentionCandidate f
  with_written_at_unix_ms ms = record c { written_at_unix_ms = some ms }

  unfoldable pub with_last_accessed_unix_ms : ℕ → RetentionCandidate f
  with_last_accessed_unix_ms ms = record c { last_accessed_unix_ms = some ms }

  unfoldable pub with_retention_label : Text → RetentionCandidate f
  with_retention_label label = record c { retention_label = some label }

  unfoldable pub with_valid_from_unix_ms : ℕ → RetentionCandidate f
  with_valid_from_unix_ms ms = record c { valid_from_unix_ms = some ms }

  unfoldable pub with_valid_to_unix_ms : ℕ → RetentionCandidate f
  with_valid_to_unix_ms ms = record c { valid_to_unix_ms = some ms }

  unfoldable pub with_supersedes : Text → RetentionCandidate f
  with_supersedes entry = record c { supersedes = some entry }

  unfoldable pub with_importance : f.Single → RetentionCandidate f
  with_importance weight = record c { importance = some (f.clamp_unit weight) }

  -- The decay of a weight at a reference time; `saturating_sub` is the subtraction of ℕ.
  decayed : f.Double → ℕ → ℕ → ℕ → f.Double
  decayed weight as_of_unix_ms half_life_ms reference =
      let age = as_of_unix_ms - reference in
      f.mul weight (f.half_pow (f.div (f.of_u64 age) (f.of_u64 half_life_ms)))

  -- The two early returns of `salience`: no reference time, and no half-life.
  salience_at : f.Double → ℕ → ℕ → Option ℕ → f.Double
  salience_at weight as_of_unix_ms half_life_ms none = weight
  salience_at weight as_of_unix_ms half_life_ms (some reference) =
      if half_life_ms == 0 then weight else decayed weight as_of_unix_ms half_life_ms reference

  unfoldable pub salience : ℕ → ℕ → f.Double
  unfolding decayed salience_at
  salience as_of_unix_ms half_life_ms =
      salience_at (f.widen (unwrap_or c.importance f.one)) as_of_unix_ms half_life_ms
        (or_else c.valid_from_unix_ms c.written_at_unix_ms)
