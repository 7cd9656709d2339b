-- ===== src/Errors.antt =====
-- src/error.rs: the error type that the helpers share, and `Result` with it.
use rig_memory_policy.Prelude.{◌++◌}
use rig_memory_policy.Text.{Text, codes}

-- `enum PolicyError`.
pub data PolicyError : Type 0 where
  not_found : Text → PolicyError
  invalid_metadata : Text → PolicyError
  poisoned : PolicyError

-- What `Display` writes.
unfoldable pub to_string : PolicyError → Text
to_string (not_found key) = codes "entry not found: " ++ key
to_string (invalid_metadata message) = codes "metadata decode failed: " ++ message
to_string poisoned = codes "internal lock poisoned"

pub data Result {ℓ} (A : Type ℓ) : Type ℓ where
  ok : A → Result A
  err : PolicyError → Result A
