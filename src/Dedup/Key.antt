-- ===== src/Dedup/Key.antt =====
-- src/dedup.rs, `compute_key`. BLAKE3 is not part of the crate: the hasher is a parameter, with its
-- documented behaviour as named hypotheses.
pub mod Collisions
use mathlib.Core.List.{foldl, flatten}
use rig_memory_policy.Prelude.{ℕ, List, [], ◌∷◌, Option, none, some, ◌≡◌}
use rig_memory_policy.Text.{Text}
use rig_memory_policy.Text.Utf8.{Bytes, as_bytes}
use rig_memory_policy.Dedup.Hex.{DedupKey, IsKey}

-- `blake3::Hasher` and `blake3::hash`; the output is read as its bytes.
pub record Blake3 : Type 1 where
  pub Hasher : Type 0
  pub new : Hasher
  pub update : Hasher → Bytes → Hasher
  pub finalize : Hasher → DedupKey
  pub hash : Bytes → DedupKey

-- Hashing in pieces is hashing the concatenation, and a hash has 32 bytes.
pub record IsBlake3 (b : Blake3) : Type 0 where
  pub incremental :
      (parts : List Bytes) → b.finalize (foldl b.update b.new parts) ≡ b.hash (flatten parts)
  pub hash-IsKey : (input : Bytes) → IsKey (b.hash input)

-- `scope.unwrap_or("")`.
abbrev pub scope_text : Option Text → Text
scope_text none = []
scope_text (some s) = s

-- `compute_key`.
unfoldable pub compute_key : Blake3 → Text → Text → Text → Option Text → Text → DedupKey
compute_key b kind conversation_id role scope text =
    let h₀ = b.update b.new (as_bytes kind) in
    let h₁ = b.update h₀ (0 ∷ []) in
    let h₂ = b.update h₁ (as_bytes conversation_id) in
    let h₃ = b.update h₂ (0 ∷ []) in
    let h₄ = b.update h₃ (as_bytes role) in
    let h₅ = b.update h₄ (0 ∷ []) in
    let h₆ = b.update h₅ (as_bytes (scope_text scope)) in
    let h₇ = b.update h₆ (0 ∷ []) in let h₈ = b.update h₇ (as_bytes text) in b.finalize h₈
