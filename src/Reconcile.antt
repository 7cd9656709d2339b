-- ===== src/Reconcile.antt =====
-- src/reconcile.rs: how an incoming item is consolidated with what is stored.
pub mod History
use rig_memory_policy.Prelude.{ℕ, Bool, true, false, List, map, length, is_nil, if◌then◌else◌}
use rig_memory_policy.Text.{Text}
use rig_memory_policy.Text.Utf8.{as_bytes}
use rig_memory_policy.HashSet
use rig_memory_policy.HashSet.{member, collect}
use rig_memory_policy.Dedup.Hex.{hex_encode_key}
use rig_memory_policy.Dedup.Key.{Blake3}

-- `enum ReconcileOp`; two of the constructors carry the target.
pub data ReconcileOp : Type 0 where
  add : ReconcileOp
  update : Text → ReconcileOp
  delete : Text → ReconcileOp
  noop : ReconcileOp

-- `trait DuplicateResolver`.
pub record DuplicateResolver (R : Type 0) : Type 0 where
  pub reconcile : R → Text → ReconcileOp

-- `struct ExactHashResolver`.
pub record ExactHashResolver : Type 0 where
  pub seen : List Text

module _ (b : Blake3) where
  unfoldable pub content_hash : Text → Text
  content_hash text = hex_encode_key (b.hash (as_bytes text))

  unfoldable pub new : List Text → ExactHashResolver
  new existing = record { seen = collect (map content_hash existing) }

  unfoldable pub observe : ExactHashResolver → Text → ExactHashResolver
  observe r text = record { seen = HashSet.add (content_hash text) r.seen }

  unfoldable pub reconcile : ExactHashResolver → Text → ReconcileOp
  reconcile r incoming =
      if member (content_hash incoming) r.seen then ReconcileOp.noop else ReconcileOp.add

  -- `impl DuplicateResolver for ExactHashResolver`.
  abbrev pub exact_hash : DuplicateResolver ExactHashResolver
  exact_hash = record { reconcile = reconcile }

unfoldable pub len : ExactHashResolver → ℕ
len r = length r.seen

unfoldable pub is_empty : ExactHashResolver → Bool
is_empty r = is_nil r.seen
