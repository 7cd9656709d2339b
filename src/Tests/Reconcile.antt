-- ===== src/Tests/Reconcile.antt =====
-- Runs of src/reconcile.rs.
use rig_memory_policy.Prelude.{[], ◌∷◌, ◌++◌, ◌≡◌, refl, any, if◌then◌else◌}
use rig_memory_policy.Text.{codes}
use rig_memory_policy.HashSet.{member, collect}
use rig_memory_policy.Reconcile
use rig_memory_policy.Reconcile.{ReconcileOp, DuplicateResolver, exact_hash}
use rig_memory_policy.Reconcile.History.{observe_all, same_hash, reconcile-observe_all}
use rig_memory_policy.Tests.Dedup.{flat_hash, flat_hash-IsBlake3}

nothing_seen :
    Reconcile.reconcile flat_hash (Reconcile.new flat_hash []) (codes "a") ≡ ReconcileOp.add
unfolding Reconcile.reconcile Reconcile.new member collect
nothing_seen = refl

reconcile-observe_all_example :
    (exact_hash flat_hash).reconcile
      (observe_all flat_hash (Reconcile.new flat_hash (codes "sky" ∷ [])) (codes "grass" ∷ []))
      (codes "sea")
    ≡ (if any (same_hash flat_hash (codes "sea")) ((codes "sky" ∷ []) ++ codes "grass" ∷ [])
        then ReconcileOp.noop
        else ReconcileOp.add)
reconcile-observe_all_example =
    reconcile-observe_all flat_hash flat_hash-IsBlake3 (codes "sky" ∷ []) (codes "grass" ∷ [])
      (codes "sea")
