-- ===== src/Tests/Scope.antt =====
-- Runs of src/scope.rs.
use rig_memory_policy.Prelude.{true, false, [], ◌∷◌, ◌≡◌, ◌↔◌, refl, some}
use rig_memory_policy.Text.{codes, trim, split, join, text_eq, strip_prefix}
use rig_memory_policy.Prelude.{filter}
use rig_memory_policy.Scope
use rig_memory_policy.Scope.{scope_path, normalize_scope, scope_matches}
use rig_memory_policy.Scope.Isolation.{contains_apart}
use rig_memory_policy.Scope.Containment.{Contained, contains_iff}

normalize_messy : normalize_scope (codes " /tenant-a//project-1/ ") ≡ codes "tenant-a/project-1"
unfolding normalize_scope trim split join filter
normalize_messy = refl

path_messy :
    scope_path (codes " /tenant-a//project-1/ ") ≡ codes "tenant-a" ∷ codes "project-1" ∷ []
unfolding scope_path trim split filter
path_messy = refl

contains_child :
    Scope.contains (Scope.new (codes "tenant-a")) (some (codes "tenant-a/project-1")) ≡ true
unfolding Scope.contains Scope.new normalize_scope trim split join filter strip_prefix text_eq
contains_child = refl

contains_no_sibling :
    Scope.contains (Scope.new (codes "tenant-a")) (some (codes "tenant-ab/project-1")) ≡ false
unfolding Scope.contains Scope.new normalize_scope trim split join filter strip_prefix text_eq
contains_no_sibling = refl

contains_iff_example :
    (Scope.contains (Scope.new (codes "a")) (some (codes "a/b/c")) ≡ true)
    ↔ Contained (scope_path (codes "a")) (scope_path (codes "a/b/c"))
contains_iff_example = contains_iff (codes "a") (codes "a/b/c")

apart :
    (Scope.contains (Scope.new (codes "tenant-a")) (some (codes "tenant-ab")) ≡ false)
    × (Scope.contains (Scope.new (codes "tenant-ab")) (some (codes "tenant-a")) ≡ false)
unfolding Scope.contains Scope.new normalize_scope trim split join filter strip_prefix text_eq
apart = (refl, refl)

contains_apart_example :
    Scope.contains (Scope.new (codes "tenant-ab")) (some (codes "tenant-a/project-1")) ≡ false
contains_apart_example =
    contains_apart (codes "tenant-a") (codes "tenant-ab") (some (codes "tenant-a/project-1"))
      apart.0 apart.1 contains_child
