-- ===== src/Tests/Unit/Scopes.antt =====
-- src/scope.rs, its tests.
use rig_memory_policy.Prelude.{
  Bool, true, false, not, ◌&&◌, List, [], ◌∷◌, ◌≡◌, refl, none, some, filter,
}
use rig_memory_policy.Text.{Text, codes, split, trim, join, text_eq, strip_prefix, starts_with}
use rig_memory_policy.Scope
use rig_memory_policy.Scope.{Scope, scope_path, normalize_scope, scope_matches}

abbrev pub texts_eq : List Text → List Text → Bool
texts_eq [] [] = true
texts_eq (s ∷ ss) (t ∷ ts) = text_eq s t && texts_eq ss ts
texts_eq _ _ = false

abbrev normalizes_scope_segments : Bool
normalizes_scope_segments =
    let scope = Scope.new (codes " /tenant-a//project-1/ ") in
    text_eq (Scope.as_str scope) (codes "tenant-a/project-1")
    && texts_eq (Scope.path scope) (codes "tenant-a" ∷ codes "project-1" ∷ [])

abbrev exact_match_uses_normalized_values : Bool
exact_match_uses_normalized_values =
    let scope = Scope.new (codes "tenant-a/project-1") in
    Scope.matches scope (some (codes "/tenant-a/project-1/"))
    && not (Scope.matches scope (some (codes "tenant-a/project-2")))
    && not (Scope.matches scope none)

abbrev contains_accepts_descendants_only_on_segment_boundaries : Bool
contains_accepts_descendants_only_on_segment_boundaries =
    let scope = Scope.new (codes "tenant-a") in
    Scope.contains scope (some (codes "tenant-a"))
    && Scope.contains scope (some (codes "tenant-a/project-1"))
    && not (Scope.contains scope (some (codes "tenant-ab/project-1")))

abbrev optional_scope_matching_treats_none_as_unscoped : Bool
optional_scope_matching_treats_none_as_unscoped =
    scope_matches none none
    && scope_matches none (some (codes "/"))
    && not (scope_matches none (some (codes "tenant-a")))
    && scope_matches (some (codes "tenant-a")) (some (codes "/tenant-a/"))

abbrev is_idempotent_at : Text → Bool
is_idempotent_at input =
    let once = normalize_scope input in
    text_eq (normalize_scope once) once && text_eq (Scope.as_str (Scope.new once)) once

abbrev all_idempotent : List Text → Bool
all_idempotent [] = true
all_idempotent (input ∷ inputs) = is_idempotent_at input && all_idempotent inputs

abbrev normalize_is_idempotent_over_varied_inputs : Bool
normalize_is_idempotent_over_varied_inputs = all_idempotent (
    codes ""
    ∷ codes "/"
    ∷ codes "//"
    ∷ codes " / "
    ∷ codes "tenant-a"
    ∷ codes "/tenant-a/"
    ∷ codes " /tenant-a//project-1/ "
    ∷ codes "a/b/c/d/e"
    ∷ codes "  spaced  /  segments  "
    ∷ codes "trailing/"
    ∷ codes "/leading"
    ∷ codes "lots////of///slashes"
    ∷ [])

scopes_pass :
    (normalizes_scope_segments && exact_match_uses_normalized_values
      && contains_accepts_descendants_only_on_segment_boundaries
      && optional_scope_matching_treats_none_as_unscoped
      && normalize_is_idempotent_over_varied_inputs)
    ≡ true
unfolding Scope.new Scope.path Scope.matches Scope.contains scope_matches scope_path normalize_scope
    split trim join strip_prefix starts_with text_eq filter
scopes_pass = refl
