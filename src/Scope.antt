-- ===== src/Scope.antt =====
-- src/scope.rs: slash-delimited scopes. A `Scope` is made by `new` alone, which normalises.
pub mod Normal
pub mod Containment
pub mod Paths
pub mod Isolation
use rig_memory_policy.Prelude.{
  Bool, true, false, not, ◌||◌, List, [], ◌∷◌, map, Option, none, some, ◌≡◌, refl, if◌then◌else◌,
  is_nil, filter,
}
use rig_memory_policy.Text.{Text, codes, text_eq, trim, split, join, strip_prefix, starts_with}

-- `"/"`.
abbrev pub slash : Text
slash = codes "/"

-- `scope_path`: the trimmed segments that are not empty.
unfoldable pub scope_path : Text → List Text
scope_path scope = filter (λ segment. not (is_nil segment)) (map trim (split b'/' scope))

-- `normalize_scope`.
unfoldable pub normalize_scope : Text → Text
normalize_scope scope =
    join b'/' (filter (λ segment. not (is_nil segment)) (map trim (split b'/' scope)))

-- `struct Scope(String)`.
pub record Scope : Type 0 where
  pub value : Text

-- `Scope::new`.
unfoldable pub new : Text → Scope
new value = record { value = normalize_scope value }

-- The two `From` implementations.
unfoldable pub from : Text → Scope
unfolding new
from value = new value

-- What `Display` writes.
unfoldable pub to_string : Scope → Text
to_string s = s.value

abbrev pub as_str : Scope → Text
as_str s = s.value

unfoldable pub is_empty : Scope → Bool
is_empty s = is_nil s.value

unfoldable pub path : Scope → List Text
path s = scope_path s.value

-- `candidate.map(…).unwrap_or(false)`.
unfoldable pub matches : Scope → Option Text → Bool
matches s none = false
matches s (some candidate) = text_eq (normalize_scope candidate) s.value

-- Whether a `/` follows the prefix that was stripped.
abbrev at_boundary : Option Text → Bool
at_boundary none = false
at_boundary (some suffix) = starts_with b'/' suffix

unfoldable pub contains : Scope → Option Text → Bool
unfolding starts_with
contains s none = false
contains s (some given) =
    let candidate = normalize_scope given in
    if is_nil s.value
    then is_nil candidate
    else text_eq candidate s.value || at_boundary (strip_prefix s.value candidate)

unfoldable pub scope_matches : Option Text → Option Text → Bool
unfolding matches new
scope_matches (some required) candidate = matches (new required) candidate
scope_matches none none = true
scope_matches none (some candidate) = is_nil (normalize_scope candidate)
