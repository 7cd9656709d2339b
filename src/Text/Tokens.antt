-- ===== src/Text/Tokens.antt =====
-- Tokens of a text, by `split_whitespace` and the Unicode tables. The tables for letters and case
-- are not part of the crate: they are a parameter.
use rig_memory_policy.Prelude.{ℕ, Bool, not, List, [], ◌∷◌, filter, is_nil, if◌then◌else◌}
use rig_memory_policy.Text.{Text, is_whitespace, extend_first}

-- `char::is_alphanumeric` and `str::to_lowercase`.
pub record Unicode : Type 0 where
  pub is_alphanumeric : ℕ → Bool
  pub to_lowercase : Text → Text

-- `split` by a test on characters.
unfoldable pub split_by : (ℕ → Bool) → Text → List Text
split_by p [] = [] ∷ []
split_by p (c ∷ s) = let parts = split_by p s in if p c then [] ∷ parts else extend_first c parts

unfoldable pub split_whitespace : Text → List Text
unfolding split_by
split_whitespace s = filter (λ part. not (is_nil part)) (split_by is_whitespace s)

-- The test that the callers pass to `trim_matches`.
abbrev pub is_separator : Unicode → ℕ → Bool
is_separator u ch = not (u.is_alphanumeric ch)
