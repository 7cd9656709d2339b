-- ===== src/Sort.antt =====
-- `slice::sort_by` of the Rust standard library, as the crate uses it: a stable sort by a
-- comparison into `Ordering`. What the library documents is proved in the child module.
pub mod Laws
pub mod Orders
pub mod Unique
pub mod Stable
pub mod Selection
pub mod Ties
pub mod Again
use rig_memory_policy.Prelude.{Bool, true, false, List, [], ◌∷◌, ◌≡◌, Ordering, if◌then◌else◌}

-- `Ordering::then_with`.
abbrev pub then_with : Ordering → Ordering → Ordering
then_with Ordering.lt o = Ordering.lt
then_with Ordering.eq o = o
then_with Ordering.gt o = Ordering.gt

-- `Ordering::reverse`.
abbrev pub swap : Ordering → Ordering
swap Ordering.lt = Ordering.gt
swap Ordering.eq = Ordering.eq
swap Ordering.gt = Ordering.lt

abbrev pub is_gt : Ordering → Bool
is_gt Ordering.gt = true
is_gt _ = false

abbrev pub is_eq : Ordering → Bool
is_eq Ordering.eq = true
is_eq _ = false

-- What `sort_by` asks of its comparison: a total preorder.
pub record IsTotal {ℓ} {A : Type ℓ} (cmp : A → A → Ordering) : Type ℓ where
  pub flip : (a b : A) → cmp b a ≡ swap (cmp a b)
  pub trans :
      (a b c : A) → is_gt (cmp a b) ≡ false → is_gt (cmp b c) ≡ false → is_gt (cmp a c) ≡ false

module _ {ℓ} {A : Type ℓ} (cmp : A → A → Ordering) where
  -- Put an element before the first one that it does not come after.
  insert : A → List A → List A
  insert x [] = x ∷ []
  insert x (y ∷ ys) = if is_gt (cmp x y) then y ∷ insert x ys else x ∷ y ∷ ys

  unfoldable pub sort_by : List A → List A
  unfolding insert
  sort_by [] = []
  sort_by (x ∷ xs) = insert x (sort_by xs)
