-- ===== src/Sort/Selection.antt =====
-- The first elements of a sorted list: what is selected and what is left.
use mathlib.Core.List.Perm
use rig_memory_policy.Prelude.{
  take-nil, drop-nil, arith, ℕ, min, true, false, Bool, List, [], ◌∷◌, ◌++◌, ◌≡◌, refl, ap, ◌∙◌,
  Perm, map, length, take, drop, filter, All, take-append-drop, length-take, Ordering, zero, suc,
  if◌then◌else◌,
}
use rig_memory_policy.Sort
use rig_memory_policy.Sort.{sort_by, IsTotal, is_gt}
use rig_memory_policy.Sort.Laws.{
  sort_by-perm, sort_by-IsSorted, length-sort_by, Before, IsSorted, IsSorted-take_drop, same,
  sort_by_stable,
}

-- `top` is the selection of `count` elements of `batch`, and `rest` is what it leaves.
pub record IsSelection {ℓ} {A : Type ℓ} (cmp : A → A → Ordering) (count : ℕ)
    (batch top rest : List A) : Type ℓ where
  -- Nothing is lost or invented.
  pub perm : Perm (top ++ rest) batch
  -- There are `count` of them, or all if there are fewer.
  pub size : length top ≡ min count (length batch)
  -- Both parts are in order, and nothing that is left comes before anything that is selected.
  pub sorted : IsSorted cmp (top ++ rest)
  pub best : All (λ x. All (Before cmp x) rest) top
  -- Equal elements keep their order, so among them the earlier ones are selected.
  pub stable : (z : A) → filter (same cmp z) (top ++ rest) ≡ filter (same cmp z) batch

pub sort_by-IsSelection {ℓ} :
    {A : Type ℓ} (cmp : A → A → Ordering) (count : ℕ) (batch : List A)
    → IsTotal cmp
    → IsSelection cmp count batch (take count (sort_by cmp batch)) (drop count (sort_by cmp batch))
sort_by-IsSelection cmp count batch t =
    let ranked = sort_by cmp batch in
    let sorted = sort_by-IsSorted t batch in
    record {
      perm = rw take-append-drop (sort_by-perm cmp batch);
      size = length-take count ranked ∙ ap (min count) (length-sort_by cmp batch);
      sorted = rw take-append-drop sorted;
      best = IsSorted-take_drop cmp count ranked sorted;
      stable = λ z. rw take-append-drop (sort_by_stable t z batch);
    }

-- From nothing nothing is selected, by whatever comparison.
pub nothing-IsSelection {ℓ} :
    {A : Type ℓ} (cmp : A → A → Ordering) (count : ℕ) → IsSelection cmp count [] [] []
unfolding filter
nothing-IsSelection cmp count = record {
  perm = Perm.rfl;
  size = omega arith;
  sorted = tt;
  best = tt;
  stable = λ z. refl;
}

pub nil-IsSelection {ℓ} :
    {A : Type ℓ} (cmp : A → A → Ordering) (count : ℕ)
    → IsSelection cmp count [] (take count (sort_by cmp [])) (drop count (sort_by cmp []))
unfolding sort_by
nil-IsSelection cmp count =
    rw (take-nil {A = _} count, drop-nil {A = _} count) (nothing-IsSelection cmp count)

-- Sorting what a function makes of the elements is sorting the elements by it.
module _ {ℓ κ} {A : Type ℓ} {B : Type κ} (cmp : B → B → Ordering) (g : A → B) where
  abbrev pub through : A → A → Ordering
  through a a' = cmp (g a) (g a')

  if-map :
      (b : Bool) (xs ys : List A)
      → (if b then map g xs else map g ys) ≡ map g (if b then xs else ys)
  if-map true xs ys = refl
  if-map false xs ys = refl

  insert-map :
      (x : A) (xs : List A) → Sort.insert cmp (g x) (map g xs) ≡ map g (Sort.insert through x xs)
  unfolding Sort.insert
  insert-map x [] = refl
  insert-map x (y ∷ xs) =
      let after = is_gt (cmp (g x) (g y)) in
      ap (λ rest. if after then g y ∷ rest else g x ∷ g y ∷ map g xs) (insert-map x xs)
      ∙ if-map after (y ∷ Sort.insert through x xs) (x ∷ y ∷ xs)

  pub sort_by-map : (xs : List A) → sort_by cmp (map g xs) ≡ map g (sort_by through xs)
  unfolding sort_by
  sort_by-map [] = refl
  sort_by-map (x ∷ xs) = rw (sort_by-map xs) (insert-map x (sort_by through xs))

pub map-take {ℓ κ} :
    {A : Type ℓ} {B : Type κ} (g : A → B) (n : ℕ) (xs : List A)
    → take n (map g xs) ≡ map g (take n xs)
unfolding take
map-take g zero xs = refl
map-take g (suc n) [] = refl
map-take g (suc n) (x ∷ xs) = ap (◌∷◌ (g x)) (map-take g n xs)
