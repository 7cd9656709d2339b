-- ===== src/Sort/Laws.antt =====
-- What `sort_by` promises: a rearrangement, in order, that keeps the order of equal elements.
use mathlib.Core.List.Perm
use rig_memory_policy.Prelude.{
  ℕ, true, false, Bool, List, [], ◌∷◌, ◌++◌, ◌≡◌, refl, ap, suc, length, ◌∙◌, arith, Perm, Ordering,
  All, Bool-cases, inl, inr, filter, filter-cons_congr, take, drop, take-append-drop,
}
use rig_memory_policy.Sort.{insert, sort_by, is_gt, is_eq, IsTotal}

module _ {ℓ} {A : Type ℓ} (cmp : A → A → Ordering) where
  -- `x` may stand before `y`.
  abbrev pub Before : A → A → Type 0
  Before x y = is_gt (cmp x y) ≡ false

  abbrev pub IsSorted : List A → Type 0
  IsSorted [] = Unit
  IsSorted (x ∷ xs) = All (Before x) xs × IsSorted xs

  -- The elements that are equal to `z` for the comparison.
  abbrev pub same : A → A → Bool
  same z y = is_eq (cmp z y)

  insert-perm : (x : A) (l : List A) → Perm (insert cmp x l) (x ∷ l)
  unfolding insert
  insert-perm x [] = Perm.rfl
  insert-perm x (y ∷ ys) = elim (Bool-cases (is_gt (cmp x y))) [
    | inl e ↦ rw (e, insert) (Perm.trans (Perm.cons y (insert-perm x ys)) (Perm.swap x y ys))
    | inr e ↦ rw (e, insert) Perm.rfl
  ]

  -- Sorting loses and invents nothing.
  pub sort_by-perm : (l : List A) → Perm (sort_by cmp l) l
  unfolding sort_by
  sort_by-perm [] = Perm.rfl
  sort_by-perm (x ∷ xs) =
      Perm.trans (insert-perm x (sort_by cmp xs)) (Perm.cons x (sort_by-perm xs))

  length-insert : (x : A) (l : List A) → length (insert cmp x l) ≡ suc (length l)
  unfolding insert
  length-insert x [] = refl
  length-insert x (y ∷ ys) = ground (arith, length-insert x ys)

  pub length-sort_by : (l : List A) → length (sort_by cmp l) ≡ length l
  unfolding sort_by
  length-sort_by [] = refl
  length-sort_by (x ∷ xs) = length-insert x (sort_by cmp xs) ∙ ap suc (length-sort_by xs)

  insert-All {κ} : (P : A → Type κ) (x : A) (l : List A) → P x → All P l → All P (insert cmp x l)
  unfolding insert
  insert-All P x [] px _ = (px, tt)
  insert-All P x (y ∷ ys) px (py, h) = elim (Bool-cases (is_gt (cmp x y))) [
    | inl e ↦ rw (e, insert) (py, insert-All P x ys px h)
    | inr e ↦ rw (e, insert) (px, (py, h))
  ]

  pub sort_by-All {κ} : (P : A → Type κ) (l : List A) → All P l → All P (sort_by cmp l)
  unfolding sort_by
  sort_by-All P [] _ = tt
  sort_by-All P (x ∷ xs) (px, h) = insert-All P x (sort_by cmp xs) px (sort_by-All P xs h)

  -- The elements of a sorted list's front come before those of its back.
  pub IsSorted-split : (xs ys : List A) → IsSorted (xs ++ ys) → All (λ x. All (Before x) ys) xs
  IsSorted-split [] ys _ = tt
  IsSorted-split (x ∷ xs) ys (h, s) = (back xs h, IsSorted-split xs ys s)
    where
      back : (zs : List A) → All (Before x) (zs ++ ys) → All (Before x) ys
      back [] k = k
      back (z ∷ zs) (_, k) = back zs k

  -- In particular those that `take n` gives and those that `drop n` leaves.
  pub IsSorted-take_drop :
      (n : ℕ) (l : List A) → IsSorted l → All (λ x. All (Before x) (drop n l)) (take n l)
  IsSorted-take_drop n l s = IsSorted-split (take n l) (drop n l) (rw take-append-drop s)

module _ {ℓ} {A : Type ℓ} {cmp : A → A → Ordering} (t : IsTotal cmp) where
  All-Before : (x y : A) (l : List A) → Before cmp x y → All (Before cmp y) l → All (Before cmp x) l
  All-Before x y [] p _ = tt
  All-Before x y (z ∷ l) p (q, h) = (t.trans x y z p q, All-Before x y l p h)

  Before-flip : (x y : A) → is_gt (cmp x y) ≡ true → Before cmp y x
  Before-flip x y e = ground (arith, t.flip x y)

  insert-IsSorted : (x : A) (l : List A) → IsSorted cmp l → IsSorted cmp (insert cmp x l)
  unfolding insert
  insert-IsSorted x [] _ = (tt, tt)
  insert-IsSorted x (y ∷ ys) (h, s) = elim (Bool-cases (is_gt (cmp x y))) [
    | inl e ↦
        rw (e, insert)
          (insert-All cmp (Before cmp y) x ys (Before-flip x y e) h, insert-IsSorted x ys s)
    | inr e ↦ rw (e, insert) ((e, All-Before x y ys e h), (h, s))
  ]

  -- With a total preorder the result is in order.
  pub sort_by-IsSorted : (l : List A) → IsSorted cmp (sort_by cmp l)
  unfolding sort_by
  sort_by-IsSorted [] = tt
  sort_by-IsSorted (x ∷ xs) = insert-IsSorted x (sort_by cmp xs) (sort_by-IsSorted xs)

  -- Equal elements are never moved over one another.
  same-ne_of_gt : (z x y : A) → same cmp z x ≡ true → is_gt (cmp x y) ≡ true → same cmp z y ≡ false
  same-ne_of_gt z x y e g = ground (arith, t.flip z x, t.trans x z y)

  filter-insert :
      (z x : A) (l : List A) → filter (same cmp z) (insert cmp x l) ≡ filter (same cmp z) (x ∷ l)
  unfolding insert filter
  filter-insert z x [] = refl
  filter-insert z x (y ∷ ys) = elim (Bool-cases (is_gt (cmp x y))) [
    | inl g ↦ ground (arith, filter-insert z x ys, same-ne_of_gt z x y)
    | inr g ↦ ground arith
  ]

  -- The sort is stable: equal elements keep their order.
  pub sort_by_stable :
      (z : A) (l : List A) → filter (same cmp z) (sort_by cmp l) ≡ filter (same cmp z) l
  unfolding sort_by
  sort_by_stable z [] = refl
  sort_by_stable z (x ∷ xs) =
      filter-insert z x (sort_by cmp xs)
      ∙ filter-cons_congr (same cmp z) x _ xs (sort_by_stable z xs)
