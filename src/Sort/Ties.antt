-- ===== src/Sort/Ties.antt =====
-- A sort that breaks ties by position is the stable sort.
use rig_memory_policy.Prelude.{
  ℕ, suc, ◌<◌, compare, Ordering, Bool, true, false, List, [], ◌∷◌, ◌≡◌, refl, ap, ◌∙◌, arith, map,
  All, if◌then◌else◌,
}
use rig_memory_policy.Sort
use rig_memory_policy.Sort.{sort_by, then_with, is_gt}
use rig_memory_policy.Sort.Laws.{sort_by-All}

-- `enumerate`, from a position on.
unfoldable pub enumerate {ℓ} : {A : Type ℓ} → ℕ → List A → List (ℕ × A)
enumerate n [] = []
enumerate n (x ∷ xs) = (n, x) ∷ enumerate (suc n) xs

module _ {ℓ} {A : Type ℓ} where
  enumerate-All : (n m : ℕ) (xs : List A) → n < m → All (λ x. n < x.0) (enumerate m xs)
  unfolding enumerate
  enumerate-All n m [] h = tt
  enumerate-All n m (x ∷ xs) h = (h, enumerate-All n (suc m) xs (omega arith))

module _ {ℓ} {A : Type ℓ} (cmp : A → A → Ordering) where
  -- By the comparison, then by position.
  abbrev pub tied : ℕ × A → ℕ × A → Ordering
  tied a b = then_with (cmp a.1 b.1) (compare a.0 b.0)

  -- An earlier position never moves behind an equal element.
  tie : (o : Ordering) (n m : ℕ) → n < m → is_gt (then_with o (compare n m)) ≡ is_gt o
  tie o n m h = ground arith

  if-map :
      (b : Bool) (xs ys : List (ℕ × A))
      → map (λ x. x.1) (if b then xs else ys) ≡ (if b then map (λ x. x.1) xs else map (λ x. x.1) ys)
  if-map true xs ys = refl
  if-map false xs ys = refl

  insert-tied :
      (n : ℕ) (x : A) (ys : List (ℕ × A))
      → All (λ y. n < y.0) ys
      → map (λ y. y.1) (Sort.insert tied (n, x) ys) ≡ Sort.insert cmp x (map (λ y. y.1) ys)
  unfolding Sort.insert
  insert-tied n x [] h = refl
  insert-tied n x (y ∷ ys) (hy, h) = rw (tie (cmp x y.1) n y.0 hy) (
      if-map (is_gt (cmp x y.1)) (y ∷ Sort.insert tied (n, x) ys) ((n, x) ∷ y ∷ ys)
      ∙ ap (λ rest. if is_gt (cmp x y.1) then y.1 ∷ rest else x ∷ y.1 ∷ map (λ z. z.1) ys)
          (insert-tied n x ys h))

  pub sort_by-enumerate :
      (n : ℕ) (xs : List A) → map (λ x. x.1) (sort_by tied (enumerate n xs)) ≡ sort_by cmp xs
  unfolding sort_by enumerate
  sort_by-enumerate n [] = refl
  sort_by-enumerate n (x ∷ xs) =
      insert-tied n x (sort_by tied (enumerate (suc n) xs)) (
        sort_by-All tied (λ y. n < y.0) (enumerate (suc n) xs)
          (enumerate-All n (suc n) xs (omega arith)))
      ∙ ap (Sort.insert cmp x) (sort_by-enumerate (suc n) xs)
