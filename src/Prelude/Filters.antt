-- ===== src/Prelude/Filters.antt =====
-- Filters in several passes, and lists that a test adds to.
use mathlib.Core.Path.{◌≡◌, refl, sym, ap}
use mathlib.Core.Bool.{Bool, true, false, not}
use mathlib.Core.Logic.{inl, inr}
use mathlib.Core.List.{List, [], ◌∷◌, ◌++◌, Perm, perm_middle, append_assoc, append-nil}
use mathlib.Core.List.Perm
use native.Mathlib.Omega.{arith}
use Prim.Native.Nat.{◌≤◌, ◌+◌}
use rig_memory_policy.Prelude.Tests.{if◌then◌else◌, Bool-cases}
use rig_memory_policy.Prelude.Lists.{filter, All, length, length-append}

-- Two passes over a list, the second over what the first test `m` let through, give what one pass
-- gives with the test `s` that joins them.
module _ {ℓ} {A : Type ℓ} (p q m s : A → Bool) (joined : (x : A) → s x ≡ (if m x then q x else p x))
    (apart : (x : A) → m x ≡ true → p x ≡ false) where
  pub filter-passes : (xs : List A) → Perm (filter p xs ++ filter q (filter m xs)) (filter s xs)
  unfolding filter
  filter-passes [] = Perm.rfl
  filter-passes (x ∷ xs) = elim (Bool-cases (m x)) [
    | inl e ↦
        rw (joined x, e, apart x e, filter)
          (elim (Bool-cases (q x)) [
            | inl e' ↦
                rw e' (Perm.trans (perm_middle (filter p xs) _) (Perm.cons x (filter-passes xs)))
            | inr e' ↦ rw e' (filter-passes xs)
          ])
    | inr e ↦
        rw (joined x, e, filter)
          (elim (Bool-cases (p x)) [
            | inl e' ↦ rw e' (Perm.cons x (filter-passes xs))
            | inr e' ↦ rw e' (filter-passes xs)
          ])
  ]

  -- What the first test does not let through.
  pub filter-stopped : (xs : List A) → filter s (filter (λ x. not (m x)) xs) ≡ filter p xs
  unfolding filter
  filter-stopped [] = refl
  filter-stopped (x ∷ xs) = elim (Bool-cases (m x)) [
    | inl e ↦ rw (e, apart x e) (filter-stopped xs)
    | inr e ↦ ground (arith, joined x, filter-stopped xs)
  ]

  pub filter-passed : (xs : List A) → All (λ x. m x ≡ true) xs → filter s xs ≡ filter q xs
  unfolding filter
  filter-passed [] _ = refl
  filter-passed (x ∷ xs) (e, h) = rw (joined x, e, filter-passed xs h) refl

module _ {ℓ} {A : Type ℓ} where
  pub filter-append :
      (p : A → Bool) (xs ys : List A) → filter p (xs ++ ys) ≡ filter p xs ++ filter p ys
  unfolding filter
  filter-append p [] ys = refl
  filter-append p (x ∷ xs) ys = ground (arith, filter-append p xs ys)

  pub filter-congr :
      (p q : A → Bool) → ((x : A) → p x ≡ q x) → (xs : List A) → filter p xs ≡ filter q xs
  unfolding filter
  filter-congr p q e [] = refl
  filter-congr p q e (x ∷ xs) = rw (e x, filter-congr p q e xs) refl

  pub filter_alike :
      (p : A → Bool) (b : Bool) (xs : List A)
      → All (λ x. p x ≡ b) xs
      → filter p xs ≡ (if b then xs else [])
  unfolding filter
  filter_alike p true [] _ = refl
  filter_alike p false [] _ = refl
  filter_alike p true (x ∷ xs) (e, h) = rw (e, filter_alike p true xs h) refl
  filter_alike p false (x ∷ xs) (e, h) = rw (e, filter_alike p false xs h) refl

  pub filter-All : (p : A → Bool) (xs : List A) → All (λ x. p x ≡ true) (filter p xs)
  unfolding filter
  filter-All p [] = tt
  filter-All p (x ∷ xs) = elim (Bool-cases (p x)) [
    | inl e ↦ rw (e, filter) (e, filter-All p xs)
    | inr e ↦ rw (e, filter) (filter-All p xs)
  ]

  pub count-append :
      (p : A → Bool) (xs ys : List A)
      → length (filter p (xs ++ ys)) ≡ length (filter p xs) + length (filter p ys)
  count-append p xs ys = rw filter-append (length-append (filter p xs) (filter p ys))

  pub length-filter : (p : A → Bool) (xs : List A) → length (filter p xs) ≤ length xs
  unfolding filter
  length-filter p [] = omega arith
  length-filter p (x ∷ xs) = ground (arith, length-filter p xs)

  pub filter-partition :
      (p : A → Bool) (xs : List A) → Perm (filter p xs ++ filter (λ x. not (p x)) xs) xs
  unfolding filter
  filter-partition p [] = Perm.rfl
  filter-partition p (x ∷ xs) = elim (Bool-cases (p x)) [
    | inl e ↦ rw (e, filter) (Perm.cons x (filter-partition p xs))
    | inr e ↦
        rw (e, filter)
          (Perm.trans (perm_middle (filter p xs) _) (Perm.cons x (filter-partition p xs)))
  ]

  pub append_if :
      (b : Bool) (xs : List A) (x : A) (rest : List A)
      → (if b then xs ++ x ∷ [] else xs) ++ rest ≡ xs ++ (if b then x ∷ rest else rest)
  append_if true xs x rest = append_assoc xs (x ∷ []) rest
  append_if false xs x rest = refl

  pub append_if_all :
      (b : Bool) (xs : List A) (x : A) (rest : List A)
      → (if b then xs ++ x ∷ [] else xs) ++ (if b then rest else [])
        ≡ xs ++ (if b then x ∷ rest else [])
  append_if_all true xs x rest = append_assoc xs (x ∷ []) rest
  append_if_all false xs x rest = refl

  pub append_if_nil : (b : Bool) (xs : List A) → xs ≡ xs ++ (if b then [] else [])
  append_if_nil true xs = sym (append-nil xs)
  append_if_nil false xs = sym (append-nil xs)

  pub filter_const : (b : Bool) (xs : List A) → filter (λ _. b) xs ≡ (if b then xs else [])
  unfolding filter
  filter_const true [] = refl
  filter_const true (x ∷ xs) = ap (◌∷◌ x) (filter_const true xs)
  filter_const false [] = refl
  filter_const false (x ∷ xs) = filter_const false xs
