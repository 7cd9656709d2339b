-- ===== src/Prelude/Members.antt =====
-- Rearrangements: what holds of all elements, and how many elements there are.
use native.Mathlib.Nat.{ℕ_set}
use mathlib.Core.Path.{◌≡◌, refl, ap, ◌∙◌}
use mathlib.Core.Logic.{∥∥₁_elim}
use mathlib.Core.Logic.Or
use mathlib.Core.Bool.{Bool, true, false}
use mathlib.Core.List.{
  List, [], ◌∷◌, Perm, Permᴰ, Mem, Mem-prop, mem-cons, mem-cons_self, mem-cons_of_mem, not-mem-nil,
}
use mathlib.Core.List.Perm
use native.Mathlib.Omega.{arith}
use Prim.Native.Nat.{suc}
use rig_memory_policy.Prelude.Tests.{if◌then◌else◌}
use rig_memory_policy.Prelude.Lists.{All, length, filter}

module _ {ℓ κ} {A : Type ℓ} (P : A → Type κ) where
  pub All-of_mem : (xs : List A) → ((x : A) → Mem x xs → P x) → All P xs
  All-of_mem [] h = tt
  All-of_mem (x ∷ xs) h = (h x mem-cons_self, All-of_mem xs (λ y m. h y (mem-cons_of_mem _ m)))

  pub mem-of_All : ((x : A) → IsProp (P x)) → (xs : List A) → All P xs → (x : A) → Mem x xs → P x
  mem-of_All prop [] h x m = absurd (not-mem-nil m)
  mem-of_All prop (y ∷ ys) (py, h) x m =
      Or.elim (prop x) (mem-cons.0 m) (λ e. rw e py) (mem-of_All prop ys h x)

  -- Only which elements there are counts, not their order.
  pub All-of_perm : ((x : A) → IsProp (P x)) → (xs ys : List A) → Perm xs ys → All P ys → All P xs
  All-of_perm prop xs ys p h = All-of_mem xs (λ x m. mem-of_All prop ys h x ((Perm.mem_iff p).0 m))

module _ {ℓ} {A : Type ℓ} where
  length_permᴰ : {xs ys : List A} → Permᴰ xs ys → length xs ≡ length ys
  length_permᴰ Permᴰ.nil = refl
  length_permᴰ (Permᴰ.cons e p) = ap suc (length_permᴰ p)
  length_permᴰ (Permᴰ.swap e e') = refl
  length_permᴰ (Permᴰ.trans p q) = length_permᴰ p ∙ length_permᴰ q

  pub length_perm : (xs ys : List A) → Perm xs ys → length xs ≡ length ys
  length_perm xs ys p = ∥∥₁_elim p (ℕ_set _ _) length_permᴰ

  count_permᴰ :
      (t : A → Bool) {xs ys : List A} → Permᴰ xs ys → length (filter t xs) ≡ length (filter t ys)
  unfolding filter
  count_permᴰ t Permᴰ.nil = refl
  count_permᴰ t (Permᴰ.cons e p) = rw (← e) (ground (arith, count_permᴰ t p))
  count_permᴰ t (Permᴰ.swap e e') = rw (← e, ← e') (ground arith)
  count_permᴰ t (Permᴰ.trans p q) = count_permᴰ t p ∙ count_permᴰ t q

  pub count_perm :
      (t : A → Bool) (xs ys : List A) → Perm xs ys → length (filter t xs) ≡ length (filter t ys)
  count_perm t xs ys p = ∥∥₁_elim p (ℕ_set _ _) (count_permᴰ t)

  filter_permᴰ : (t : A → Bool) {xs ys : List A} → Permᴰ xs ys → Perm (filter t xs) (filter t ys)
  unfolding filter
  filter_permᴰ t Permᴰ.nil = Perm.rfl
  filter_permᴰ t (Permᴰ.cons {a = a} e p) = rw (← e) (cons_if (t a) a (filter_permᴰ t p))
    where
      cons_if :
          {xs ys : List A} (b : Bool) (a : A)
          → Perm xs ys
          → Perm (if b then a ∷ xs else xs) (if b then a ∷ ys else ys)
      cons_if true a p = Perm.cons a p
      cons_if false a p = p
  filter_permᴰ t (Permᴰ.swap {a = a} {b = b} {l = l} e e') =
      rw (← e, ← e') (swap_if (t a) (t b) a b (filter t l))
    where
      swap_if :
          (c d : Bool) (a b : A) (l : List A)
          → Perm
              (if c then a ∷ (if d then b ∷ l else l) else (if d then b ∷ l else l))
              (if d then b ∷ (if c then a ∷ l else l) else (if c then a ∷ l else l))
      swap_if true true a b l = Perm.swap b a l
      swap_if true false a b l = Perm.rfl
      swap_if false d a b l = Perm.rfl
  filter_permᴰ t (Permᴰ.trans p q) = Perm.trans (filter_permᴰ t p) (filter_permᴰ t q)

  pub filter_perm : (t : A → Bool) (xs ys : List A) → Perm xs ys → Perm (filter t xs) (filter t ys)
  filter_perm t xs ys p = ∥∥₁_elim p (hlevel) (filter_permᴰ t)

  mem-of_mem-if :
      (b : Bool) (a x : A) (ys xs : List A)
      → (Mem a ys → Mem a xs)
      → Mem a (if b then x ∷ ys else ys)
      → Mem a (x ∷ xs)
  mem-of_mem-if true a x ys xs h m =
      Or.elim Mem-prop (mem-cons.0 m) (λ e. rw e mem-cons_self) (λ k. mem-cons_of_mem x (h k))
  mem-of_mem-if false a x ys xs h m = mem-cons_of_mem x (h m)

  pub mem-of_mem-filter : (t : A → Bool) (a : A) (xs : List A) → Mem a (filter t xs) → Mem a xs
  unfolding filter
  mem-of_mem-filter t a [] m = m
  mem-of_mem-filter t a (x ∷ xs) m =
      mem-of_mem-if (t x) a x (filter t xs) xs (mem-of_mem-filter t a xs) m
