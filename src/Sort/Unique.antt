-- ===== src/Sort/Unique.antt =====
-- A list has one rearrangement in order, if only equal elements compare as equal.
use mathlib.Core.Path.{ap₂, subst}
use mathlib.Core.Logic.Or
use mathlib.Core.List.{Mem, mem-cons, mem-cons_self, mem-cons_of_mem, not-mem-nil}
use mathlib.Core.List.Perm
use rig_memory_policy.Prelude.{List, [], ◌∷◌, ◌≡◌, sym, arith, Perm, Ordering, All}
use rig_memory_policy.Sort.{sort_by, IsTotal}
use rig_memory_policy.Sort.Laws.{Before, IsSorted, sort_by-perm, sort_by-IsSorted}

module _ {ℓ} {A : Type ℓ} {cmp : A → A → Ordering} (t : IsTotal cmp) where
  Before-prop : (a b : A) → IsProp (Before cmp a b)
  Before-prop a b = hlevel

  pub Before-of_mem : (a b : A) (l : List A) → All (Before cmp a) l → Mem b l → Before cmp a b
  Before-of_mem a b [] h m = absurd (not-mem-nil m)
  Before-of_mem a b (x ∷ l) (hx, h) m =
      Or.elim (Before-prop a b) (mem-cons.0 m) (λ e. rw e hx) (Before-of_mem a b l h)

  Before-self : (a : A) → Before cmp a a
  Before-self a = ground (arith, t.flip a a)

  pub head_first :
      (a b : A) (l r : List A) → IsSorted cmp (a ∷ l) → Perm (b ∷ r) (a ∷ l) → Before cmp a b
  head_first a b l r (h, s) p =
      Before-of_mem a b (a ∷ l) (Before-self a, h) ((Perm.mem_iff p).0 mem-cons_self)

-- Only equal elements of the list compare as equal.
abbrev pub IsTieFree {ℓ} : {A : Type ℓ} → (A → A → Ordering) → List A → Type ℓ
IsTieFree {A} cmp l = (a b : A) → Mem a l → Mem b l → cmp a b ≡ Ordering.eq → a ≡ b

pub IsTieFree-of_subset {ℓ} :
    {A : Type ℓ} (cmp : A → A → Ordering) (l r : List A)
    → ((a : A) → Mem a r → Mem a l)
    → IsTieFree cmp l
    → IsTieFree cmp r
IsTieFree-of_subset cmp l r sub h a b ma mb = h a b (sub a ma) (sub b mb)

module _ {ℓ} {A : Type ℓ} {cmp : A → A → Ordering} (t : IsTotal cmp) where
  antisymm : (a b : A) → (cmp a b ≡ Ordering.eq → a ≡ b) → Before cmp a b → Before cmp b a → a ≡ b
  antisymm a b equal p q = ground (arith, t.flip a b, equal)

  -- Two rearrangements of each other in order begin alike, and what follows is rearranged too.
  same_start :
      (a b : A) (l r : List A)
      → IsTieFree cmp (a ∷ l)
      → IsSorted cmp (a ∷ l)
      → IsSorted cmp (b ∷ r)
      → Perm (a ∷ l) (b ∷ r)
      → (a ≡ b) × Perm l r
  same_start a b l r equal sl sr p =
      let e =
        antisymm a b (equal a b mem-cons_self ((Perm.mem_iff p).1 mem-cons_self))
          (head_first t a b l r sl (Perm.symm p)) (head_first t b a r l sr p) in
      (e, Perm.cons_inv (subst (λ x. Perm (a ∷ l) (x ∷ r)) (sym e) p))

  pub sorted_unique :
      (l r : List A) → IsTieFree cmp l → IsSorted cmp l → IsSorted cmp r → Perm l r → l ≡ r
  sorted_unique [] r _ _ _ p = sym (Perm.eq-nil (Perm.symm p))
  sorted_unique l [] _ _ _ p = Perm.eq-nil p
  sorted_unique (a ∷ l) (b ∷ r) equal (hl, sl) (hr, sr) p =
      let (e, q) = same_start a b l r equal (hl, sl) (hr, sr) p in
      ap₂ ◌∷◌ e (
        sorted_unique l r (IsTieFree-of_subset cmp (a ∷ l) l (λ x m. mem-cons_of_mem a m) equal) sl
          sr q)

  -- The result of the sort depends only on which elements there are, and how often.
  pub sort_by-eq_of_perm :
      ((a b : A) → cmp a b ≡ Ordering.eq → a ≡ b)
      → (l r : List A) → Perm l r
      → sort_by cmp l ≡ sort_by cmp r
  sort_by-eq_of_perm equal l r p =
      sorted_unique (sort_by cmp l) (sort_by cmp r) (λ a b _ _. equal a b) (sort_by-IsSorted t l)
        (sort_by-IsSorted t r)
        (Perm.trans (sort_by-perm cmp l) (Perm.trans p (Perm.symm (sort_by-perm cmp r))))
