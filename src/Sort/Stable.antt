-- ===== src/Sort/Stable.antt =====
-- A list has one rearrangement in order that keeps the order of equal elements.
use mathlib.Core.Path.{ap₂, subst}
use mathlib.Core.List.{head-eq_of_cons-eq, tail-eq_of_cons-eq}
use mathlib.Core.List.Perm
use rig_memory_policy.Prelude.{
  ℕ, true, List, [], ◌∷◌, ◌++◌, ◌≡◌, refl, sym, ◌∙◌, arith, Perm, Ordering, filter, length,
}
use rig_memory_policy.Sort.{IsTotal}
use rig_memory_policy.Sort.Laws.{Before, IsSorted, same}
use rig_memory_policy.Sort.Selection.{IsSelection}
use rig_memory_policy.Sort.Unique.{head_first, sorted_unique, IsTieFree, IsTieFree-of_subset}
use rig_memory_policy.Prelude.{ap, min}
use rig_memory_policy.Prelude.Members.{length_perm}

module _ {ℓ} {A : Type ℓ} {cmp : A → A → Ordering} (t : IsTotal cmp) where
  same_self : (a : A) → same cmp a a ≡ true
  same_self a = ground (arith, t.flip a a)

  same_of_both : (a b : A) → Before cmp a b → Before cmp b a → same cmp a b ≡ true
  same_of_both a b p q = ground (arith, t.flip a b)

  -- The first elements are equal, and the filters agree on what follows.
  heads_equal :
      (a b : A) (l r : List A)
      → same cmp a b ≡ true
      → filter (same cmp a) (a ∷ l) ≡ filter (same cmp a) (b ∷ r)
      → a ≡ b
  unfolding filter
  heads_equal a b l r s e = ground (arith, same_self a)

  tails_agree :
      (a z : A) (l r : List A)
      → filter (same cmp z) (a ∷ l) ≡ filter (same cmp z) (a ∷ r)
      → filter (same cmp z) l ≡ filter (same cmp z) r
  unfolding filter
  tails_agree a z l r e = ground arith

  same_start :
      (a b : A) (l r : List A)
      → IsSorted cmp (a ∷ l)
      → IsSorted cmp (b ∷ r)
      → Perm (a ∷ l) (b ∷ r)
      → ((z : A) → filter (same cmp z) (a ∷ l) ≡ filter (same cmp z) (b ∷ r))
      → a ≡ b
  same_start a b l r sl sr p e =
      heads_equal a b l r
        (same_of_both a b (head_first t a b l r sl (Perm.symm p)) (head_first t b a r l sr p)) (e a)

  pub stable_unique :
      (l r : List A)
      → IsSorted cmp l
      → IsSorted cmp r
      → Perm l r
      → ((z : A) → filter (same cmp z) l ≡ filter (same cmp z) r)
      → l ≡ r
  stable_unique [] r _ _ p _ = sym (Perm.eq-nil (Perm.symm p))
  stable_unique l [] _ _ p _ = Perm.eq-nil p
  stable_unique (a ∷ l) (b ∷ r) (hl, sl) (hr, sr) p e =
      let q = same_start a b l r (hl, sl) (hr, sr) p e in
      ap₂ ◌∷◌ q (
        stable_unique l r sl sr (Perm.cons_inv (subst (λ x. Perm (a ∷ l) (x ∷ r)) (sym q) p)) (λ z.
          tails_agree a z l r
            (subst (λ x. filter (same cmp z) (a ∷ l) ≡ filter (same cmp z) (x ∷ r)) (sym q) (e z))))

-- Lists that are equal when joined, the first parts equally long, are equal part by part.
pub append_inj {ℓ} :
    {A : Type ℓ} (l l' r r' : List A)
    → length l ≡ length l'
    → l ++ r ≡ l' ++ r'
    → (l ≡ l') × (r ≡ r')
append_inj [] [] r r' _ e = (refl, e)
append_inj [] (x ∷ l') r r' n e = absurd (omega (arith, n))
append_inj (x ∷ l) [] r r' n e = absurd (omega (arith, n))
append_inj (x ∷ l) (y ∷ l') r r' n e =
    let (p, q) = append_inj l l' r r' (omega (arith, n)) (tail-eq_of_cons-eq e) in
    (ap₂ ◌∷◌ (head-eq_of_cons-eq e) p, q)

-- Of a batch there is one selection of a given size.
pub IsSelection-unique {ℓ} :
    {A : Type ℓ} {cmp : A → A → Ordering} (count : ℕ) (batch top rest top' rest' : List A)
    → IsTotal cmp
    → IsSelection cmp count batch top rest
    → IsSelection cmp count batch top' rest'
    → (top ≡ top') × (rest ≡ rest')
IsSelection-unique count batch top rest top' rest' t s s' =
    append_inj top top' rest rest' (s.size ∙ sym s'.size) (
      stable_unique t (top ++ rest) (top' ++ rest') s.sorted s'.sorted
        (Perm.trans s.perm (Perm.symm s'.perm)) (λ z. s.stable z ∙ sym (s'.stable z)))

-- Without ties a selection does not depend on the order of the batch.
pub IsSelection-eq_of_perm {ℓ} :
    {A : Type ℓ} {cmp : A → A → Ordering} (count : ℕ) (batch batch' top rest top' rest' : List A)
    → IsTotal cmp
    → IsTieFree cmp batch
    → Perm batch batch'
    → IsSelection cmp count batch top rest
    → IsSelection cmp count batch' top' rest'
    → (top ≡ top') × (rest ≡ rest')
IsSelection-eq_of_perm {cmp} count batch batch' top rest top' rest' t equal p s s' =
    append_inj top top' rest rest'
      (s.size ∙ ap (min count) (length_perm batch batch' p) ∙ sym s'.size)
      (sorted_unique t (top ++ rest) (top' ++ rest')
        (IsTieFree-of_subset cmp batch (top ++ rest) (λ a m. (Perm.mem_iff s.perm).0 m) equal)
        s.sorted s'.sorted (Perm.trans s.perm (Perm.trans p (Perm.symm s'.perm))))
