-- ===== src/Sort/Again.antt =====
-- A selection from what was selected and some of what was left is the same selection.
use mathlib.Core.List.{Mem, Mem-prop, mem-append, mem-append_left, mem-append_right}
use mathlib.Core.List.Perm
use mathlib.Core.Logic.Or
use mathlib.Core.Path.{subst}
use rig_memory_policy.Prelude.{
  ℕ, ◌≤◌, List, [], ◌∷◌, ◌++◌, ◌≡◌, sym, arith, Perm, Ordering, length, length-append, All, All-map,
  All-append,
}
use rig_memory_policy.Prelude.Members.{length_perm, All-of_mem}
use rig_memory_policy.Sort.{sort_by, IsTotal}
use rig_memory_policy.Sort.Laws.{Before, IsSorted, sort_by-perm, sort_by-IsSorted}
use rig_memory_policy.Sort.Selection.{IsSelection}
use rig_memory_policy.Sort.Unique.{IsTieFree, IsTieFree-of_subset, Before-of_mem, sorted_unique}
use rig_memory_policy.Sort.Stable.{append_inj}

module _ {ℓ} {A : Type ℓ} (cmp : A → A → Ordering) where
  IsSorted-first : (l r : List A) → IsSorted cmp (l ++ r) → IsSorted cmp l
  IsSorted-first [] r _ = tt
  IsSorted-first (x ∷ l) r (h, s) = (front l h, IsSorted-first l r s)
    where
      front : (l : List A) → All (Before cmp x) (l ++ r) → All (Before cmp x) l
      front [] _ = tt
      front (y ∷ l) (hy, h) = (hy, front l h)

  IsSorted-append :
      (l r : List A)
      → IsSorted cmp l
      → IsSorted cmp r
      → All (λ x. All (Before cmp x) r) l
      → IsSorted cmp (l ++ r)
  IsSorted-append [] r _ s _ = s
  IsSorted-append (x ∷ l) r (h, sl) s (hx, hs) =
      (All-append _ l r h hx, IsSorted-append l r sl s hs)

module _ {ℓ} {A : Type ℓ} {cmp : A → A → Ordering} (t : IsTotal cmp) (count : ℕ)
    (batch top rest kept : List A) (s : IsSelection cmp count batch top rest)
    (sub : (a : A) → Mem a kept → Mem a rest) where
  best_of_kept : IsSorted cmp (top ++ sort_by cmp kept)
  best_of_kept =
      IsSorted-append cmp top (sort_by cmp kept) (IsSorted-first cmp top rest s.sorted)
        (sort_by-IsSorted t kept)
        (All-map _ _
          (λ x h. All-of_mem (Before cmp x) (sort_by cmp kept) (λ y m.
            Before-of_mem t x y rest h (sub y ((Perm.mem_iff (sort_by-perm cmp kept)).0 m))))
          top s.best)

  within : (a : A) → Mem a (top ++ kept) → Mem a batch
  within a m = (Perm.mem_iff s.perm).0 (
      Or.elim Mem-prop (mem-append.0 m) (λ k. mem-append_left rest k)
        (λ k. mem-append_right top (sub a k)))

  -- Without ties, and with no more kept than were left.
  pub IsSelection-again :
      (top' rest' : List A)
      → IsTieFree cmp batch
      → length kept ≤ length rest
      → IsSelection cmp count (top ++ kept) top' rest'
      → (top' ≡ top) × Perm rest' kept
  IsSelection-again top' rest' equal few s' =
      let size : length top' ≡ length top = omega (
        arith,
        s.size,
        s'.size,
        length_perm _ _ s.perm,
        length-append top rest,
        length-append top kept,
      ) in
      let free =
        IsTieFree-of_subset cmp batch (top' ++ rest') (λ a m. within a ((Perm.mem_iff s'.perm).0 m))
          equal in
      let moved = Perm.trans s'.perm (Perm.append_left top (Perm.symm (sort_by-perm cmp kept))) in
      let (e, e') =
        append_inj top' top rest' (sort_by cmp kept) size
          (sorted_unique t _ _ free s'.sorted best_of_kept moved) in
      (e, subst (λ r. Perm r kept) (sym e') (sort_by-perm cmp kept))
