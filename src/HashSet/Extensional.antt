-- ===== src/HashSet/Extensional.antt =====
-- Two lists without repetitions that hold the same elements are rearrangements of each other.
use mathlib.Core.Logic.Or
use mathlib.Core.List.{
  Mem, mem-cons, mem-cons_self, mem-cons_of_mem, not-mem-nil, perm_ext_iff_of_Nodup, Nodup,
  Nodup-nil, Nodup-cons,
}
use rig_memory_policy.Prelude.{
  true, false, List, [], ◌∷◌, ◌≡◌, refl, ◌↔◌, sym, ◌∙◌, arith, Perm, Bool-cases, inl, inr,
}
use rig_memory_policy.Text.{Text, text_eq, text_eq_iff}
use rig_memory_policy.HashSet.{member, add, collect, IsDistinct, member-add, add-IsDistinct}

true_ne_false : true ≡ false → ⊥
true_ne_false e = cc

mem-of_member : (k : Text) (s : List Text) → member k s ≡ true → Mem k s
unfolding member
mem-of_member k [] e = absurd (true_ne_false (sym e))
mem-of_member k (j ∷ s) e = elim (Bool-cases (text_eq j k)) [
  | inl h ↦ rw ((text_eq_iff j k).0 h) mem-cons_self
  | inr h ↦ mem-cons_of_mem j (mem-of_member k s (rw h at e))
]

member-of_mem : (k : Text) (s : List Text) → Mem k s → member k s ≡ true
unfolding member
member-of_mem k [] m = absurd (not-mem-nil m)
member-of_mem k (j ∷ s) m =
    Or.elim (hlevel) (mem-cons.0 m) (λ e. ground (arith, text_eq_iff j k, sym e))
      (λ n. ground (arith, member-of_mem k s n))

pub member_iff : (k : Text) (s : List Text) → (member k s ≡ true) ↔ Mem k s
member_iff k s = (mem-of_member k s, member-of_mem k s)

IsDistinct-Nodup : (s : List Text) → IsDistinct s → Nodup s
IsDistinct-Nodup [] _ = Nodup-nil
IsDistinct-Nodup (k ∷ s) (new, d) =
    Nodup-cons.1 (λ m. true_ne_false (sym (member-of_mem k s m) ∙ new), IsDistinct-Nodup s d)

pub IsDistinct-perm :
    (s t : List Text)
    → IsDistinct s
    → IsDistinct t
    → ((k : Text) → member k s ≡ member k t)
    → Perm s t
IsDistinct-perm s t ds dt same =
    (perm_ext_iff_of_Nodup (IsDistinct-Nodup s ds) (IsDistinct-Nodup t dt)).1 λ k. (
      λ m. mem-of_member k t (sym (same k) ∙ member-of_mem k s m),
      λ m. mem-of_member k s (same k ∙ member-of_mem k t m),
    )

pub collect-IsDistinct : (ks : List Text) → IsDistinct (collect ks)
unfolding collect
collect-IsDistinct [] = tt
collect-IsDistinct (k ∷ ks) = add-IsDistinct k (collect ks) (collect-IsDistinct ks)

pub member-collect_self : (j : Text) (ks : List Text) → member j (collect ks) ≡ member j ks
unfolding collect member
member-collect_self j [] = refl
member-collect_self j (k ∷ ks) =
    ground (arith, member-add k j (collect ks), member-collect_self j ks)

-- A list without repetitions is collected as it is.
pub collect-of_IsDistinct : (ks : List Text) → IsDistinct ks → collect ks ≡ ks
unfolding collect add
collect-of_IsDistinct [] _ = refl
collect-of_IsDistinct (k ∷ ks) (new, d) = rw (collect-of_IsDistinct ks d, new) refl
