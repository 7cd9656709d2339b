-- ===== src/Text/Order.antt =====
-- `Ord` on `str`: lexicographic. UTF-8 keeps the order of the characters, so comparing the bytes is
-- comparing the characters.
use rig_memory_policy.Prelude.{compare, Ordering, [], ◌∷◌, ◌≡◌, refl, arith, false}
use rig_memory_policy.Sort.{IsTotal, then_with, is_gt, swap}
use rig_memory_policy.Text.{Text}

unfoldable pub compare_text : Text → Text → Ordering
compare_text [] [] = Ordering.eq
compare_text [] (d ∷ t) = Ordering.lt
compare_text (c ∷ s) [] = Ordering.gt
compare_text (c ∷ s) (d ∷ t) = then_with (compare c d) (compare_text s t)

compare_text_flip : (s t : Text) → compare_text t s ≡ swap (compare_text s t)
unfolding compare_text
compare_text_flip [] [] = refl
compare_text_flip [] (d ∷ t) = refl
compare_text_flip (c ∷ s) [] = refl
compare_text_flip (c ∷ s) (d ∷ t) = ground (arith, compare_text_flip s t)

compare_text_trans :
    (s t u : Text)
    → is_gt (compare_text s t) ≡ false
    → is_gt (compare_text t u) ≡ false
    → is_gt (compare_text s u) ≡ false
unfolding compare_text
compare_text_trans [] t [] p q = refl
compare_text_trans [] t (e ∷ u) p q = refl
compare_text_trans (c ∷ s) [] u p q = cc
compare_text_trans (c ∷ s) (d ∷ t) [] p q = cc
compare_text_trans (c ∷ s) (d ∷ t) (e ∷ u) p q = ground (arith, compare_text_trans s t u)

pub compare_text-IsTotal : IsTotal compare_text
compare_text-IsTotal = record { flip = compare_text_flip; trans = compare_text_trans }

pub compare_text-eq : (s t : Text) → compare_text s t ≡ Ordering.eq → s ≡ t
unfolding compare_text
compare_text-eq [] [] h = refl
compare_text-eq [] (d ∷ t) h = cc
compare_text-eq (c ∷ s) [] h = cc
compare_text-eq (c ∷ s) (d ∷ t) h = ground (arith, compare_text-eq s t)
