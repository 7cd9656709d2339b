-- ===== src/Sort/Orders.antt =====
-- Ways to build a comparison that `sort_by` accepts.
use rig_memory_policy.Prelude.{ℕ, false, Option, none, some, ◌≡◌, refl, arith, Ordering, compare}
use rig_memory_policy.Sort.{then_with, swap, is_gt, IsTotal}

-- `Option::cmp`: `None` is below every number.
abbrev pub compare_option : Option ℕ → Option ℕ → Ordering
compare_option none none = Ordering.eq
compare_option none (some b) = Ordering.lt
compare_option (some a) none = Ordering.gt
compare_option (some a) (some b) = compare a b

compare_option_flip : (a b : Option ℕ) → compare_option b a ≡ swap (compare_option a b)
compare_option_flip none none = refl
compare_option_flip none (some b) = refl
compare_option_flip (some a) none = refl
compare_option_flip (some a) (some b) = ground arith

compare_option_trans :
    (a b c : Option ℕ)
    → is_gt (compare_option a b) ≡ false
    → is_gt (compare_option b c) ≡ false
    → is_gt (compare_option a c) ≡ false
compare_option_trans none b none p q = refl
compare_option_trans none b (some c) p q = refl
compare_option_trans (some a) none c p q = cc
compare_option_trans (some a) (some b) none p q = cc
compare_option_trans (some a) (some b) (some c) p q = ground arith

pub compare_option-IsTotal : IsTotal compare_option
compare_option-IsTotal = record { flip = compare_option_flip; trans = compare_option_trans }

module _ {ℓ} {A : Type ℓ} where
  -- The descending order.
  abbrev pub reversed : (A → A → Ordering) → A → A → Ordering
  reversed cmp a b = cmp b a

  pub reversed-IsTotal : (cmp : A → A → Ordering) → IsTotal cmp → IsTotal (reversed cmp)
  reversed-IsTotal cmp t = record {
    flip = λ a b. t.flip b a;
    trans = λ a b c p q. t.trans c b a q p;
  }

  -- First by one comparison, then by another.
  abbrev pub both : (A → A → Ordering) → (A → A → Ordering) → A → A → Ordering
  both cmp cmp' a b = then_with (cmp a b) (cmp' a b)

  module _ (cmp cmp' : A → A → Ordering) (t : IsTotal cmp) (t' : IsTotal cmp') where
    both_flip : (a b : A) → both cmp cmp' b a ≡ swap (both cmp cmp' a b)
    both_flip a b = ground (arith, t.flip a b, t'.flip a b)

    both_trans :
        (a b c : A)
        → is_gt (both cmp cmp' a b) ≡ false
        → is_gt (both cmp cmp' b c) ≡ false
        → is_gt (both cmp cmp' a c) ≡ false
    both_trans a b c p q = ground (
      arith,
      t.trans a b c,
      t.trans b c a,
      t.trans c a b,
      t'.trans a b c,
      t.flip a b,
      t.flip b c,
      t.flip a c,
    )

    pub both-IsTotal : IsTotal (both cmp cmp')
    both-IsTotal = record { flip = both_flip; trans = both_trans }

module _ {ℓ κ} {A : Type ℓ} {B : Type κ} where
  -- By a key.
  abbrev pub by_key : (B → B → Ordering) → (A → B) → A → A → Ordering
  by_key cmp key a b = cmp (key a) (key b)

  pub by_key-IsTotal :
      (cmp : B → B → Ordering) (key : A → B) → IsTotal cmp → IsTotal (by_key cmp key)
  by_key-IsTotal cmp key t = record {
    flip = λ a b. t.flip (key a) (key b);
    trans = λ a b c. t.trans (key a) (key b) (key c);
  }
