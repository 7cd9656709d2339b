-- ===== src/Dedup/Seen/FiniteSet.antt =====
-- What a `DedupSet` stands for: a finite set of keys, that is a list up to which keys it holds.
use mathlib.Core.Quot
use mathlib.Core.Quot.{Quot, Quot-set}
use mathlib.Core.Bool.{Bool-set}
use mathlib.Core.List.Perm
use native.Mathlib.Nat.{ℕ_set}
use rig_memory_policy.Prelude.{
  ℕ, Bool, ◌||◌, List, [], ◌∷◌, ◌≡◌, sym, ◌∙◌, ap, Perm, map, length, none, some,
}
use rig_memory_policy.Prelude.Members.{length_perm}
use rig_memory_policy.Text.{Text, text_eq}
use rig_memory_policy.Text.Order.{compare_text, compare_text-IsTotal, compare_text-eq}
use rig_memory_policy.Sort.{sort_by}
use rig_memory_policy.Sort.Unique.{sort_by-eq_of_perm}
use rig_memory_policy.HashSet.{member, collect}
use rig_memory_policy.HashSet.Extensional.{collect-IsDistinct, member-collect_self, IsDistinct-perm}
use rig_memory_policy.Dedup.Hex.{DedupKey, hex_encode, hex_decode}

abbrev pub SameKeys : List DedupKey → List DedupKey → Type 0
SameKeys ks js = (k : DedupKey) → member k ks ≡ member k js

abbrev pub FiniteSet : Type 0
FiniteSet = Quot SameKeys

abbrev pub of_list : List DedupKey → FiniteSet
of_list = Quot.mk

unfoldable pub has : DedupKey → FiniteSet → Bool
has k = Quot.lift Bool-set (member k) (λ ks js same. same k)

pub SameKeys-cons :
    (k : DedupKey) (ks js : List DedupKey) → SameKeys ks js → SameKeys (k ∷ ks) (k ∷ js)
unfolding member
SameKeys-cons k ks js same j = ap (◌||◌ (text_eq k j)) (same j)

unfoldable pub with_key : DedupKey → FiniteSet → FiniteSet
with_key k =
    Quot.lift Quot-set (λ ks. of_list (k ∷ ks))
      (λ ks js same. Quot.sound (SameKeys-cons k ks js same))

-- The texts that decode to a key, in turn.
unfoldable pub with_texts : List Text → FiniteSet → FiniteSet
unfolding with_key
with_texts [] s = s
with_texts (hex ∷ hexes) s =
    with_texts hexes (elim (hex_decode hex) [ some k ↦ with_key k s | none ↦ s ])

pub collect-perm : (ks js : List DedupKey) → SameKeys ks js → Perm (collect ks) (collect js)
collect-perm ks js same =
    IsDistinct-perm (collect ks) (collect js) (collect-IsDistinct ks) (collect-IsDistinct js)
      (λ k. member-collect_self k ks ∙ same k ∙ sym (member-collect_self k js))

-- How many keys there are.
unfoldable pub size : FiniteSet → ℕ
size =
    Quot.lift ℕ_set (λ ks. length (collect ks))
      (λ ks js same. length_perm (collect ks) (collect js) (collect-perm ks js same))

pub ascending : List DedupKey → List Text
ascending ks = sort_by compare_text (map hex_encode ks)

pub ascending-eq_of_perm : (ks js : List DedupKey) → Perm ks js → ascending ks ≡ ascending js
unfolding ascending
ascending-eq_of_perm ks js p =
    sort_by-eq_of_perm compare_text-IsTotal compare_text-eq _ _ (Perm.map hex_encode p)

-- Their texts, each once, in ascending order.
unfoldable pub texts : FiniteSet → List Text
unfolding ascending
texts =
    Quot.lift (hlevel) (λ ks. ascending (collect ks))
      (λ ks js same. ascending-eq_of_perm (collect ks) (collect js) (collect-perm ks js same))
