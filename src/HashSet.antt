-- ===== src/HashSet.antt =====
-- `HashSet` of the Rust standard library, for elements that are texts or keys: a list without
-- repetitions. Its order stands for the order of iteration, which nothing may depend on.
pub mod Extensional
use rig_memory_policy.Prelude.{
  ◌+◌, Bool, true, false, ◌||◌, List, [], ◌∷◌, ◌≡◌, arith, if◌then◌else◌, All, length, Bool-cases,
  inl, inr, any, refl,
}
use rig_memory_policy.Text.{Text, text_eq, text_eq_refl, text_eq_iff}

-- `contains`.
unfoldable pub member : Text → List Text → Bool
member k [] = false
member k (j ∷ s) = text_eq j k || member k s

-- `insert`.
unfoldable pub add : Text → List Text → List Text
add k s = if member k s then s else k ∷ s

-- `collect` from an iterator.
unfoldable pub collect : List Text → List Text
collect [] = []
collect (k ∷ ks) = add k (collect ks)

abbrev pub IsDistinct : List Text → Type 0
IsDistinct [] = Unit
IsDistinct (k ∷ s) = (member k s ≡ false) × IsDistinct s

pub member-add : (k j : Text) (s : List Text) → member j (add k s) ≡ (text_eq k j || member j s)
unfolding add member
member-add k j s = ground (arith, text_eq_iff k j)

-- What was collected is what the iterator gave.
pub member-collect : (j : Text) (ks : List Text) → member j (collect ks) ≡ any (λ k. text_eq k j) ks
unfolding collect member
member-collect j [] = refl
member-collect j (k ∷ ks) = ground (arith, member-add k j (collect ks), member-collect j ks)

pub add-IsDistinct : (k : Text) (s : List Text) → IsDistinct s → IsDistinct (add k s)
unfolding add
add-IsDistinct k s h = elim (Bool-cases (member k s)) [ inl e ↦ rw e h | inr e ↦ rw e (e, h) ]

pub add-All {ℓ} : (P : Text → Type ℓ) (k : Text) (s : List Text) → P k → All P s → All P (add k s)
unfolding add
add-All P k s pk h = elim (Bool-cases (member k s)) [ inl e ↦ rw e h | inr e ↦ rw e (pk, h) ]

-- Adding counts a new element once and an old one not at all.
pub length-add :
    (k : Text) (s : List Text) → length (add k s) ≡ (if member k s then length s else length s + 1)
unfolding add
length-add k s = ground arith

pub member-add_self : (k : Text) (s : List Text) → member k (add k s) ≡ true
member-add_self k s = ground (arith, member-add k k s, text_eq_refl k)

pub add_twice : (k : Text) (s : List Text) → add k (add k s) ≡ add k s
add_twice k s = add-of_member k (add k s) (member-add_self k s)
  where
    add-of_member : (j : Text) (t : List Text) → member j t ≡ true → add j t ≡ t
    add-of_member j t h = unfold add in rw h
