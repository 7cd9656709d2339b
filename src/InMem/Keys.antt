-- ===== src/InMem/Keys.antt =====
-- The keys of an `InMemoryStore` are ordered as they were given out.
use rig_memory_policy.Prelude.{
  ℕ, zero, suc, ◌/◌, ◌%◌, ◌^◌, ◌<◌, compare, Ordering, [], ◌∷◌, ◌++◌, ◌≡◌, refl, sym, ap, ◌∙◌,
  arith, length, length-append,
}
use rig_memory_policy.Sort.{then_with}
use rig_memory_policy.Text.{Text}
use rig_memory_policy.Text.Order.{compare_text}
use rig_memory_policy.Dedup.Hex.{nibble_to_hex}
use rig_memory_policy.InMem.{lower_hex, storage_key}

compare_text-snoc :
    (s t : Text) (a b : ℕ)
    → length s ≡ length t
    → compare_text (s ++ a ∷ []) (t ++ b ∷ []) ≡ then_with (compare_text s t) (compare a b)
unfolding compare_text
compare_text-snoc [] [] a b h = ground arith
compare_text-snoc [] (d ∷ t) a b h = absurd (omega arith)
compare_text-snoc (c ∷ s) [] a b h = absurd (omega arith)
compare_text-snoc (c ∷ s) (d ∷ t) a b h = ground (arith, compare_text-snoc s t a b (omega arith))

length-lower_hex : (width n : ℕ) → length (lower_hex width n) ≡ width
unfolding lower_hex
length-lower_hex zero n = refl
length-lower_hex (suc width) n =
    length-append (lower_hex width (n / 16)) _ ∙ omega (arith, length-lower_hex width (n / 16))

nibble_to_hex-order :
    (a b : ℕ) → a < 16 → b < 16 → compare (nibble_to_hex a) (nibble_to_hex b) ≡ compare a b
unfolding nibble_to_hex
nibble_to_hex-order a b h l = ground arith

compare-halves :
    (n m : ℕ) → then_with (compare (n / 16) (m / 16)) (compare (n % 16) (m % 16)) ≡ compare n m
compare-halves n m = ground arith

lower_hex-order :
    (width n m : ℕ)
    → n < 16 ^ width
    → m < 16 ^ width
    → compare_text (lower_hex width n) (lower_hex width m) ≡ compare n m
unfolding lower_hex compare_text
lower_hex-order zero n m h l = ground arith
lower_hex-order (suc width) n m h l =
    compare_text-snoc (lower_hex width (n / 16)) (lower_hex width (m / 16)) _ _
      (length-lower_hex width (n / 16) ∙ sym (length-lower_hex width (m / 16)))
    ∙ rw
        (
          lower_hex-order width (n / 16) (m / 16) (omega arith) (omega arith),
          nibble_to_hex-order (n % 16) (m % 16) (omega arith) (omega arith),
        )
        (compare-halves n m)

-- The keys of `u64` numbers compare, as texts, like the numbers.
pub storage_key-order :
    (n m : ℕ) → n < 2 ^ 64 → m < 2 ^ 64 → compare_text (storage_key n) (storage_key m) ≡ compare n m
unfolding storage_key compare_text
storage_key-order n m h l = lower_hex-order 16 n m (omega arith) (omega arith)

compare_self : (m : ℕ) → compare m m ≡ Ordering.eq
compare_self m = ground arith

eq_of_compare : (n m : ℕ) → compare n m ≡ Ordering.eq → n ≡ m
eq_of_compare n m e = ground arith

pub storage_key-injective :
    (n m : ℕ) → n < 2 ^ 64 → m < 2 ^ 64 → storage_key n ≡ storage_key m → n ≡ m
storage_key-injective n m h l e = eq_of_compare n m (
    sym (storage_key-order n m h l)
    ∙ ap (λ key. compare_text key (storage_key m)) e
    ∙ storage_key-order m m l l
    ∙ compare_self m)
