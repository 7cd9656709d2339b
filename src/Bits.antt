-- ===== src/Bits.antt =====
-- Machine words by their binary digits: `|`, `^` and `count_ones`.
use Prim.Native.Nat.{max, differ, digits, bit_or, bit_xor, bit_or-bitwise, bit_xor-bitwise}
use rig_memory_policy.Prelude.{
  ℕ, zero, suc, ◌+◌, ◌*◌, ◌/◌, ◌%◌, ◌^◌, ◌≤◌, ◌<◌, ◌≡◌, refl, sym, ap, ◌∙◌, arith, ◌==◌,
  if◌then◌else◌,
}

-- `count_ones` of a word of the given width.
unfoldable pub count_ones : ℕ → ℕ → ℕ
count_ones zero x = 0
count_ones (suc width) x = x % 2 + count_ones width (x / 2)

module _ (z : ℕ → ℕ) (f : ℕ → ℕ → ℕ) where
  -- The digitwise operation does not depend on its fuel, once that is enough.
  enough_digits :
      (fuel fuel' a b : ℕ) → a ≤ fuel → a ≤ fuel' → digits z f fuel a b ≡ digits z f fuel' a b
  enough_digits _ _ zero b _ _ = no_digits _ b ∙ sym (no_digits _ b)
    where
      no_digits : (fuel b : ℕ) → digits z f fuel 0 b ≡ z b
      no_digits zero b = refl
      no_digits (suc fuel) b = refl
  enough_digits (suc n) (suc m) (suc a) b h l =
      ap (λ r. r * 2 + f (suc a % 2) (b % 2))
        (enough_digits n m (suc a / 2) (b / 2) (omega arith) (omega arith))
  enough_digits zero _ (suc a) b h l = absurd (omega arith)
  enough_digits (suc n) zero (suc a) b h l = absurd (omega arith)

  -- The last digit, and the others.
  digits_step :
      (a b : ℕ)
      → digits z f (suc a) (suc a) b
        ≡ digits z f (suc a / 2) (suc a / 2) (b / 2) * 2 + f (suc a % 2) (b % 2)
  digits_step a b =
      ap (λ r. r * 2 + f (suc a % 2) (b % 2))
        (enough_digits a (suc a / 2) (suc a / 2) (b / 2) (omega arith) (omega arith))

pub bit_or_step : (a b : ℕ) → bit_or a b ≡ bit_or (a / 2) (b / 2) * 2 + max (a % 2) (b % 2)
bit_or_step zero b = omega (arith, bit_or-bitwise 0 b, bit_or-bitwise 0 (b / 2))
bit_or_step (suc a) b = omega (
  arith,
  bit_or-bitwise (suc a) b,
  bit_or-bitwise (suc a / 2) (b / 2),
  digits_step (λ d. d) max a b,
)

pub bit_xor_step : (a b : ℕ) → bit_xor a b ≡ bit_xor (a / 2) (b / 2) * 2 + differ (a % 2) (b % 2)
bit_xor_step zero b = omega (arith, bit_xor-bitwise 0 b, bit_xor-bitwise 0 (b / 2))
bit_xor_step (suc a) b = omega (
  arith,
  bit_xor-bitwise (suc a) b,
  bit_xor-bitwise (suc a / 2) (b / 2),
  digits_step (λ d. d) differ a b,
)

-- The digit of an exclusive or.
pub bit_xor_digit : (x y : ℕ) → x < 2 → y < 2 → differ x y ≡ (if x == y then 0 else 1)
bit_xor_digit zero zero h l = refl
bit_xor_digit zero (suc zero) h l = refl
bit_xor_digit (suc zero) zero h l = refl
bit_xor_digit (suc zero) (suc zero) h l = refl
bit_xor_digit (suc (suc x)) y h l = absurd (omega arith)
bit_xor_digit zero (suc (suc y)) h l = absurd (omega arith)
bit_xor_digit (suc zero) (suc (suc y)) h l = absurd (omega arith)

-- Setting the first digit beyond a number adds it.
pub bit_or-power : (n a : ℕ) → a < 2 ^ n → bit_or a (2 ^ n) ≡ a + 2 ^ n
bit_or-power zero zero h = refl
bit_or-power zero (suc a) h = absurd (omega arith)
bit_or-power (suc n) a h =
    let half : 2 ^ suc n / 2 ≡ 2 ^ n = omega arith in
    omega (
      arith,
      bit_or_step a (2 ^ suc n),
      ap (bit_or (a / 2)) half,
      bit_or-power n (a / 2) (omega arith),
    )

-- The digits of an exclusive or, one by one.
bit_xor-last : (a b : ℕ) → bit_xor a b % 2 ≡ (if a % 2 == b % 2 then 0 else 1)
bit_xor-last a b =
    ground (arith, bit_xor_step a b, bit_xor_digit (a % 2) (b % 2) (omega arith) (omega arith))

bit_xor-half : (a b : ℕ) → bit_xor a b / 2 ≡ bit_xor (a / 2) (b / 2)
bit_xor-half a b =
    ground (arith, bit_xor_step a b, bit_xor_digit (a % 2) (b % 2) (omega arith) (omega arith))

-- The number of places where two words differ.
pub count_ones-bit_xor :
    (width a b : ℕ)
    → count_ones (suc width) (bit_xor a b)
      ≡ (if a % 2 == b % 2 then 0 else 1) + count_ones width (bit_xor (a / 2) (b / 2))
unfolding count_ones
count_ones-bit_xor width a b = rw (bit_xor-last a b, bit_xor-half a b) refl

-- So counted, words form a metric space.
pub count_ones_symm :
    (width a b : ℕ) → count_ones width (bit_xor a b) ≡ count_ones width (bit_xor b a)
count_ones_symm zero a b = unfold count_ones in refl
count_ones_symm (suc width) a b = ground (
  arith,
  count_ones-bit_xor width a b,
  count_ones-bit_xor width b a,
  count_ones_symm width (a / 2) (b / 2),
)

pub count_ones-triangle :
    (width a b c : ℕ)
    → count_ones width (bit_xor a c)
      ≤ count_ones width (bit_xor a b) + count_ones width (bit_xor b c)
count_ones-triangle zero a b c = unfold count_ones in omega arith
count_ones-triangle (suc width) a b c = ground (
  arith,
  count_ones-bit_xor width a c,
  count_ones-bit_xor width a b,
  count_ones-bit_xor width b c,
  count_ones-triangle width (a / 2) (b / 2) (c / 2),
)

pub count_ones_self : (width a : ℕ) → count_ones width (bit_xor a a) ≡ 0
count_ones_self zero a = unfold count_ones in refl
count_ones_self (suc width) a =
    ground (arith, count_ones-bit_xor width a a, count_ones_self width (a / 2))

pub count_ones-eq_zero :
    (width a b : ℕ) → a < 2 ^ width → b < 2 ^ width → count_ones width (bit_xor a b) ≡ 0 → a ≡ b
count_ones-eq_zero zero a b h l e = omega arith
count_ones-eq_zero (suc width) a b h l e = ground (
  arith,
  count_ones-bit_xor width a b,
  count_ones-eq_zero width (a / 2) (b / 2) (omega arith) (omega arith),
)

pub count_ones-le_width : (width a : ℕ) → count_ones width a ≤ width
unfolding count_ones
count_ones-le_width zero a = omega arith
count_ones-le_width (suc width) a = omega (arith, count_ones-le_width width (a / 2))
