-- ===== src/Dedup/SimHash/Columns.antt =====
-- One column of a fingerprint, over the hashes of all tokens.
use rig_memory_policy.Prelude.{
  ℕ, ◌+◌, ◌-◌, ◌*◌, ◌%◌, ◌^◌, ◌<◌, ◌≤◌, ltb, Bool, List, [], ◌∷◌, ◌≡◌, ap, arith, length,
  if◌then◌else◌, Bool-cases, inl, inr,
}
use rig_memory_policy.Dedup.SimHash.{increment, decrement, is_positive, has_bit}

-- How many hashes have a bit, and whether more have it than lack it.
abbrev pub votes : ℕ → List ℕ → ℕ
votes bit [] = 0
votes bit (hash ∷ hashes) = (if has_bit hash bit then 1 else 0) + votes bit hashes

abbrev pub majority : ℕ → List ℕ → Bool
majority bit hashes = ltb (length hashes) (2 * votes bit hashes)

pub votes-le_length : (bit : ℕ) (hashes : List ℕ) → votes bit hashes ≤ length hashes
votes-le_length bit [] = omega arith
votes-le_length bit (hash ∷ hashes) = ground (arith, votes-le_length bit hashes)

-- One column over all hashes.
unfoldable pub tally : ℕ → List ℕ → ℕ → ℕ
tally bit [] column = column
tally bit (hash ∷ hashes) column =
    tally bit hashes (if has_bit hash bit then increment column else decrement column)

-- After `ups` increments and `downs` decrements.
abbrev balance : ℕ → ℕ → ℕ
balance ups downs = (ups + 2 ^ 32 - downs) % 2 ^ 32

increment_lem :
    (ups downs : ℕ) → downs < 2 ^ 32 → increment (balance ups downs) ≡ balance (ups + 1) downs
increment_lem ups downs h = omega arith

decrement_lem :
    (ups downs : ℕ) → downs + 1 < 2 ^ 32 → decrement (balance ups downs) ≡ balance ups (downs + 1)
decrement_lem ups downs h = omega arith

tally_lem :
    (bit : ℕ) (hashes : List ℕ) (ups downs : ℕ)
    → downs + length hashes < 2 ^ 32
    → tally bit hashes (balance ups downs)
      ≡ balance (ups + 2 * votes bit hashes) (downs + length hashes)
unfolding tally
tally_lem bit [] ups downs h = ap (λ n. n % 2 ^ 32) (omega arith)
tally_lem bit (hash ∷ hashes) ups downs h = elim (Bool-cases (has_bit hash bit)) [
  | inl e ↦
      rw
        (
          e,
          increment_lem ups downs (omega arith),
          tally_lem bit hashes (ups + 1) downs (omega arith),
        )
        (ap (λ n. n % 2 ^ 32) (omega arith))
  | inr e ↦
      rw
        (
          e,
          decrement_lem ups downs (omega arith),
          tally_lem bit hashes ups (downs + 1) (omega arith),
        )
        (ap (λ n. n % 2 ^ 32) (omega arith))
]

pub tally-is_positive :
    (bit : ℕ) (hashes : List ℕ)
    → length hashes < 2 ^ 31
    → is_positive (tally bit hashes 0) ≡ majority bit hashes
tally-is_positive bit hashes h =
    ground (arith, tally_lem bit hashes 0 0 (omega arith), votes-le_length bit hashes)
