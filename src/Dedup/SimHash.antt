-- ===== src/Dedup/SimHash.antt =====
-- src/dedup.rs, `SimHash`: a fingerprint whose distance tells near duplicates.
pub mod Columns
pub mod Majority
pub mod Reorder
pub mod Distance
pub mod Locality
use Prim.Native.Nat.{bit_or, bit_xor}
use rig_memory_policy.Prelude.{
  ℕ, zero, suc, ◌+◌, ◌-◌, ◌*◌, ◌/◌, ◌%◌, ◌^◌, ltb, leb, ◌==◌, Bool, true, false, ◌&&◌, List, [],
  ◌∷◌, is_nil, replicate, if◌then◌else◌,
}
use rig_memory_policy.Bits.{count_ones}
use rig_memory_policy.Text.{Text, trim_matches}
use rig_memory_policy.Text.Utf8.{Bytes, as_bytes}
use rig_memory_policy.Text.Tokens.{Unicode, split_whitespace, is_separator}
use rig_memory_policy.Dedup.Key.{Blake3}

-- `struct SimHash(u64)`.
pub record SimHash : Type 0 where
  pub value : ℕ

-- The slots of `out` take the bytes of the hash, as long as there are any.
abbrev overwrite : Bytes → Bytes → Bytes
overwrite [] full = []
overwrite (slot ∷ out) [] = slot ∷ out
overwrite (slot ∷ out) (byte ∷ full) = byte ∷ overwrite out full

unfoldable pub token_hash_8 : Blake3 → Bytes → Bytes
token_hash_8 b bytes = overwrite (replicate 8 0) (b.hash bytes)

-- `u64::from_le_bytes`.
unfoldable pub from_le_bytes : Bytes → ℕ
from_le_bytes [] = 0
from_le_bytes (byte ∷ rest) = byte + 256 * from_le_bytes rest

-- `+= 1` and `-= 1` on an `i32`, kept as its value modulo 2^32, and `> 0` on it.
abbrev pub increment : ℕ → ℕ
increment column = (column + 1) % 2 ^ 32

abbrev pub decrement : ℕ → ℕ
decrement column = (column + (2 ^ 32 - 1)) % 2 ^ 32

abbrev pub is_positive : ℕ → Bool
is_positive column = ltb 0 column && ltb column (2 ^ 31)

-- `(hash >> bit) & 1 == 1`.
abbrev pub has_bit : ℕ → ℕ → Bool
has_bit hash bit = hash / 2 ^ bit % 2 == 1

-- The loop over the columns, from a bit on.
unfoldable pub count_token : ℕ → ℕ → List ℕ → List ℕ
count_token hash bit [] = []
count_token hash bit (column ∷ columns) =
    (if has_bit hash bit then increment column else decrement column)
    ∷ count_token hash (suc bit) columns

-- The second loop over the columns.
unfoldable pub set_bits : ℕ → List ℕ → ℕ → ℕ
set_bits bit [] fingerprint = fingerprint
set_bits bit (column ∷ columns) fingerprint =
    set_bits (suc bit) columns
      (if is_positive column then bit_or fingerprint (2 ^ bit) else fingerprint)

module _ (b : Blake3) (u : Unicode) where
  unfoldable pub token_hash : Text → ℕ
  token_hash token = from_le_bytes (token_hash_8 b (as_bytes (u.to_lowercase token)))

  -- The loop over the tokens: the columns, and whether there was a token.
  unfoldable pub count_tokens : List Text → List ℕ → Bool → List ℕ × Bool
  count_tokens [] columns any = (columns, any)
  count_tokens (given ∷ tokens) columns any =
      let token = trim_matches (is_separator u) given in
      elim (is_nil token) [
        | true ↦ count_tokens tokens columns any
        | false ↦ count_tokens tokens (count_token (token_hash token) 0 columns) true
      ]

  unfoldable pub from_text : Text → SimHash
  unfolding count_tokens
  from_text text =
      let counted = count_tokens (split_whitespace text) (replicate 64 0) false in
      if counted.1 then record { value = set_bits 0 counted.0 0 } else record { value = 0 }

unfoldable pub bits : SimHash → ℕ
bits s = s.value

unfoldable pub hamming_distance : SimHash → SimHash → ℕ
hamming_distance s other = count_ones 64 (bit_xor s.value other.value)

unfoldable pub is_near : SimHash → SimHash → ℕ → Bool
is_near s other max_distance = leb (hamming_distance s other) max_distance
