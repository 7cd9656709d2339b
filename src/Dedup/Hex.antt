-- ===== src/Dedup/Hex.antt =====
-- src/dedup.rs, the hexadecimal text of a key.
pub mod Pairs
pub mod RoundTrip
use Prim.Native.Nat.{bit_or}
use rig_memory_policy.Prelude.{
  ℕ, zero, suc, ◌+◌, ◌-◌, ◌*◌, ◌/◌, ◌%◌, ◌<◌, ltb, leb, ◌==◌, Bool, true, false, not, ◌&&◌, List,
  [], ◌∷◌, ◌++◌, ◌≡◌, refl, Option, none, some, All, if◌then◌else◌, length, get_elem?, set,
  replicate, ◌>>=◌,
}
use rig_memory_policy.Text.{Text}
use rig_memory_policy.Text.Utf8.{Bytes, as_bytes}

-- `type DedupKey = [u8; 32]`.
abbrev pub DedupKey : Type 0
DedupKey = List ℕ

pub record IsKey (k : DedupKey) : Type 0 where
  pub size : length k ≡ 32
  pub bytes : All (λ b. b < 256) k

-- `nibble_to_hex`, as the code of the character.
unfoldable pub nibble_to_hex : ℕ → ℕ
nibble_to_hex given = let n = given % 16 in if ltb n 10 then b'0' + n else b'a' + n - 10

-- `hex_encode`: `b >> 4`, then `b & 0x0f`.
unfoldable pub hex_encode : DedupKey → Text
hex_encode [] = []
hex_encode (b ∷ k) = nibble_to_hex (b / 16) ∷ nibble_to_hex (b % 16) ∷ hex_encode k

-- `hex_encode_key`.
unfoldable pub hex_encode_key : DedupKey → Text
hex_encode_key k = hex_encode k

-- `nibble`: the value of a hexadecimal digit of either case.
unfoldable pub nibble : ℕ → Option ℕ
nibble b =
    if leb b'0' b && leb b b'9'
    then some (b - b'0')
    else if leb b'a' b && leb b b'f'
    then some (b - b'a' + 10)
    else if leb b'A' b && leb b b'F'
    then some (b - b'A' + 10)
    else none

-- `(hi << 4) | lo` on `u8`.
unfoldable pub join_nibbles : ℕ → ℕ → ℕ
join_nibbles hi lo = bit_or ((hi * 16) % 256) lo

-- The loop of `hex_decode`: `left` rounds from index `i` on; `?` returns early.
unfoldable pub decode_from : ℕ → ℕ → Bytes → DedupKey → Option DedupKey
decode_from zero i bytes out = some out
decode_from (suc left) i bytes out = do
  hi ← get_elem? bytes (i * 2) >>= nibble
  lo ← get_elem? bytes (i * 2 + 1) >>= nibble
  decode_from left (suc i) bytes (set out i (join_nibbles hi lo))

-- `hex_decode`.
unfoldable pub hex_decode : Text → Option DedupKey
unfolding decode_from nibble join_nibbles
hex_decode hex =
    let bytes = as_bytes hex in
    if not (length bytes == 64) then none else decode_from 32 0 bytes (replicate 32 0)
