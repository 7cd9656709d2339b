-- ===== src/Dedup/Hex/RoundTrip.antt =====
-- `hex_decode` accepts the hexadecimal texts of keys, in either case of letters, and nothing else.
use mathlib.Core.Path.{subst}
use rig_memory_policy.Prelude.{
  false, ℕ, zero, suc, ◌+◌, ◌*◌, ◌/◌, ◌%◌, ◌<◌, Bool, true, [], ◌∷◌, ◌≡◌, ◌↔◌, refl, sym, ap, ◌∙◌,
  none, some, All, arith, length, length-map, map, if◌then◌else◌, ◌==◌, ==_iff, ◌&&◌, leb,
  eq_of_some, >>=-eq_some,
}
use rig_memory_policy.Text.{Text}
use rig_memory_policy.Text.Utf8.{Bytes, as_bytes, as_bytes_ascii, ascii_of_bytes}
use rig_memory_policy.Dedup.Hex.{
  DedupKey, IsKey, nibble, nibble_to_hex, join_nibbles, hex_encode, hex_decode,
}
use rig_memory_policy.Dedup.Hex.Pairs.{decode_pairs, hex_decode_pairs}

-- `char::to_ascii_lowercase`.
abbrev pub to_lower : ℕ → ℕ
to_lower c = if leb b'A' c && leb c b'Z' then c + 32 else c

-- Whether each of the first bytes is made of its two halves, decided by evaluation.
rejoined : ℕ → Bool
rejoined zero = true
rejoined (suc b) = if join_nibbles (b / 16) (b % 16) == b then rejoined b else false

rejoined_every_byte : rejoined 256 ≡ true
unfolding rejoined join_nibbles
rejoined_every_byte = refl

rejoined-join_nibbles :
    (b last : ℕ) → rejoined last ≡ true → b < last → join_nibbles (b / 16) (b % 16) ≡ b
unfolding rejoined
rejoined-join_nibbles b zero e h = absurd (omega arith)
rejoined-join_nibbles b (suc last) e h =
    ground (arith, ==_iff (join_nibbles (last / 16) (last % 16)) last, rejoined-join_nibbles b last)

-- The two halves of a byte make the byte.
join_nibbles_lem : (b : ℕ) → b < 256 → join_nibbles (b / 16) (b % 16) ≡ b
join_nibbles_lem b h = rejoined-join_nibbles b 256 rejoined_every_byte h

-- Two digits make the byte whose halves they are.
join_nibbles_eq : (hi lo : ℕ) → hi < 16 → lo < 16 → join_nibbles hi lo ≡ hi * 16 + lo
join_nibbles_eq hi lo h l =
    let upper : (hi * 16 + lo) / 16 ≡ hi = omega arith in
    let lower : (hi * 16 + lo) % 16 ≡ lo = omega arith in
    rw (upper, lower) at (join_nibbles_lem (hi * 16 + lo) (omega arith))

nibble-nibble_to_hex : (n c : ℕ) → n < 16 → to_lower c ≡ nibble_to_hex n → nibble c ≡ some n
unfolding nibble nibble_to_hex
nibble-nibble_to_hex n c h e = ground arith

nibble-eq_some :
    (c n : ℕ) → nibble c ≡ some n → (n < 16) × (to_lower c ≡ nibble_to_hex n) × (c < 0x80)
unfolding nibble nibble_to_hex
nibble-eq_some c n e = ground arith

hex_encode_join :
    (hi lo : ℕ) (k : DedupKey)
    → hi < 16
    → lo < 16
    → hex_encode (join_nibbles hi lo ∷ k) ≡ nibble_to_hex hi ∷ nibble_to_hex lo ∷ hex_encode k
unfolding hex_encode
hex_encode_join hi lo k h l =
    let upper : join_nibbles hi lo / 16 ≡ hi = omega (arith, join_nibbles_eq hi lo h l) in
    let lower : join_nibbles hi lo % 16 ≡ lo = omega (arith, join_nibbles_eq hi lo h l) in
    rw (upper, lower)

-- What reads as a key, pair by pair.
decode_pairs-eq_some :
    (s : Bytes) (k : DedupKey)
    → decode_pairs s ≡ some k
    → All (λ b. b < 256) k × (map to_lower s ≡ hex_encode k) × All (λ b. b < 0x80) s
unfolding decode_pairs hex_encode
decode_pairs-eq_some [] [] e = (tt, refl, tt)
decode_pairs-eq_some [] (v ∷ k) e = cc
decode_pairs-eq_some (a ∷ []) k e = cc
decode_pairs-eq_some (a ∷ b ∷ s) k e =
    let (hi, ehi, e₁) = >>=-eq_some (nibble a) _ e in
    let (lo, elo, e₂) = >>=-eq_some (nibble b) _ e₁ in
    let (k', ek, e₃) = >>=-eq_some (decode_pairs s) _ e₂ in
    let (hi_small, a_lower, a_ascii) = nibble-eq_some a hi ehi in
    let (lo_small, b_lower, b_ascii) = nibble-eq_some b lo elo in
    let (bytes, lower, ascii) = decode_pairs-eq_some s k' ek in
    subst
      (λ key.
        All (λ v. v < 256) key
        × (map to_lower (a ∷ b ∷ s) ≡ hex_encode key)
        × All (λ v. v < 0x80) (a ∷ b ∷ s))
      (eq_of_some e₃)
      (
        (omega (arith, join_nibbles_eq hi lo hi_small lo_small), bytes),
        rw (hex_encode_join hi lo k' hi_small lo_small, a_lower, b_lower, lower),
        (a_ascii, (b_ascii, ascii)),
      )

decode_pairs-of_lower :
    (s : Bytes) (k : DedupKey)
    → All (λ b. b < 256) k
    → map to_lower s ≡ hex_encode k
    → decode_pairs s ≡ some k
unfolding decode_pairs hex_encode
decode_pairs-of_lower [] [] _ e = refl
decode_pairs-of_lower [] (v ∷ k) _ e = cc
decode_pairs-of_lower (a ∷ []) [] _ e = cc
decode_pairs-of_lower (a ∷ []) (v ∷ k) _ e = cc
decode_pairs-of_lower (a ∷ b ∷ s) [] _ e = cc
decode_pairs-of_lower (a ∷ b ∷ s) (v ∷ k) (hv, hk) e = rw (
  nibble-nibble_to_hex (v / 16) a (omega arith) (cc e),
  nibble-nibble_to_hex (v % 16) b (omega arith) (cc e),
  decode_pairs-of_lower s k hk (cc e),
  join_nibbles_lem v hv,
)

length-hex_encode : (k : DedupKey) → length (hex_encode k) ≡ length k * 2
unfolding hex_encode
length-hex_encode [] = refl
length-hex_encode (b ∷ k) = omega (arith, length-hex_encode k)

nibble_to_hex-ascii : (n : ℕ) → nibble_to_hex n < 0x80
unfolding nibble_to_hex
nibble_to_hex-ascii n = ground arith

ascii_of_lower : (s : Text) (k : DedupKey) → map to_lower s ≡ hex_encode k → All (λ c. c < 0x80) s
unfolding hex_encode
ascii_of_lower [] k e = tt
ascii_of_lower (a ∷ s) [] e = cc
ascii_of_lower (a ∷ []) (v ∷ k) e = cc
ascii_of_lower (a ∷ b ∷ s) (v ∷ k) e =
    (lowered (v / 16) a (cc e), (lowered (v % 16) b (cc e), ascii_of_lower s k (cc e)))
  where
    lowered : (n c : ℕ) → to_lower c ≡ nibble_to_hex n → c < 0x80
    lowered n c h = ground (arith, nibble_to_hex-ascii n)

accepted_bytes :
    (s : Bytes) (k : DedupKey)
    → (if length s == 64 then decode_pairs s else none) ≡ some k
    → (length s ≡ 64) × (decode_pairs s ≡ some k)
accepted_bytes s k e = ground arith

half_of_lower : (s : Text) (k : DedupKey) → map to_lower s ≡ hex_encode k → length s ≡ length k * 2
half_of_lower s k e = sym (length-map to_lower s) ∙ ap length e ∙ length-hex_encode k

-- A text decodes to a key exactly when its lower case is the encoding of that key, 32 bytes long.
pub hex_decode_iff :
    (hex : Text) (k : DedupKey)
    → (hex_decode hex ≡ some k) ↔ (IsKey k × (map to_lower hex ≡ hex_encode k))
hex_decode_iff hex k = (accepted, λ (key, e). complete key e)
  where
    accepted : hex_decode hex ≡ some k → IsKey k × (map to_lower hex ≡ hex_encode k)
    accepted e =
        let (size, pairs) = accepted_bytes (as_bytes hex) k (rw hex_decode_pairs at e) in
        let (bytes, lower, ascii) = decode_pairs-eq_some (as_bytes hex) k pairs in
        let plain = as_bytes_ascii hex (ascii_of_bytes hex ascii) in
        (
          record { size = omega (arith, half_of_lower (as_bytes hex) k lower); bytes = bytes },
          rw plain at lower,
        )

    complete : IsKey k → map to_lower hex ≡ hex_encode k → hex_decode hex ≡ some k
    complete key e =
        let plain = as_bytes_ascii hex (ascii_of_lower hex k e) in
        let full : length hex ≡ 64 = omega (arith, half_of_lower hex k e, key.size) in
        rw (hex_decode_pairs hex, plain, full) (decode_pairs-of_lower hex k key.bytes e)

nibble_to_hex-lower : (n : ℕ) → to_lower (nibble_to_hex n) ≡ nibble_to_hex n
unfolding nibble_to_hex
nibble_to_hex-lower n = ground arith

pub hex_encode-lower : (k : DedupKey) → map to_lower (hex_encode k) ≡ hex_encode k
unfolding hex_encode
hex_encode-lower [] = refl
hex_encode-lower (b ∷ k) = simp (nibble_to_hex-lower, hex_encode-lower k)

-- Every key is read back from its text.
pub hex_decode-hex_encode : (k : DedupKey) → IsKey k → hex_decode (hex_encode k) ≡ some k
hex_decode-hex_encode k key = (hex_decode_iff (hex_encode k) k).1 (key, hex_encode-lower k)

-- So different keys have different texts.
pub hex_encode-injective :
    (k j : DedupKey) → IsKey k → IsKey j → hex_encode k ≡ hex_encode j → k ≡ j
hex_encode-injective k j hk hj e =
    eq_of_some (sym (hex_decode-hex_encode k hk) ∙ ap hex_decode e ∙ hex_decode-hex_encode j hj)
