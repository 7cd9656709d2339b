-- ===== src/Tests/Unit/Hashes.antt =====
-- The tests of src/dedup.rs and tests/policy_pipeline.rs that take a fingerprint or a key of many
-- texts, with a hash that is the first bytes of the input.
use rig_memory_policy.Prelude.{
  ℕ, zero, suc, ◌==◌, ltb, Bool, true, false, not, ◌&&◌, none, some, ◌≡◌, refl, length, take,
  filter,
}
use rig_memory_policy.Bits.{count_ones}
use rig_memory_policy.Text.{
  codes, text_eq, is_whitespace, trim_matches, trim_start_matches, trim_end_matches,
}
use rig_memory_policy.Text.Utf8.{as_bytes, utf8}
use rig_memory_policy.Text.Tokens.{split_whitespace, split_by}
use rig_memory_policy.Metadata.Map.{to_string}
use rig_memory_policy.Dedup.Hex.{
  hex_encode, hex_decode, nibble_to_hex, nibble, decode_from, join_nibbles,
}
use rig_memory_policy.Dedup.Key.{compute_key}
use rig_memory_policy.Dedup.SimHash.{
  from_text, bits, hamming_distance, is_near, token_hash, token_hash_8, from_le_bytes, count_tokens,
  count_token, set_bits,
}
use rig_memory_policy.Tests.Unit.Keys.{key, fingerprint}

abbrev identical_inputs_produce_identical_keys : Bool
identical_inputs_produce_identical_keys =
    let a = key (codes "demoted_message") (codes "c1") (codes "user") none (codes "hello") in
    let b = key (codes "demoted_message") (codes "c1") (codes "user") none (codes "hello") in
    text_eq a b

-- The body of the loop for one number.
abbrev hex_round_trips : ℕ → Bool
hex_round_trips i =
    let key = key (codes "kind") (codes "conv") (codes "role") none (to_string i) in
    let encoded = hex_encode key in
    (length encoded == 64)
    && elim (hex_decode encoded) [ some decoded ↦ text_eq decoded key | none ↦ false ]

abbrev all_below : (ℕ → Bool) → ℕ → Bool
all_below test zero = true
all_below test (suc n) = all_below test n && test n

abbrev hex_round_trips_for_many_keys : Bool
hex_round_trips_for_many_keys = all_below hex_round_trips 512

abbrev simhash_distinct_topics_are_far_apart : Bool
simhash_distinct_topics_are_far_apart =
    let a = fingerprint (codes "scheduled maintenance window tonight") in
    let b = fingerprint (codes "quarterly revenue forecast spreadsheet") in
    ltb 8 (hamming_distance a b)

abbrev sota_simhash_pipeline : Bool
sota_simhash_pipeline =
    let hash1 = fingerprint (codes "user wants to learn rust programming") in
    let hash2 = fingerprint (codes "rust programming learn wants to user") in
    let hash3 = fingerprint (codes "completely different topic about deployment") in
    is_near hash1 hash2 8 && not (is_near hash1 hash3 8)

keys_pass : (identical_inputs_produce_identical_keys && hex_round_trips_for_many_keys) ≡ true
unfolding compute_key as_bytes utf8 text_eq take hex_encode hex_decode nibble_to_hex nibble
    decode_from join_nibbles to_string
keys_pass = refl

fingerprints_pass : (simhash_distinct_topics_are_far_apart && sota_simhash_pipeline) ≡ true
unfolding from_text bits hamming_distance is_near count_ones token_hash token_hash_8 from_le_bytes
    count_tokens count_token set_bits trim_matches trim_start_matches trim_end_matches as_bytes utf8
    take split_whitespace split_by is_whitespace filter
fingerprints_pass = refl
