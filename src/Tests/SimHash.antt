-- ===== src/Tests/SimHash.antt =====
-- Runs of `SimHash` in src/dedup.rs, with the letters and case of ASCII and a hash by the first letter.
use mathlib.Core.List.Perm
use rig_memory_policy.Prelude.{
  ℕ, ◌+◌, ◌^◌, ◌≤◌, ◌<◌, leb, ◌&&◌, ◌||◌, [], ◌∷◌, List, ◌≡◌, ◌↔◌, refl, arith, map, length,
  replicate, filter,
}
use rig_memory_policy.Text.{
  codes, trim_matches, trim_start_matches, trim_end_matches, is_whitespace,
}
use rig_memory_policy.Text.Tokens.{Unicode, split_whitespace, split_by}
use rig_memory_policy.Dedup.Hex.RoundTrip.{to_lower}
use rig_memory_policy.Dedup.Key.{Blake3}
use rig_memory_policy.Dedup.SimHash.{SimHash, bits, from_text, hamming_distance}
use rig_memory_policy.Dedup.SimHash.Majority.{
  majority_word, tokens_of, hash_of, hashes_of, from_text-majority_word,
}
use rig_memory_policy.Dedup.SimHash.Locality.{thin_bits, hamming_distance-le-thin_bits}
use rig_memory_policy.Dedup.SimHash.Distance.{hamming_distance-metric}

abbrev pub ascii : Unicode
ascii = record {
  is_alphanumeric =
      λ c. leb b'0' c && leb c b'9' || leb b'a' c && leb c b'z' || leb b'A' c && leb c b'Z';
  to_lowercase = map to_lower;
}

abbrev letter_hash : Blake3
letter_hash = record {
  Hasher = List ℕ;
  new = [];
  update = λ h b. h;
  finalize = λ h. replicate 32 0;
  hash = λ b. b;
}

words_in_any_case :
    tokens_of ascii (split_whitespace (codes "Up, down")) ≡ codes "up" ∷ codes "down" ∷ []
unfolding tokens_of split_whitespace split_by is_whitespace trim_matches trim_start_matches
    trim_end_matches filter
words_in_any_case = refl

few_tokens : length (hashes_of letter_hash ascii (codes "Up, down")) < 2 ^ 31
unfolding tokens_of split_whitespace split_by is_whitespace trim_matches trim_start_matches
    trim_end_matches filter
few_tokens = omega arith

from_text-majority_word_example :
    bits (from_text letter_hash ascii (codes "Up, down"))
    ≡ majority_word 64 0 (hashes_of letter_hash ascii (codes "Up, down"))
from_text-majority_word_example =
    from_text-majority_word letter_hash ascii (codes "Up, down") few_tokens

few_others : length (tokens_of ascii (split_whitespace (codes "left up"))) < 2 ^ 31
unfolding tokens_of split_whitespace split_by is_whitespace trim_matches trim_start_matches
    trim_end_matches filter
few_others = omega arith

few_words : length (tokens_of ascii (split_whitespace (codes "Up, down"))) < 2 ^ 31
unfolding tokens_of split_whitespace split_by is_whitespace trim_matches trim_start_matches
    trim_end_matches filter
few_words = omega arith

hamming_distance-le-thin_bits_example :
    hamming_distance
      (from_text letter_hash ascii (codes "Up, down"))
      (from_text letter_hash ascii (codes "left up"))
    ≤ thin_bits 64 0 1 (map (hash_of letter_hash) (codes "up" ∷ []))
unfolding tokens_of split_whitespace split_by is_whitespace trim_matches trim_start_matches
    trim_end_matches filter
hamming_distance-le-thin_bits_example =
    hamming_distance-le-thin_bits letter_hash ascii (codes "Up, down") (codes "left up")
      (codes "up" ∷ []) (codes "down" ∷ []) (codes "left" ∷ []) 1 few_words few_others (Perm.refl _)
      (Perm.swap (codes "up") (codes "left") []) (omega arith) (omega arith)

abbrev five : SimHash
five = record { value = 5 }

abbrev six : SimHash
six = record { value = 6 }

hamming_distance-metric_example :
    ((hamming_distance five six ≡ 0) ↔ (five.value ≡ six.value))
    × (hamming_distance five six ≡ hamming_distance six five)
    × (hamming_distance five five ≤ hamming_distance five six + hamming_distance six five)
    × (hamming_distance five six ≤ 64)
hamming_distance-metric_example = hamming_distance-metric five six five (omega arith) (omega arith)
