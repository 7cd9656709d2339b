-- ===== src/Dedup/SimHash/Locality.antt =====
-- How far apart the fingerprints of two texts can be that share most of their tokens.
use Prim.Native.Nat.{bit_xor}
use mathlib.Core.Path.{ap₂}
use mathlib.Core.List.{map-append}
use mathlib.Core.List.Perm
use rig_memory_policy.Prelude.{
  ℕ, zero, suc, ◌+◌, ◌*◌, ◌/◌, ◌%◌, ◌^◌, ◌<◌, ◌≤◌, ltb, leb, ◌==◌, Bool, false, ◌&&◌, List, [], ◌∷◌,
  ◌++◌, ◌≡◌, refl, ap, ◌∙◌, arith, map, length, length-append, length-map, if◌then◌else◌, Perm,
}
use rig_memory_policy.Bits.{count_ones, count_ones-bit_xor}
use rig_memory_policy.Text.{Text}
use rig_memory_policy.Text.Tokens.{Unicode, split_whitespace}
use rig_memory_policy.Dedup.Key.{Blake3}
use rig_memory_policy.Dedup.SimHash.{from_text, bits, hamming_distance}
use rig_memory_policy.Dedup.SimHash.Columns.{votes, majority, votes-le_length}
use rig_memory_policy.Dedup.SimHash.Majority.{
  majority_word, tokens_of, hash_of, hashes_of, from_text-majority_word,
}
use rig_memory_policy.Dedup.SimHash.Reorder.{majority_word_perm}

-- The word of the majorities from a bit on, its first digit at a given place.
word_at : ℕ → ℕ → ℕ → List ℕ → ℕ
word_at zero place bit hashes = 0
word_at (suc width) place bit hashes =
    (if majority bit hashes then 2 ^ place else 0) + word_at width (suc place) (suc bit) hashes

majority_word-word_at :
    (width bit : ℕ) (hashes : List ℕ)
    → majority_word width bit hashes ≡ word_at width bit bit hashes
unfolding majority_word word_at
majority_word-word_at zero bit hashes = refl
majority_word-word_at (suc width) bit hashes =
    ap (λ n. (if majority bit hashes then 2 ^ bit else 0) + n)
      (majority_word-word_at width (suc bit) hashes)

word_at-suc :
    (width place bit : ℕ) (hashes : List ℕ)
    → word_at width (suc place) bit hashes ≡ 2 * word_at width place bit hashes
unfolding word_at
word_at-suc zero place bit hashes = refl
word_at-suc (suc width) place bit hashes =
    ground (arith, word_at-suc width (suc place) (suc bit) hashes)

abbrev one_apart : Bool → Bool → ℕ
one_apart x y = if x then (if y then 0 else 1) else (if y then 1 else 0)

differ_digit :
    (width : ℕ) (x y : Bool) (w w' v v' : ℕ)
    → v ≡ 2 * w
    → v' ≡ 2 * w'
    → count_ones (suc width) (bit_xor ((if x then 1 else 0) + v) ((if y then 1 else 0) + v'))
      ≡ one_apart x y + count_ones width (bit_xor w w')
differ_digit width x y w w' v v' e e' =
    let a = (if x then 1 else 0) + v in
    let b = (if y then 1 else 0) + v' in
    let half : a / 2 ≡ w = ground arith in
    let half' : b / 2 ≡ w' = ground arith in
    let apart : (if a % 2 == b % 2 then 0 else 1) ≡ one_apart x y = ground arith in
    count_ones-bit_xor width a b
    ∙ ap₂ ◌+◌ apart (ap₂ (λ p q. count_ones width (bit_xor p q)) half half')

-- The number of bits about which the majorities disagree.
disagreements : ℕ → ℕ → List ℕ → List ℕ → ℕ
disagreements zero bit l r = 0
disagreements (suc width) bit l r =
    one_apart (majority bit l) (majority bit r) + disagreements width (suc bit) l r

count_ones-disagreements :
    (width bit : ℕ) (l r : List ℕ)
    → count_ones width (bit_xor (word_at width 0 bit l) (word_at width 0 bit r))
      ≡ disagreements width bit l r
unfolding disagreements word_at
count_ones-disagreements zero bit l r = unfold count_ones in refl
count_ones-disagreements (suc width) bit l r =
    differ_digit width (majority bit l) (majority bit r) _ _ _ _ (word_at-suc width 0 (suc bit) l)
      (word_at-suc width 0 (suc bit) r)
    ∙ ap (λ n. one_apart (majority bit l) (majority bit r) + n)
        (count_ones-disagreements width (suc bit) l r)

-- The votes for and against the bit are so close that `changed` tokens can turn the majority.
abbrev pub is_thin : ℕ → ℕ → List ℕ → Bool
is_thin changed bit hashes =
    leb (2 * votes bit hashes) (length hashes + changed)
    && ltb (length hashes) (2 * votes bit hashes + changed)

unfoldable pub thin_bits : ℕ → ℕ → ℕ → List ℕ → ℕ
thin_bits zero bit changed hashes = 0
thin_bits (suc width) bit changed hashes =
    (if is_thin changed bit hashes then 1 else 0) + thin_bits width (suc bit) changed hashes

votes-append : (bit : ℕ) (l r : List ℕ) → votes bit (l ++ r) ≡ votes bit l + votes bit r
votes-append bit [] r = omega arith
votes-append bit (hash ∷ l) r = omega (arith, votes-append bit l r)

majority_of_thick :
    (changed bit : ℕ) (common l r : List ℕ)
    → length l ≤ changed
    → length r ≤ changed
    → is_thin changed bit common ≡ false
    → majority bit (common ++ l) ≡ majority bit (common ++ r)
majority_of_thick changed bit common l r hl hr thick = ground (
  arith,
  votes-append bit common l,
  votes-append bit common r,
  length-append common l,
  length-append common r,
  votes-le_length bit l,
  votes-le_length bit r,
)

at_most_thin :
    (thin x y : Bool) (m n : ℕ)
    → (thin ≡ false → x ≡ y)
    → m ≤ n
    → one_apart x y + m ≤ (if thin then 1 else 0) + n
at_most_thin thin x y m n same h = ground (arith, same)

disagreements-le-thin_bits :
    (width bit changed : ℕ) (common l r : List ℕ)
    → length l ≤ changed
    → length r ≤ changed
    → disagreements width bit (common ++ l) (common ++ r) ≤ thin_bits width bit changed common
unfolding disagreements thin_bits
disagreements-le-thin_bits zero bit changed common l r hl hr = omega arith
disagreements-le-thin_bits (suc width) bit changed common l r hl hr =
    at_most_thin (is_thin changed bit common) _ _ _ _
      (majority_of_thick changed bit common l r hl hr)
      (disagreements-le-thin_bits width (suc bit) changed common l r hl hr)

module _ (b : Blake3) (u : Unicode) where
  bits_of_split :
      (text : Text) (common rest : List Text)
      → length (tokens_of u (split_whitespace text)) < 2 ^ 31
      → Perm (tokens_of u (split_whitespace text)) (common ++ rest)
      → bits (from_text b u text) ≡ word_at 64 0 0 (map (hash_of b) common ++ map (hash_of b) rest)
  bits_of_split text common rest few p =
      let hashes : Perm (hashes_of b u text) (map (hash_of b) (common ++ rest)) =
        Perm.map (hash_of b) p in
      let few' : length (hashes_of b u text) < 2 ^ 31 =
        omega (arith, length-map (hash_of b) (tokens_of u (split_whitespace text))) in
      from_text-majority_word b u text few'
      ∙ majority_word_perm 64 0 _ _ hashes
      ∙ majority_word-word_at 64 0 _
      ∙ ap (word_at 64 0 0) (map-append (hash_of b) common rest)

  -- The distance of the fingerprints of two texts, each of fewer than 2^31 tokens, that share the
  -- tokens `common` and have at most `changed` others each, in any order, is at most the number of the
  -- bits for which the common tokens with the bit outnumber those without it by at most `changed`, or
  -- are outnumbered by them by fewer than `changed`.
  pub hamming_distance-le-thin_bits :
      (text other : Text) (common l r : List Text) (changed : ℕ)
      → length (tokens_of u (split_whitespace text)) < 2 ^ 31
      → length (tokens_of u (split_whitespace other)) < 2 ^ 31
      → Perm (tokens_of u (split_whitespace text)) (common ++ l)
      → Perm (tokens_of u (split_whitespace other)) (common ++ r)
      → length l ≤ changed
      → length r ≤ changed
      → hamming_distance (from_text b u text) (from_text b u other)
        ≤ thin_bits 64 0 changed (map (hash_of b) common)
  hamming_distance-le-thin_bits text other common l r changed few few' p p' hl hr =
      let apart : hamming_distance (from_text b u text) (from_text b u other)
          ≡ disagreements 64 0 (map (hash_of b) common ++ map (hash_of b) l)
              (map (hash_of b) common ++ map (hash_of b) r) =
        unfold hamming_distance in
        unfold bits in
        ap₂ (λ v w. count_ones 64 (bit_xor v w)) (bits_of_split text common l few p)
          (bits_of_split other common r few' p')
        ∙ count_ones-disagreements 64 0 _ _ in
      let bound =
        disagreements-le-thin_bits 64 0 changed (map (hash_of b) common) (map (hash_of b) l)
          (map (hash_of b) r) (omega (arith, length-map (hash_of b) l))
          (omega (arith, length-map (hash_of b) r)) in
      omega (arith, apart, bound)
