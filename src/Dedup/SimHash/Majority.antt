-- ===== src/Dedup/SimHash/Majority.antt =====
-- What a fingerprint says of its text: bit by bit, the majority among the hashes of the tokens.
use rig_memory_policy.Prelude.{
  ℕ, zero, suc, ◌+◌, ◌^◌, ◌<◌, Bool, true, false, ◌||◌, not, List, [], ◌∷◌, ◌≡◌, refl, sym, ap, ◌∙◌,
  arith, map, filter, length, is_nil, replicate, if◌then◌else◌, Bool-cases, inl, inr,
}
use rig_memory_policy.Bits.{bit_or-power}
use rig_memory_policy.Text.{Text, trim_matches}
use rig_memory_policy.Text.Utf8.{as_bytes}
use rig_memory_policy.Text.Tokens.{Unicode, split_whitespace, is_separator}
use rig_memory_policy.Dedup.Key.{Blake3}
use rig_memory_policy.Dedup.SimHash.{
  count_token, count_tokens, set_bits, token_hash, token_hash_8, from_le_bytes, from_text, bits,
}
use rig_memory_policy.Dedup.SimHash.Columns.{majority, tally, tally-is_positive}

-- The word with the bits of the majorities, from a bit on.
unfoldable pub majority_word : ℕ → ℕ → List ℕ → ℕ
majority_word zero bit hashes = 0
majority_word (suc width) bit hashes =
    (if majority bit hashes then 2 ^ bit else 0) + majority_word width (suc bit) hashes

-- Columns from a bit on, over all hashes.
tallies : ℕ → List ℕ → List ℕ → List ℕ
tallies bit hashes [] = []
tallies bit hashes (column ∷ columns) = tally bit hashes column ∷ tallies (suc bit) hashes columns

tallies-nil : (bit : ℕ) (columns : List ℕ) → tallies bit [] columns ≡ columns
unfolding tallies tally
tallies-nil bit [] = refl
tallies-nil bit (column ∷ columns) = ap (◌∷◌ column) (tallies-nil (suc bit) columns)

tallies-cons :
    (bit hash : ℕ) (hashes columns : List ℕ)
    → tallies bit hashes (count_token hash bit columns) ≡ tallies bit (hash ∷ hashes) columns
unfolding tallies tally count_token
tallies-cons bit hash hashes [] = refl
tallies-cons bit hash hashes (column ∷ columns) =
    ap (◌∷◌ (tally bit (hash ∷ hashes) column)) (tallies-cons (suc bit) hash hashes columns)

-- The second loop makes the word of the majorities.
set_bits-tallies :
    (width bit fingerprint : ℕ) (hashes : List ℕ)
    → length hashes < 2 ^ 31
    → fingerprint < 2 ^ bit
    → set_bits bit (tallies bit hashes (replicate width 0)) fingerprint
      ≡ fingerprint + majority_word width bit hashes
unfolding set_bits tallies majority_word
set_bits-tallies zero bit fingerprint hashes h l = omega arith
set_bits-tallies (suc width) bit fingerprint hashes h l =
    rw (set_bits, tally-is_positive bit hashes h)
      (elim (Bool-cases (majority bit hashes)) [
        | inl e ↦
            rw (e, bit_or-power bit fingerprint l)
              (set_bits-tallies width (suc bit) (fingerprint + 2 ^ bit) hashes h (omega arith)
                ∙ omega arith)
        | inr e ↦
            rw e (set_bits-tallies width (suc bit) fingerprint hashes h (omega arith) ∙ omega arith)
      ])

zero_add : (n : ℕ) → 0 + n ≡ n
zero_add n = omega arith

or_true : (any : Bool) → true ≡ (any || true)
or_true true = refl
or_true false = refl

-- The tokens that count, in lower case.
unfoldable pub tokens_of : Unicode → List Text → List Text
tokens_of u given =
    map u.to_lowercase
      (filter (λ token. not (is_nil token)) (map (trim_matches (is_separator u)) given))

abbrev pub hash_of : Blake3 → Text → ℕ
hash_of b token = from_le_bytes (token_hash_8 b (as_bytes token))

-- The hashes of the tokens of a text.
abbrev pub hashes_of : Blake3 → Unicode → Text → List ℕ
hashes_of b u text = map (hash_of b) (tokens_of u (split_whitespace text))

module _ (b : Blake3) (u : Unicode) where
  count_tokens_lem :
      (given : List Text) (columns : List ℕ) (any : Bool)
      → count_tokens b u given columns any ≡ (
        tallies 0 (map (hash_of b) (tokens_of u given)) columns,
        any || not (is_nil (tokens_of u given)),
      )
  unfolding count_tokens tokens_of filter token_hash
  count_tokens_lem [] columns true = rw (tallies-nil 0 columns) refl
  count_tokens_lem [] columns false = rw (tallies-nil 0 columns) refl
  count_tokens_lem (given ∷ others) columns any =
      let token = trim_matches (is_separator u) given in
      elim (Bool-cases (is_nil token)) [
        | inl e ↦ rw (count_tokens, e) (count_tokens_lem others columns any)
        | inr e ↦
            let hash = hash_of b (u.to_lowercase token) in
            rw (count_tokens, e)
              (count_tokens_lem others (count_token hash 0 columns) true
                ∙ rw (tallies-cons 0 hash (map (hash_of b) (tokens_of u others)) columns) (
                    ap
                      (λ found.
                        (tallies 0 (hash ∷ map (hash_of b) (tokens_of u others)) columns, found))
                      (or_true any)))
      ]

  majority_word-nil : (width bit : ℕ) → majority_word width bit [] ≡ 0
  unfolding majority_word
  majority_word-nil zero bit = refl
  majority_word-nil (suc width) bit = omega (arith, majority_word-nil width (suc bit))

  -- For a text with fewer than 2^31 tokens, bit by bit from 0 to 63: the fingerprint has a bit
  -- exactly if more than half of the hashes of its tokens, trimmed and in lower case, have it.
  pub from_text-majority_word :
      (text : Text)
      → length (hashes_of b u text) < 2 ^ 31
      → bits (from_text b u text) ≡ majority_word 64 0 (hashes_of b u text)
  unfolding from_text bits
  from_text-majority_word text h =
      rw (count_tokens_lem (split_whitespace text) (replicate 64 0) false)
        (finish (tokens_of u (split_whitespace text)) h)
    where
      finish :
          (tokens : List Text)
          → length (map (hash_of b) tokens) < 2 ^ 31
          → bits (
              if not (is_nil tokens)
              then record {
                value = set_bits 0 (tallies 0 (map (hash_of b) tokens) (replicate 64 0)) 0;
              }
              else record { value = 0 })
            ≡ majority_word 64 0 (map (hash_of b) tokens)
      finish [] l = sym (majority_word-nil 64 0)
      finish (token ∷ tokens) l =
          set_bits-tallies 64 0 0 (map (hash_of b) (token ∷ tokens)) l (omega arith) ∙ zero_add _
