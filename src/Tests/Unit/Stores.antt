-- ===== src/Tests/Unit/Stores.antt =====
-- src/inmem.rs, its tests on ASCII texts, with the letters and case of ASCII and whole numbers for
-- the floats. A text is its own episode.
use rig_memory_policy.Prelude.{
  ℕ, ◌==◌, Bool, true, false, not, ◌&&◌, List, [], ◌∷◌, ◌≡◌, refl, Ordering, filter, find, take,
  length,
}
use rig_memory_policy.Sort.{sort_by}
use rig_memory_policy.HashSet.{member, add, collect}
use rig_memory_policy.Text.{
  Text, codes, text_eq, trim_matches, trim_start_matches, trim_end_matches, is_whitespace,
}
use rig_memory_policy.Text.Order.{compare_text}
use rig_memory_policy.Text.Tokens.{split_whitespace, split_by}
use rig_memory_policy.Errors.{PolicyError, Result, ok, err}
use rig_memory_policy.Dedup.Hex.{nibble_to_hex}
use rig_memory_policy.InMem
use rig_memory_policy.InMem.{
  InMemoryStore, InMemoryHit, append, retrieve_similar, get, storage_key, lower_hex, lexical_score,
  normalized_tokens, hits_of,
}
use rig_memory_policy.InMem.History.{append_all}
use rig_memory_policy.Tests.Retention.{whole_floats}
use rig_memory_policy.Tests.SimHash.{ascii}
use rig_memory_policy.Tests.InMem.{itself}

-- The store after appending the texts to an empty one.
abbrev pub stored : List Text → InMemoryStore Text
stored episodes = append_all InMem.new episodes

abbrev hits : List Text → Text → ℕ → Result (List (InMemoryHit whole_floats Text))
hits episodes query k = retrieve_similar whole_floats ascii itself (stored episodes) query k

abbrev pub has_length : {A : Type 0} → ℕ → Result (List A) → Bool
has_length n (ok xs) = length xs == n
has_length n (err e) = false

abbrev in_order : Result Text → Result Text → Bool
in_order (ok a) (ok b) = elim (compare_text a b) [ Ordering.lt ↦ true | _ ↦ false ]
in_order _ _ = false

abbrev append_assigns_unique_ordered_keys : Bool
append_assigns_unique_ordered_keys =
    let first = append InMem.new (codes "a") in in_order first.1 (append first.0 (codes "b")).1

abbrev first_is : Text → Result (List (InMemoryHit whole_floats Text)) → Bool
first_is episode (ok (hit ∷ _)) = text_eq hit.episode episode
first_is episode _ = false

abbrev retrieve_returns_top_k_by_score : Bool
retrieve_returns_top_k_by_score =
    let answer =
      hits (codes "powershell maintenance scheduled task" ∷ codes "ddos amplification spike" ∷ [])
        (codes "powershell scheduled") 5 in
    has_length 1 answer && first_is (codes "powershell maintenance scheduled task") answer

abbrev retrieve_skips_zero_score_hits : Bool
retrieve_skips_zero_score_hits = has_length 0 (hits (codes "alpha bravo" ∷ []) (codes "zulu") 5)

abbrev retrieve_matches_case_insensitively : Bool
retrieve_matches_case_insensitively =
    has_length 1 (hits (codes "PowerShell scheduled task" ∷ []) (codes "powershell") 5)

abbrev retrieve_trims_simple_punctuation : Bool
retrieve_trims_simple_punctuation =
    has_length 1
      (hits (codes "powershell, scheduled-task beacon" ∷ []) (codes "powershell scheduled-task") 5)

abbrev is_not_found : Result Text → Bool
is_not_found (err (PolicyError.not_found _)) = true
is_not_found _ = false

abbrev get_returns_not_found_for_unknown_key : Bool
get_returns_not_found_for_unknown_key = is_not_found (get (stored []) (codes "nope"))

abbrev answers_true : Result Bool → Bool
answers_true (ok b) = b
answers_true (err e) = false

abbrev answers_false : Result Bool → Bool
answers_false (ok b) = not b
answers_false (err e) = false

abbrev counts : ℕ → Result ℕ → Bool
counts n (ok m) = m == n
counts n (err e) = false

abbrev len_and_is_empty_track_inserts : Bool
len_and_is_empty_track_inserts =
    answers_true (InMem.is_empty (stored []))
    && counts 1 (InMem.len (stored (codes "x" ∷ [])))
    && answers_false (InMem.is_empty (stored (codes "x" ∷ [])))

abbrev k_zero_returns_empty : Bool
k_zero_returns_empty = has_length 0 (hits (codes "alpha" ∷ []) (codes "alpha") 0)

stores_pass :
    (append_assigns_unique_ordered_keys && get_returns_not_found_for_unknown_key
      && len_and_is_empty_track_inserts && k_zero_returns_empty)
    ≡ true
unfolding append InMem.new get InMem.is_empty InMem.len storage_key lower_hex nibble_to_hex
    compare_text find retrieve_similar
stores_pass = refl

retrievals_pass :
    (retrieve_returns_top_k_by_score && retrieve_skips_zero_score_hits
      && retrieve_matches_case_insensitively && retrieve_trims_simple_punctuation)
    ≡ true
unfolding append InMem.new retrieve_similar hits_of lexical_score normalized_tokens split_whitespace
    split_by is_whitespace trim_matches trim_start_matches trim_end_matches filter collect add
    member text_eq sort_by take
retrievals_pass = refl
