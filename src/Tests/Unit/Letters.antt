-- ===== src/Tests/Unit/Letters.antt =====
-- src/inmem.rs, its tests on letters and punctuation beyond ASCII, with the Cyrillic letters and their
-- case written out.
use rig_memory_policy.Prelude.{
  ◌+◌, leb, Bool, true, ◌&&◌, ◌||◌, [], ◌∷◌, ◌≡◌, refl, map, filter, take, if◌then◌else◌,
}
use rig_memory_policy.Sort.{sort_by}
use rig_memory_policy.HashSet.{member, add, collect}
use rig_memory_policy.Text.{
  Text, codes, text_eq, trim_matches, trim_start_matches, trim_end_matches, is_whitespace,
}
use rig_memory_policy.Text.Tokens.{Unicode, split_whitespace, split_by}
use rig_memory_policy.InMem
use rig_memory_policy.InMem.{append, retrieve_similar, hits_of, lexical_score, normalized_tokens}
use rig_memory_policy.Tests.Retention.{whole_floats}
use rig_memory_policy.Tests.SimHash.{ascii}
use rig_memory_policy.Tests.InMem.{itself}
use rig_memory_policy.Tests.Unit.Stores.{stored, has_length}

-- А to я, U+0410 to U+044F: the small letters are those from U+0430.
abbrev with_cyrillic : Unicode
with_cyrillic = record {
  is_alphanumeric = λ c. ascii.is_alphanumeric c || leb 0x410 c && leb c 0x44f;
  to_lowercase =
      λ s. map (λ c. if leb 0x410 c && leb c 0x42f then c + 0x20 else c) (ascii.to_lowercase s);
}

abbrev finds_one : Text → Text → Bool
finds_one episode query =
    has_length 1
      (retrieve_similar whole_floats with_cyrillic itself (stored (episode ∷ [])) query 5)

abbrev retrieve_handles_unicode_case_folding : Bool
retrieve_handles_unicode_case_folding =
    finds_one (codes "ПОЛЬЗОВАТЕЛЬ logged in") (codes "пользователь")

abbrev retrieve_trims_unicode_punctuation : Bool
retrieve_trims_unicode_punctuation =
    finds_one (codes "「scheduled-task」 beacon") (codes "scheduled-task")

letters_pass : (retrieve_handles_unicode_case_folding && retrieve_trims_unicode_punctuation) ≡ true
unfolding append InMem.new retrieve_similar hits_of lexical_score normalized_tokens split_whitespace
    split_by is_whitespace trim_matches trim_start_matches trim_end_matches filter collect add
    member text_eq sort_by take
letters_pass = refl
