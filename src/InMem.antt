-- ===== src/InMem.antt =====
-- src/inmem.rs: an append-only store of episodes with lexical retrieval.
pub mod Keys
pub mod Lookup
pub mod History
pub mod Retrieval
pub mod Contents
pub mod Calls
use rig_memory_policy.Prelude.{
  ℕ, zero, suc, ◌+◌, ◌-◌, ◌/◌, ◌%◌, ◌^◌, min, ◌==◌, Bool, true, false, not, List, [], ◌∷◌, ◌++◌,
  map, Option, none, some, Ordering, filter, find, length, is_nil, take, unwrap_or, if◌then◌else◌,
}
use rig_memory_policy.Sort.{sort_by}
use rig_memory_policy.Text.{Text, codes, text_eq, trim_matches}
use rig_memory_policy.Text.Tokens.{Unicode, split_whitespace, is_separator}
use rig_memory_policy.Errors.{PolicyError, Result, ok, err}
use rig_memory_policy.HashSet.{member, collect}
use rig_memory_policy.Floats.{Floats}
use rig_memory_policy.Dedup.Hex.{nibble_to_hex}

-- `trait Episode`.
pub record Episode (E : Type 0) : Type 0 where
  pub summary : E → Text

-- `struct InMemoryHit`.
pub record InMemoryHit (f : Floats) (E : Type 0) : Type 0 where
  pub episode : E
  pub score : f.Single
  pub key : Text

-- `struct InMemoryStore` with its `Inner`: the lock's poison flag, and what it guards.
pub record InMemoryStore (E : Type 0) : Type 0 where
  pub poisoned : Bool
  pub next_key : ℕ
  pub episodes : List (Text × E)

-- `{:0width$x}` for a number that has no more digits.
unfoldable pub lower_hex : ℕ → ℕ → Text
lower_hex zero n = []
lower_hex (suc width) n = lower_hex width (n / 16) ++ nibble_to_hex (n % 16) ∷ []

-- `format!("ep-{:016x}", …)`.
unfoldable pub storage_key : ℕ → Text
storage_key n = codes "ep-" ++ lower_hex 16 n

-- `saturating_add(1)` on `u64`.
abbrev pub next : ℕ → ℕ
next n = min (n + 1) (2 ^ 64 - 1)

-- `normalized_tokens`.
unfoldable pub normalized_tokens : Unicode → Text → List Text
normalized_tokens u input = collect (
    map u.to_lowercase (
      filter (λ token. not (is_nil token))
        (map (trim_matches (is_separator u)) (split_whitespace input))))

-- `query_tokens.intersection(&summary_tokens).count()`.
abbrev pub common : List Text → List Text → ℕ
common query_tokens summary_tokens = length (filter (λ t. member t summary_tokens) query_tokens)

-- `lexical_score`.
unfoldable pub lexical_score : (f : Floats) → Unicode → Text → Text → f.Single
lexical_score f u query summary =
    let query_tokens = normalized_tokens u query in
    let summary_tokens = normalized_tokens u summary in
    if is_nil query_tokens
    then f.nothing
    else f.ratio (f.of_usize (common query_tokens summary_tokens))
        (f.of_usize (length query_tokens))

-- `?`, and the test on the length.
abbrev pub is_zero : Result ℕ → Result Bool
is_zero (ok n) = ok (n == 0)
is_zero (err e) = err e

module _ {E : Type 0} where
  -- `new`, which is `default`.
  unfoldable pub new : InMemoryStore E
  new = record { poisoned = false; next_key = 0; episodes = [] }

  unfoldable pub append : InMemoryStore E → E → InMemoryStore E × Result Text
  append s episode =
      let key = storage_key (next s.next_key) in
      if s.poisoned then (s, err PolicyError.poisoned) else (
        record s { next_key = next s.next_key; episodes = s.episodes ++ (key, episode) ∷ [] },
        ok key,
      )

  -- `.map(…).ok_or_else(…)`.
  abbrev pub found : Text → Option (Text × E) → Result E
  found key none = err (PolicyError.not_found key)
  found key (some stored) = ok stored.1

  unfoldable pub get : InMemoryStore E → Text → Result E
  get s key =
      if s.poisoned
      then err PolicyError.poisoned
      else found key (find (λ stored. text_eq stored.0 key) s.episodes)

  unfoldable pub len : InMemoryStore E → Result ℕ
  len s = if s.poisoned then err PolicyError.poisoned else ok (length s.episodes)

  unfoldable pub is_empty : InMemoryStore E → Result Bool
  unfolding len
  is_empty s = is_zero (len s)

module _ {E : Type 0} (f : Floats) (u : Unicode) (e : Episode E) where
  -- The closure of `filter_map`.
  unfoldable pub hits_of : Text → List (Text × E) → List (InMemoryHit f E)
  hits_of query [] = []
  hits_of query ((key, episode) ∷ snapshot) =
      let score = lexical_score f u query (e.summary episode) in
      if f.is_positive score
      then record { episode = episode; score = score; key = key } ∷ hits_of query snapshot
      else hits_of query snapshot

  -- The comparison of the sort: descending by score.
  abbrev pub by_score : InMemoryHit f E → InMemoryHit f E → Ordering
  by_score a b = unwrap_or (f.partial_cmp b.score a.score) Ordering.eq

  unfoldable pub retrieve_similar : InMemoryStore E → Text → ℕ → Result (List (InMemoryHit f E))
  unfolding hits_of
  retrieve_similar s query k =
      if k == 0
      then ok []
      else if s.poisoned
      then err PolicyError.poisoned
      else ok (take k (sort_by by_score (hits_of query s.episodes)))
