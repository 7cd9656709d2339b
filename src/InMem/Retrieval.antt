-- ===== src/InMem/Retrieval.antt =====
-- What `retrieve_similar` finds: the stored episodes that share a token with the query, best first.
use rig_memory_policy.Prelude.{
  ℕ, zero, suc, ltb, ◌==◌, ◌<◌, true, false, List, [], ◌∷◌, ◌≡◌, refl, sym, ap, arith, map, filter,
  length, is_nil, take, drop, Ordering, unwrap_or, if◌then◌else◌, Bool-cases, inl, inr,
}
use rig_memory_policy.Sort.{sort_by, IsTotal}
use rig_memory_policy.Sort.Orders.{reversed-IsTotal, by_key-IsTotal}
use rig_memory_policy.Sort.Selection.{
  IsSelection, sort_by-IsSelection, nil-IsSelection, sort_by-map, map-take,
}
use rig_memory_policy.Text.{Text}
use rig_memory_policy.Text.Tokens.{Unicode}
use rig_memory_policy.Errors.{ok}
use rig_memory_policy.Floats.{Floats}
use rig_memory_policy.InMem.{
  Episode, InMemoryHit, InMemoryStore, normalized_tokens, common, lexical_score, hits_of, by_score,
  retrieve_similar,
}

-- The ratio of two counts as `f32`: positive exactly for a positive count, and in the order of the
-- counts, up to rounding, so that `partial_cmp` orders the ratios to one total.
pub record IsRatio (f : Floats) : Type 0 where
  pub nothing : f.is_positive f.nothing ≡ false
  pub positive : (n m : ℕ) → 0 < m → f.is_positive (f.ratio (f.of_usize n) (f.of_usize m)) ≡ ltb 0 n
  pub ordered :
      (m : ℕ)
      → 0 < m
      → IsTotal (λ n n'.
        unwrap_or
          (f.partial_cmp
            (f.ratio (f.of_usize n) (f.of_usize m))
            (f.ratio (f.of_usize n') (f.of_usize m)))
          Ordering.eq)

true_ne_false : true ≡ false → ⊥
true_ne_false h = cc

no_common : (asked given : List Text) → is_nil asked ≡ true → common asked given ≡ 0
unfolding filter
no_common [] given h = refl
no_common (t ∷ asked) given h = absurd (true_ne_false (sym h))

not_zero : (k : ℕ) → (suc k == 0) ≡ false
not_zero k = ground arith

module _ {E : Type 0} (f : Floats) (u : Unicode) (e : Episode E) (query : Text) where
  -- The number of tokens that an episode shares with the query.
  abbrev pub shared : Text × E → ℕ
  shared stored = common (normalized_tokens u query) (normalized_tokens u (e.summary stored.1))

  -- The stored episodes that share a token with the query.
  abbrev pub matching : List (Text × E) → List (Text × E)
  matching = filter (λ stored. ltb 0 (shared stored))

  -- The hit that a stored episode gives.
  abbrev pub hit_of : Text × E → InMemoryHit f E
  hit_of stored = record {
    episode = stored.1;
    score = lexical_score f u query (e.summary stored.1);
    key = stored.0;
  }

  -- Descending by score.
  abbrev pub more_similar : Text × E → Text × E → Ordering
  more_similar a b =
      unwrap_or
        (f.partial_cmp (lexical_score f u query (e.summary b.1))
          (lexical_score f u query (e.summary a.1)))
        Ordering.eq

  module _ (r : IsRatio f) where
    score-is_positive :
        (stored : Text × E)
        → f.is_positive (lexical_score f u query (e.summary stored.1)) ≡ ltb 0 (shared stored)
    unfolding lexical_score filter
    score-is_positive stored =
        by_tokens (normalized_tokens u query) (normalized_tokens u (e.summary stored.1))
      where
        by_tokens :
            (asked given : List Text)
            → f.is_positive (
                if is_nil asked
                then f.nothing
                else f.ratio (f.of_usize (common asked given)) (f.of_usize (length asked)))
              ≡ ltb 0 (common asked given)
        by_tokens [] given = r.nothing
        by_tokens (t ∷ asked) given =
            r.positive (common (t ∷ asked) given) (length (t ∷ asked)) (omega arith)

    hits_of_lem :
        (episodes : List (Text × E)) → hits_of f u e query episodes ≡ map hit_of (matching episodes)
    unfolding hits_of filter
    hits_of_lem [] = refl
    hits_of_lem (stored ∷ episodes) = elim (Bool-cases (ltb 0 (shared stored))) [
      | inl h ↦ rw (score-is_positive stored, h) (ap (◌∷◌ (hit_of stored)) (hits_of_lem episodes))
      | inr h ↦ rw (score-is_positive stored, h) (hits_of_lem episodes)
    ]

    more_similar-IsTotal : is_nil (normalized_tokens u query) ≡ false → IsTotal more_similar
    unfolding lexical_score
    more_similar-IsTotal = by_tokens (normalized_tokens u query)
      where
        by_tokens :
            (asked : List Text)
            → is_nil asked ≡ false
            → IsTotal (λ (a b : Text × E).
              unwrap_or
                (f.partial_cmp
                  (if is_nil asked
                    then f.nothing
                    else f.ratio
                        (f.of_usize (common asked (normalized_tokens u (e.summary b.1))))
                        (f.of_usize (length asked)))
                  (if is_nil asked
                    then f.nothing
                    else f.ratio
                        (f.of_usize (common asked (normalized_tokens u (e.summary a.1))))
                        (f.of_usize (length asked))))
                Ordering.eq)
        by_tokens [] h = absurd (true_ne_false h)
        by_tokens (t ∷ asked) h = reversed-IsTotal _ (
            by_key-IsTotal _
              (λ (stored : Text × E). common (t ∷ asked) (normalized_tokens u (e.summary stored.1)))
              (r.ordered (length (t ∷ asked)) (omega arith)))

    matching-nil :
        (episodes : List (Text × E))
        → is_nil (normalized_tokens u query) ≡ true
        → matching episodes ≡ []
    unfolding filter
    matching-nil [] h = refl
    matching-nil (stored ∷ episodes) h =
        rw (no_common (normalized_tokens u query) (normalized_tokens u (e.summary stored.1)) h)
          (matching-nil episodes h)

    ranked-IsSelection :
        (k : ℕ) (episodes : List (Text × E))
        → IsSelection more_similar k
            (matching episodes)
            (take k (sort_by more_similar (matching episodes)))
            (drop k (sort_by more_similar (matching episodes)))
    ranked-IsSelection k episodes = elim (Bool-cases (is_nil (normalized_tokens u query))) [
      | inl h ↦ rw (matching-nil episodes h) (nil-IsSelection more_similar k)
      | inr h ↦ sort_by-IsSelection more_similar k (matching episodes) (more_similar-IsTotal h)
    ]

    ranked_hits :
        (k : ℕ) (episodes : List (Text × E))
        → take k (sort_by (by_score f u e) (hits_of f u e query episodes))
          ≡ map hit_of (take k (sort_by more_similar (matching episodes)))
    ranked_hits k episodes =
        rw (hits_of_lem episodes, sort_by-map (by_score f u e) hit_of (matching episodes))
          (map-take hit_of k (sort_by more_similar (matching episodes)))

    pub retrieve_similar_lem :
        (s : InMemoryStore E) (k : ℕ)
        → s.poisoned ≡ false
        → retrieve_similar f u e s query k
          ≡ ok (map hit_of (take k (sort_by more_similar (matching s.episodes))))
    unfolding retrieve_similar take
    retrieve_similar_lem s zero sound = refl
    retrieve_similar_lem s (suc k) sound =
        rw (not_zero k, sound) (ap ok (ranked_hits (suc k) s.episodes))

  -- If the ratios of counts are as `IsRatio` says, and the store is not poisoned, the hits are a
  -- selection of `k` of the stored episodes that share a token with the query, by descending score.
  pub retrieve_similar-IsSelection :
      (s : InMemoryStore E) (k : ℕ)
      → IsRatio f
      → s.poisoned ≡ false
      → (top : List (Text × E)) × (rest : List (Text × E)) × (retrieve_similar f u e s query k
          ≡ ok (map hit_of top))
        × IsSelection more_similar k (matching s.episodes) top rest
  retrieve_similar-IsSelection s k r sound =
      let ranked = sort_by more_similar (matching s.episodes) in
      (
        take k ranked,
        drop k ranked,
        retrieve_similar_lem r s k sound,
        ranked-IsSelection r k s.episodes,
      )
