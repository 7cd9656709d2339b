-- ===== src/InMem/Contents.antt =====
-- The store that has taken a list of episodes, by their numbers.
use rig_memory_policy.Prelude.{
  ℕ, suc, ◌+◌, ◌^◌, ◌<◌, Bool, false, List, [], ◌∷◌, ◌++◌, ◌≡◌, refl, sym, ap, ◌∙◌, arith, find,
  length, is_nil, if◌then◌else◌, length-append,
}
use rig_memory_policy.Text.{Text, text_eq}
use rig_memory_policy.Errors.{PolicyError, Result, ok, err}
use rig_memory_policy.InMem.{InMemoryStore, append, found, is_zero, storage_key, next}
use rig_memory_policy.InMem.Lookup.{next_lem}

module _ {E : Type 0} where
  -- The episodes with the keys that were given out for them.
  abbrev pub keyed : ℕ → List E → List (Text × E)
  keyed first [] = []
  keyed first (e ∷ es) = (storage_key (suc first), e) ∷ keyed (suc first) es

  -- The episode of a key.
  abbrev pub at_key : ℕ → List E → Text → Result E
  at_key first [] k = err (PolicyError.not_found k)
  at_key first (e ∷ es) k =
      if text_eq (storage_key (suc first)) k then ok e else at_key (suc first) es k

  pub keyed-snoc :
      (first : ℕ) (es : List E) (e : E)
      → keyed first (es ++ e ∷ [])
        ≡ keyed first es ++ (storage_key (suc (first + length es)), e) ∷ []
  keyed-snoc first [] e = ap (λ n. (storage_key (suc n), e) ∷ []) (omega arith)
  keyed-snoc first (x ∷ es) e = ap (◌∷◌ (storage_key (suc first), x)) (
      keyed-snoc (suc first) es e
      ∙ ap (λ n. keyed (suc first) es ++ (storage_key (suc n), e) ∷ []) (omega arith))

  pub found-keyed :
      (first : ℕ) (es : List E) (k : Text)
      → found k (find (λ stored. text_eq stored.0 k) (keyed first es)) ≡ at_key first es k
  unfolding find
  found-keyed first [] k = refl
  found-keyed first (e ∷ es) k = ground (arith, found-keyed (suc first) es k)

  pub length-keyed : (first : ℕ) (es : List E) → length (keyed first es) ≡ length es
  length-keyed first [] = refl
  length-keyed first (e ∷ es) = ap suc (length-keyed (suc first) es)

  pub is_zero-length : (es : List E) → is_zero (ok (length es)) ≡ ok (is_nil es)
  is_zero-length [] = refl
  is_zero-length (e ∷ es) = ground arith

  -- The store that has taken these episodes.
  abbrev pub store_of : Bool → List E → InMemoryStore E
  store_of poisoned es = record { poisoned = poisoned; next_key = length es; episodes = keyed 0 es }

  pub append-store_of :
      (es : List E) (e : E)
      → length es + 1 < 2 ^ 64
      → append (store_of false es) e
        ≡ (store_of false (es ++ e ∷ []), ok (storage_key (length es + 1)))
  unfolding append
  append-store_of es e room =
      let counted : next (length es) ≡ length es + 1 = omega (arith, next_lem (length es) room) in
      let longer : length es + 1 ≡ length (es ++ e ∷ []) =
        omega (arith, length-append es (e ∷ [])) in
      let stored =
        ap (λ n. keyed 0 es ++ (storage_key n, e) ∷ []) (omega (arith, counted))
        ∙ sym (keyed-snoc 0 es e) in
      λ i. (
        record { poisoned = false; next_key = (counted ∙ longer) i; episodes = stored i },
        ok (storage_key (counted i)),
      )
