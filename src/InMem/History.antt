-- ===== src/InMem/History.antt =====
-- A store after any number of appends, and one whose keys are used up.
use mathlib.Core.Path.{subst}
use mathlib.Core.List.{map-append}
use rig_memory_policy.Prelude.{
  ℕ, zero, suc, ◌+◌, ◌-◌, ◌^◌, ◌<◌, false, List, [], ◌∷◌, ◌++◌, ◌≡◌, refl, sym, ap, ◌∙◌, arith, map,
  append_assoc, append-nil, find-append, or_else, Option, none, some, find, get_elem?, length,
  Bool-cases, inl, inr,
}
use rig_memory_policy.Text.{Text, text_eq, text_eq_iff, text_eq_refl}
use rig_memory_policy.Errors.{PolicyError, Result, ok, err}
use rig_memory_policy.InMem.{InMemoryStore, new, append, get, found, next, storage_key}
use rig_memory_policy.InMem.Keys.{storage_key-injective}
use rig_memory_policy.InMem.Lookup.{
  IsNumbered, IsValid, append-IsValid, new-IsValid, next_lem, or_else-none,
}

keys_apart :
    (n m : ℕ) → n < 2 ^ 64 → m < 2 ^ 64 → n < m → text_eq (storage_key n) (storage_key m) ≡ false
keys_apart n m h l o = elim (Bool-cases (text_eq (storage_key n) (storage_key m))) [
  | inr e ↦ e
  | inl e ↦ absurd (omega (arith, storage_key-injective n m h l ((text_eq_iff _ _).0 e)))
]

module _ {E : Type 0} where
  -- Appends in turn.
  abbrev pub append_all : InMemoryStore E → List E → InMemoryStore E
  append_all s [] = s
  append_all s (episode ∷ episodes) = append_all (append s episode).0 episodes

  -- What `get` is to answer: the element at the position, or that the key was not given out.
  abbrev pub episode_at : Text → Option E → Result E
  episode_at key none = err (PolicyError.not_found key)
  episode_at key (some episode) = ok episode

  -- The key of a position finds the element at that position.
  found-at :
      (first last i n : ℕ) (stored : List (Text × E))
      → IsNumbered first stored last
      → last < 2 ^ 64
      → n < 2 ^ 64
      → n ≡ suc (first + i)
      → found (storage_key n) (find (λ x. text_eq x.0 (storage_key n)) stored)
        ≡ episode_at (storage_key n) (get_elem? (map (λ x. x.1) stored) i)
  unfolding find
  found-at first last i n [] h b l e = refl
  found-at first last zero n (x ∷ stored) (h, hs) b l e =
      let at : n ≡ suc first = omega arith in
      rw (h, at, text_eq_refl (storage_key (suc first))) refl
  found-at first last (suc i) n (x ∷ stored) (h, hs) b l e =
      rw (h, keys_apart (suc first) n (omega arith) l (omega arith))
        (found-at (suc first) last i n stored hs b l (omega arith))

  append_lem :
      (s : InMemoryStore E) (episode : E)
      → s.poisoned ≡ false
      → s.next_key + 1 < 2 ^ 64
      → ((append s episode).0.poisoned ≡ false)
        × ((append s episode).0.next_key ≡ suc s.next_key)
        × (map (λ x. x.1) (append s episode).0.episodes ≡ map (λ x. x.1) s.episodes ++ episode ∷ [])
  unfolding append
  append_lem s episode sound room =
      rw (sound, next_lem s.next_key room) (refl, refl, map-append (λ x. x.1) s.episodes _)

  -- Appends add their episodes at the end, and nothing else.
  append_all-IsValid :
      (s : InMemoryStore E) (episodes : List E)
      → s.poisoned ≡ false
      → IsValid s
      → s.next_key + length episodes < 2 ^ 64
      → ((append_all s episodes).poisoned ≡ false)
        × IsValid (append_all s episodes)
        × (map (λ x. x.1) (append_all s episodes).episodes ≡ map (λ x. x.1) s.episodes ++ episodes)
  append_all-IsValid s [] sound v room = (sound, v, sym (append-nil _))
  append_all-IsValid s (e ∷ episodes) sound v room =
      let (sound', counted, added) = append_lem s e sound (omega arith) in
      let v' = append-IsValid s e v (omega arith) in
      let (sound'', v'', all) =
        append_all-IsValid (append s e).0 episodes sound' v' (omega (arith, counted)) in
      (sound'', v'', rw (all, added, append_assoc) refl)

-- The store answers each key with the episode that was appended under it: after fewer than 2^64
-- appends to an empty store, the key of the number `i + 1`, below 2^64, finds the episode at position
-- `i`, and is not found if there is none.
pub get-append_all :
    {E : Type 0} (episodes : List E) (i : ℕ)
    → length episodes < 2 ^ 64
    → i + 1 < 2 ^ 64
    → get (append_all new episodes) (storage_key (i + 1))
      ≡ episode_at (storage_key (i + 1)) (get_elem? episodes i)
unfolding get new
get-append_all {E} episodes i few small =
    let (sound, (numbers, bound), all) =
      append_all-IsValid new episodes refl (new-IsValid E) (omega arith) in
    rw sound (
      found-at 0 _ i (i + 1) _ numbers bound small (omega arith)
      ∙ ap (λ es. episode_at (storage_key (i + 1)) (get_elem? es i)) all)

-- An element at the end changes nothing, if its key is found already.
found-snoc :
    {E : Type 0} (stored : List (Text × E)) (x : Text × E) (key : Text) (old : E)
    → found x.0 (find (λ y. text_eq y.0 x.0) stored) ≡ ok old
    → found key (find (λ y. text_eq y.0 key) (stored ++ x ∷ []))
      ≡ found key (find (λ y. text_eq y.0 key) stored)
unfolding find
found-snoc stored x key old h =
    rw (find-append (λ y. text_eq y.0 key) stored (x ∷ [])) (elim (Bool-cases (text_eq x.0 key)) [
      | inr e ↦ rw e (ap (found key) (or_else-none (find (λ y. text_eq y.0 key) stored)))
      | inl e ↦
          let old_at : found key (find (λ y. text_eq y.0 key) stored) ≡ ok old =
            subst (λ k. found k (find (λ y. text_eq y.0 k) stored) ≡ ok old)
              ((text_eq_iff x.0 key).0 e) h in
          kept (find (λ y. text_eq y.0 key) stored) _ old_at
    ])
  where
    kept :
        (o other : Option (Text × _))
        → found key o ≡ ok old
        → found key (or_else o other) ≡ found key o
    kept none other i = cc
    kept (some y) other i = refl

-- When the counter has reached the largest `u64`, an append answers the key of that number again;
-- if that key finds an episode, `get` answers every key as before, so the new one is not found.
pub get-append_full :
    {E : Type 0} (s : InMemoryStore E) (episode old : E) (key : Text)
    → s.poisoned ≡ false
    → s.next_key ≡ 2 ^ 64 - 1
    → get s (storage_key (2 ^ 64 - 1)) ≡ ok old
    → ((append s episode).1 ≡ ok (storage_key (2 ^ 64 - 1)))
      × (get (append s episode).0 key ≡ get s key)
unfolding append get
get-append_full s episode old key sound full there =
    let last : next s.next_key ≡ 2 ^ 64 - 1 = omega (arith, full) in
    (
      rw (sound, last) refl,
      rw (sound, last)
          (found-snoc s.episodes (storage_key (2 ^ 64 - 1), episode) key old (rw sound at there)),
    )
