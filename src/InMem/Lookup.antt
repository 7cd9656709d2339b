-- ===== src/InMem/Lookup.antt =====
-- Looking up what was appended.
use mathlib.Core.Path.{subst}
use rig_memory_policy.Prelude.{
  find-append, ℕ, suc, ◌+◌, ◌^◌, ◌<◌, true, false, List, [], ◌∷◌, ◌++◌, ◌≡◌, refl, sym, ap, ◌∙◌,
  arith, Option, none, some, find, length, or_else, if◌then◌else◌, Bool-cases, inl, inr,
}
use rig_memory_policy.Text.{Text, text_eq, text_eq_iff}
use rig_memory_policy.Errors.{PolicyError, ok, err}
use rig_memory_policy.InMem.{new, InMemoryStore, storage_key, next, append, get, found}
use rig_memory_policy.InMem.Keys.{storage_key-injective}

pub or_else-none {ℓ} : {A : Type ℓ} (o : Option A) → or_else o none ≡ o
or_else-none none = refl
or_else-none (some a) = refl

pub next_lem : (n : ℕ) → n + 1 < 2 ^ 64 → next n ≡ suc n
next_lem n h = omega arith

module _ {E : Type 0} where
  -- The keys are those of the numbers from `suc first` to `last`, in this order.
  abbrev pub IsNumbered : ℕ → List (Text × E) → ℕ → Type 0
  IsNumbered first [] last = first ≡ last
  IsNumbered first (stored ∷ episodes) last =
      (stored.0 ≡ storage_key (suc first)) × IsNumbered (suc first) episodes last

  -- What is always true of a store that has given out fewer than 2^64 keys.
  abbrev pub IsValid : InMemoryStore E → Type 0
  IsValid s = IsNumbered 0 s.episodes s.next_key × (s.next_key < 2 ^ 64)

  IsNumbered-append :
      (first last : ℕ) (episodes : List (Text × E)) (episode : E)
      → IsNumbered first episodes last
      → IsNumbered first (episodes ++ (storage_key (suc last), episode) ∷ []) (suc last)
  IsNumbered-append first last [] episode h = (ap (λ n. storage_key (suc n)) (sym h), ap suc h)
  IsNumbered-append first last (stored ∷ episodes) episode (h, hs) =
      (h, IsNumbered-append (suc first) last episodes episode hs)

  pub length-IsNumbered :
      (first last : ℕ) (episodes : List (Text × E))
      → IsNumbered first episodes last
      → first + length episodes ≡ last
  length-IsNumbered first last [] h = omega (arith, h)
  length-IsNumbered first last (stored ∷ episodes) (h, hs) =
      omega (arith, length-IsNumbered (suc first) last episodes hs)

  -- A number that was not given out is not found.
  find-fresh :
      (first last n : ℕ) (episodes : List (Text × E))
      → IsNumbered first episodes last
      → last < n
      → n < 2 ^ 64
      → find (λ stored. text_eq stored.0 (storage_key n)) episodes ≡ none
  unfolding find
  find-fresh first last n [] h l b = refl
  find-fresh first last n (stored ∷ episodes) (h, hs) l b =
      let far = length-IsNumbered (suc first) last episodes hs in
      let rest = find-fresh (suc first) last n episodes hs l b in
      elim (Bool-cases (text_eq stored.0 (storage_key n))) [
        | inl e ↦ absurd (
            omega (
              arith,
              far,
              storage_key-injective (suc first) n (omega (arith, far)) b
                  (sym h ∙ (text_eq_iff _ _).0 e),
            ))
        | inr e ↦ rw (find, e) rest
      ]

  -- Appending keeps the numbering, unless all keys were given out.
  pub append-IsValid :
      (s : InMemoryStore E) (episode : E)
      → IsValid s
      → s.next_key + 1 < 2 ^ 64
      → IsValid (append s episode).0
  unfolding append
  append-IsValid s episode (numbers, bound) room = elim (Bool-cases s.poisoned) [
    | inl e ↦ rw e (numbers, bound)
    | inr e ↦
        rw (e, next_lem s.next_key room)
          (IsNumbered-append 0 s.next_key s.episodes episode numbers, omega arith)
  ]

  looked_up :
      (episodes : List (Text × E)) (stored : Text × E) (key : Text)
      → (text_eq stored.0 key ≡ true → find (λ x. text_eq x.0 key) episodes ≡ none)
      → found key (
          or_else
            (find (λ x. text_eq x.0 key) episodes)
            (if text_eq stored.0 key then some stored else none))
        ≡ (if text_eq stored.0 key
            then ok stored.1
            else found key (find (λ x. text_eq x.0 key) episodes))
  looked_up episodes stored key h = elim (Bool-cases (text_eq stored.0 key)) [
    | inl e ↦ rw (e, h e) refl
    | inr e ↦ rw e (ap (found key) (or_else-none (find (λ x. text_eq x.0 key) episodes)))
  ]

  -- In a valid store that is not poisoned and has keys left, an append answers a key that was not
  -- there before; by that key the episode is found from then on, and all others as before.
  pub get-append :
      (s : InMemoryStore E) (episode : E) (key : Text)
      → IsValid s
      → s.next_key + 1 < 2 ^ 64
      → s.poisoned ≡ false
      → (new_key : Text) × ((append s episode).1 ≡ ok new_key)
        × (get s new_key ≡ err (PolicyError.not_found new_key))
        × (get (append s episode).0 key ≡ (if text_eq new_key key then ok episode else get s key))
  unfolding append get find
  get-append s episode key (numbers, bound) room sound =
      let new_key = storage_key (suc s.next_key) in
      let fresh =
        find-fresh 0 s.next_key (suc s.next_key) s.episodes numbers (omega arith) (omega arith) in
      let at_key : text_eq new_key key ≡ true → find (λ x. text_eq x.0 key) s.episodes ≡ none = λ e.
        subst (λ k. find (λ x. text_eq x.0 k) s.episodes ≡ none) ((text_eq_iff new_key key).0 e)
          fresh in
      (
        new_key,
        rw (sound, next_lem s.next_key room) refl,
        rw (sound, fresh) refl,
        rw
            (
              sound,
              next_lem s.next_key room,
              find-append (λ x. text_eq x.0 key) s.episodes ((new_key, episode) ∷ []),
            )
            (looked_up s.episodes (new_key, episode) key at_key),
      )

pub new-IsValid : (E : Type 0) → IsValid (new {E = E})
unfolding new
new-IsValid E = (refl, omega arith)
