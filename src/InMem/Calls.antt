-- ===== src/InMem/Calls.antt =====
-- An `InMemoryStore` answers every sequence of calls as the list of the appended episodes.
use mathlib.Core.Path.{ap₂}
use rig_memory_policy.Prelude.{
  ℕ, ◌+◌, ◌^◌, ◌<◌, ◌≤◌, ◌==◌, Bool, true, false, List, [], ◌∷◌, ◌++◌, ◌≡◌, refl, sym, ap, ◌∙◌,
  arith, map, take, length, is_nil, Option, none, some, if◌then◌else◌, length-append,
}
use rig_memory_policy.Sort.{sort_by}
use rig_memory_policy.Text.{Text}
use rig_memory_policy.Text.Tokens.{Unicode}
use rig_memory_policy.Errors.{PolicyError, Result, ok, err}
use rig_memory_policy.Floats.{Floats}
use rig_memory_policy.InMem.{
  Episode, InMemoryHit, InMemoryStore, new, append, get, len, is_empty, is_zero, retrieve_similar,
  storage_key,
}
use rig_memory_policy.InMem.Contents.{
  keyed, at_key, store_of, append-store_of, found-keyed, length-keyed, is_zero-length,
}
use rig_memory_policy.InMem.Retrieval.{
  IsRatio, matching, hit_of, more_similar, retrieve_similar_lem,
}

-- What may happen to a store: a call of a client, or the panic of a thread that holds the lock.
pub data Event (E : Type 0) : Type 0 where
  append_episode : E → Event E
  get_key : Text → Event E
  take_len : Event E
  ask_is_empty : Event E
  retrieve : Text → ℕ → Event E
  panic : Event E

-- What the client gets; `silence` where there is no client.
pub data Answer (f : Floats) (E : Type 0) : Type 0 where
  key : Result Text → Answer f E
  episode : Result E → Answer f E
  counted : Result ℕ → Answer f E
  emptiness : Result Bool → Answer f E
  hits : Result (List (InMemoryHit f E)) → Answer f E
  silence : Answer f E

module _ {E : Type 0} (f : Floats) (u : Unicode) (summaries : Episode E) where
  abbrev pub serve : InMemoryStore E → Event E → InMemoryStore E × Answer f E
  serve s (append_episode e) = let (s', r) = append s e in (s', key r)
  serve s (get_key k) = (s, episode (get s k))
  serve s take_len = (s, counted (len s))
  serve s ask_is_empty = (s, emptiness (is_empty s))
  serve s (retrieve query k) = (s, hits (retrieve_similar f u summaries s query k))
  serve s panic = (record s { poisoned = true }, silence)

  abbrev pub answers : InMemoryStore E → List (Event E) → List (Answer f E)
  answers s [] = []
  answers s (event ∷ events) = (serve s event).1 ∷ answers (serve s event).0 events

  abbrev pub answer : {A : Type 0} → (List E → A) → Option (List E) → Result A
  answer g none = err PolicyError.poisoned
  answer g (some es) = ok (g es)

  -- The `k` best of the episodes that share a token with the query.
  abbrev pub best : Text → ℕ → List E → List (InMemoryHit f E)
  best query k es = map (hit_of f u summaries query) (
      take k
        (sort_by (more_similar f u summaries query) (matching f u summaries query (keyed 0 es))))

  -- The same for the list of the appended episodes, or `none` once a thread has panicked.
  abbrev pub promise : Option (List E) → Event E → Option (List E) × Answer f E
  promise none (append_episode e) = (none, key (err PolicyError.poisoned))
  promise (some es) (append_episode e) =
      (some (es ++ e ∷ []), key (ok (storage_key (length es + 1))))
  promise none (get_key k) = (none, episode (err PolicyError.poisoned))
  promise (some es) (get_key k) = (some es, episode (at_key 0 es k))
  promise s take_len = (s, counted (answer length s))
  promise s ask_is_empty = (s, emptiness (answer is_nil s))
  promise none (retrieve query k) =
      (none, hits (if k == 0 then ok [] else err PolicyError.poisoned))
  promise (some es) (retrieve query k) = (some es, hits (ok (best query k es)))
  promise s panic = (none, silence)

  abbrev pub promised : Option (List E) → List (Event E) → List (Answer f E)
  promised s [] = []
  promised s (event ∷ events) = (promise s event).1 ∷ promised (promise s event).0 events

  abbrev view : Bool → List E → Option (List E)
  view poisoned es = if poisoned then none else some es

  -- After one event the store has taken some episodes, at most one more, and the answer is the
  -- promised one.
  abbrev GoesOn : Bool → List E → Event E → Type 0
  GoesOn poisoned es event =
      (poisoned' : Bool) × (es' : List E) × ((serve (store_of poisoned es) event).1
        ≡ (promise (view poisoned es) event).1)
      × ((serve (store_of poisoned es) event).0 ≡ store_of poisoned' es')
      × ((promise (view poisoned es) event).0 ≡ view poisoned' es')
      × (length es' ≤ length es + 1)

  module _ (r : IsRatio f) where
    retrieved :
        (poisoned : Bool) (es : List E) (query : Text) (k : ℕ)
        → hits (retrieve_similar f u summaries (store_of poisoned es) query k)
          ≡ (promise (view poisoned es) (retrieve query k)).1
    unfolding retrieve_similar
    retrieved true es query k = refl
    retrieved false es query k =
        ap hits (retrieve_similar_lem f u summaries query r (store_of false es) k refl)

    serve-promise :
        (poisoned : Bool) (es : List E) (event : Event E)
        → length es + 1 < 2 ^ 64
        → GoesOn poisoned es event
    unfolding append get len is_empty
    serve-promise true es (append_episode e) room = (true, es, refl, refl, refl, omega arith)
    serve-promise false es (append_episode e) room =
        let step = append-store_of es e room in
        (
          false,
          es ++ e ∷ [],
          ap (λ p. key p.1) step,
          ap (λ p. p.0) step,
          refl,
          omega (arith, length-append es (e ∷ [])),
        )
    serve-promise true es (get_key k) room = (true, es, refl, refl, refl, omega arith)
    serve-promise false es (get_key k) room =
        (false, es, ap episode (found-keyed 0 es k), refl, refl, omega arith)
    serve-promise true es take_len room = (true, es, refl, refl, refl, omega arith)
    serve-promise false es take_len room =
        (false, es, ap (λ n. counted (ok n)) (length-keyed 0 es), refl, refl, omega arith)
    serve-promise true es ask_is_empty room = (true, es, refl, refl, refl, omega arith)
    serve-promise false es ask_is_empty room = (
      false,
      es,
      ap emptiness (ap (λ n. is_zero (ok n)) (length-keyed 0 es) ∙ is_zero-length es),
      refl,
      refl,
      omega arith,
    )
    serve-promise true es (retrieve query k) room =
        (true, es, retrieved true es query k, refl, refl, omega arith)
    serve-promise false es (retrieve query k) room =
        (false, es, retrieved false es query k, refl, refl, omega arith)
    serve-promise poisoned es panic room = (true, es, refl, refl, refl, omega arith)

    answers-promised :
        (poisoned : Bool) (es : List E) (events : List (Event E))
        → length es + length events < 2 ^ 64
        → answers (store_of poisoned es) events ≡ promised (view poisoned es) events
    answers-promised poisoned es [] room = refl
    answers-promised poisoned es (event ∷ events) room =
        let (poisoned', es', same, at, left, longer) =
          serve-promise poisoned es event (omega arith) in
        ap₂ ◌∷◌ same (
          ap (λ s. answers s events) at
          ∙ answers-promised poisoned' es' events (omega (arith, longer))
          ∙ sym (ap (λ v. promised v events) left))

  -- If the ratios of counts are as `IsRatio` says, an empty store answers fewer than 2^64 events of
  -- whatever kind as the list of the episodes that have been appended, which alone decides: the keys
  -- number them from one, a key finds its own episode, and a query the `k` best of those that share a
  -- token with it; once a thread has panicked, every call answers by the error, but for a query for no
  -- hits.
  pub new-promised_while_few :
      (events : List (Event E))
      → IsRatio f
      → length events < 2 ^ 64
      → answers new events ≡ promised (some []) events
  unfolding new
  new-promised_while_few events r few = answers-promised r false [] events (omega arith)
