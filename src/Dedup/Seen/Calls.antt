-- ===== src/Dedup/Seen/Calls.antt =====
-- A `DedupSet` answers every sequence of calls as the finite set that it stands for.
use mathlib.Core.Path.{ap₂}
use mathlib.Core.Quot
use rig_memory_policy.Prelude.{
  ℕ, Bool, true, false, List, [], ◌∷◌, ◌≡◌, refl, ap, ◌∙◌, Option, none, some, if◌then◌else◌,
  Option-cases, Bool-cases, inl, inr,
}
use rig_memory_policy.Text.{Text}
use rig_memory_policy.Errors.{PolicyError, Result, ok, err}
use rig_memory_policy.HashSet.{member, add, IsDistinct, member-add, add-IsDistinct}
use rig_memory_policy.HashSet.Extensional.{collect-of_IsDistinct}
use rig_memory_policy.Dedup.Hex.{DedupKey, hex_decode}
use rig_memory_policy.Dedup.Seen.{
  DedupSet, new, contains, insert, snapshot, extend_from_snapshot, len, replay, replay_all,
}
use rig_memory_policy.Dedup.Seen.FiniteSet.{
  FiniteSet, of_list, has, with_key, with_texts, size, texts,
}

-- What may happen to a set: a call of a client, or the panic of a thread that holds the lock for
-- writing.
pub data Event : Type 0 where
  contains_key insert_key : DedupKey → Event
  take_snapshot : Event
  extend_with : List Text → Event
  take_len : Event
  panic : Event

-- What the client gets; `silence` where there is no client.
pub data Answer : Type 0 where
  held : Result Bool → Answer
  done : Result (Unit {0}) → Answer
  listed : Result (List Text) → Answer
  counted : Result ℕ → Answer
  silence : Answer

abbrev pub serve : DedupSet → Event → DedupSet × Answer
serve s (contains_key key) = (s, held (contains s key))
serve s (insert_key key) = let (s', r) = insert s key in (s', done r)
serve s take_snapshot = (s, listed (snapshot s))
serve s (extend_with hexes) = let (s', r) = extend_from_snapshot s hexes in (s', done r)
serve s take_len = (s, counted (len s))
serve s panic = (record s { poisoned = true }, silence)

abbrev pub answers : DedupSet → List Event → List Answer
answers s [] = []
answers s (e ∷ es) = (serve s e).1 ∷ answers (serve s e).0 es

-- The same for a finite set, or `none` once such a thread has panicked.
abbrev pub answer : {A : Type 0} → (FiniteSet → A) → Option FiniteSet → Result A
answer f none = err PolicyError.poisoned
answer f (some s) = ok (f s)

abbrev pub change : (FiniteSet → FiniteSet) → Option FiniteSet → Option FiniteSet
change f none = none
change f (some s) = some (f s)

abbrev pub promise : Option FiniteSet → Event → Option FiniteSet × Answer
promise s (contains_key key) = (s, held (answer (has key) s))
promise s (insert_key key) = (change (with_key key) s, done (answer (λ _. tt) s))
promise s take_snapshot = (s, listed (answer texts s))
promise s (extend_with hexes) = (change (with_texts hexes) s, done (answer (λ _. tt) s))
promise s take_len = (s, counted (answer size s))
promise s panic = (none, silence)

abbrev pub promised : Option FiniteSet → List Event → List Answer
promised s [] = []
promised s (e ∷ es) = (promise s e).1 ∷ promised (promise s e).0 es

-- The finite set that a set of the program stands for.
abbrev pub view : DedupSet → Option FiniteSet
view s = if s.poisoned then none else some (of_list s.seen)

of_list-add : (k : DedupKey) (ks : List DedupKey) → of_list (add k ks) ≡ with_key k (of_list ks)
unfolding with_key member
of_list-add k ks = Quot.sound (λ j. member-add k j ks)

of_list-replay_all :
    (hexes : List Text) (ks : List DedupKey)
    → of_list (replay_all hexes ks) ≡ with_texts hexes (of_list ks)
unfolding replay_all replay with_texts
of_list-replay_all [] ks = refl
of_list-replay_all (hex ∷ hexes) ks =
    of_list-replay_all hexes (replay hex ks) ∙ ap (with_texts hexes) (one (hex_decode hex))
  where
    one :
        (o : Option DedupKey)
        → of_list (elim o [ some key ↦ add key ks | none ↦ ks ])
          ≡ elim o [ some k ↦ with_key k (of_list ks) | none ↦ of_list ks ]
    one none = refl
    one (some k) = of_list-add k ks

replay_all-IsDistinct :
    (hexes : List Text) (seen : List DedupKey)
    → IsDistinct seen
    → IsDistinct (replay_all hexes seen)
unfolding replay_all replay
replay_all-IsDistinct [] seen d = d
replay_all-IsDistinct (hex ∷ hexes) seen d = elim (Option-cases (hex_decode hex)) [
  | inl e ↦ rw (e, replay) (replay_all-IsDistinct hexes seen d)
  | inr (key, e) ↦
      rw (e, replay) (replay_all-IsDistinct hexes (add key seen) (add-IsDistinct key seen d))
]

-- One event: the answer is the promised one, and so is what the set then stands for.
serve-promise :
    (poisoned : Bool) (seen : List DedupKey) (e : Event)
    → IsDistinct seen
    → let s : DedupSet = record { poisoned = poisoned; seen = seen } in
      ((serve s e).1 ≡ (promise (view s) e).1) × (view (serve s e).0 ≡ (promise (view s) e).0)
unfolding contains insert snapshot extend_from_snapshot len has size texts
serve-promise true seen (contains_key key) d = (refl, refl)
serve-promise true seen (insert_key key) d = (refl, refl)
serve-promise true seen take_snapshot d = (refl, refl)
serve-promise true seen (extend_with hexes) d = (refl, refl)
serve-promise true seen take_len d = (refl, refl)
serve-promise true seen panic d = (refl, refl)
serve-promise false seen (contains_key key) d = (refl, refl)
serve-promise false seen (insert_key key) d = (refl, ap some (of_list-add key seen))
serve-promise false seen take_snapshot d = (rw (collect-of_IsDistinct seen d) refl, refl)
serve-promise false seen (extend_with hexes) d = (refl, ap some (of_list-replay_all hexes seen))
serve-promise false seen take_len d = (rw (collect-of_IsDistinct seen d) refl, refl)
serve-promise false seen panic d = (refl, refl)

serve-IsDistinct : (s : DedupSet) (e : Event) → IsDistinct s.seen → IsDistinct (serve s e).0.seen
unfolding insert extend_from_snapshot
serve-IsDistinct s (contains_key key) d = d
serve-IsDistinct s (insert_key key) d = elim (Bool-cases s.poisoned) [
  | inl e ↦ simp e d
  | inr e ↦ simp e (add-IsDistinct key s.seen d)
]
serve-IsDistinct s take_snapshot d = d
serve-IsDistinct s (extend_with hexes) d = elim (Bool-cases s.poisoned) [
  | inl e ↦ simp e d
  | inr e ↦ simp e (replay_all-IsDistinct hexes s.seen d)
]
serve-IsDistinct s take_len d = d
serve-IsDistinct s panic d = d

answers-promised :
    (s : DedupSet) (es : List Event) → IsDistinct s.seen → answers s es ≡ promised (view s) es
answers-promised s [] d = refl
answers-promised s (e ∷ es) d =
    let (same, goes_on) = serve-promise s.poisoned s.seen e d in
    ap₂ ◌∷◌ same
      (answers-promised (serve s e).0 es (serve-IsDistinct s e d) ∙ ap (λ v. promised v es) goes_on)

-- A fresh set answers whatever events come as the finite set does that begins empty, takes up each
-- inserted key and each key that a replayed text decodes to, is asked for its keys, their number and
-- their texts, each once and in ascending order, and answers by the error once a thread has panicked
-- that held the lock for writing.
pub new-promised : (es : List Event) → answers new es ≡ promised (some (of_list [])) es
unfolding new
new-promised es = answers-promised new es tt
