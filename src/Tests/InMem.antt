-- ===== src/Tests/InMem.antt =====
-- Runs of src/inmem.rs, with a text as its own episode.
use rig_memory_policy.Prelude.{
  some, compare, false, find, [], ◌∷◌, List, ◌≡◌, refl, arith, map, ◌-◌, ◌^◌,
}
use rig_memory_policy.Sort.Selection.{IsSelection}
use rig_memory_policy.Text.{Text, codes, text_eq_refl}
use rig_memory_policy.Text.Order.{compare_text}
use rig_memory_policy.Errors.{ok}
use rig_memory_policy.InMem.{
  Episode, InMemoryStore, storage_key, append, get, new, retrieve_similar,
}
use rig_memory_policy.InMem.Keys.{storage_key-order}
use rig_memory_policy.InMem.Calls.{Event, answers, promised, new-promised_while_few}
use rig_memory_policy.InMem.History.{get-append_full}
use rig_memory_policy.InMem.Retrieval.{
  IsRatio, matching, hit_of, more_similar, retrieve_similar-IsSelection,
}
use rig_memory_policy.Tests.Retention.{whole_floats}
use rig_memory_policy.Tests.SimHash.{ascii}

abbrev pub itself : Episode Text
itself = record { summary = λ t. t }

abbrev two_stored : InMemoryStore Text
two_stored = record {
  poisoned = false;
  next_key = 2;
  episodes = (storage_key 1, codes "up") ∷ (storage_key 2, codes "down up") ∷ [];
}

pub whole_floats-IsRatio : IsRatio whole_floats
whole_floats-IsRatio = record {
  nothing = refl;
  positive = λ n m h. ground arith;
  ordered = λ m h. record { flip = λ a b. ground arith; trans = λ a b c p q. ground arith };
}

storage_key-order_example : compare_text (storage_key 9) (storage_key 10) ≡ compare 9 10
storage_key-order_example = storage_key-order 9 10 (omega arith) (omega arith)

retrieve_similar-IsSelection_example :
    (top : List (Text × Text)) × (rest : List (Text × Text)) × (retrieve_similar whole_floats ascii
        itself two_stored
        (codes "up")
        1
      ≡ ok (map (hit_of whole_floats ascii itself (codes "up")) top))
    × IsSelection
        (more_similar whole_floats ascii itself (codes "up"))
        1
        (matching whole_floats ascii itself (codes "up") two_stored.episodes)
        top
        rest
retrieve_similar-IsSelection_example =
    retrieve_similar-IsSelection whole_floats ascii itself (codes "up") two_stored 1
      whole_floats-IsRatio refl

abbrev full_store : InMemoryStore Text
full_store = record {
  poisoned = false;
  next_key = 2 ^ 64 - 1;
  episodes = (storage_key (2 ^ 64 - 1), codes "up") ∷ [];
}

last_found : get full_store (storage_key (2 ^ 64 - 1)) ≡ ok (codes "up")
unfolding get find
last_found = rw (text_eq_refl (storage_key (2 ^ 64 - 1))) refl

get-append_full_example :
    ((append full_store (codes "down")).1 ≡ ok (storage_key (2 ^ 64 - 1)))
    × (get (append full_store (codes "down")).0 (storage_key 1) ≡ get full_store (storage_key 1))
get-append_full_example =
    get-append_full full_store (codes "down") (codes "up") (storage_key 1) refl refl last_found

-- Two appends, questions of every kind, and a panic.
abbrev session : List (Event Text)
session =
    Event.append_episode (codes "up")
    ∷ Event.append_episode (codes "down up")
    ∷ Event.get_key (storage_key 2)
    ∷ Event.get_key (codes "nope")
    ∷ Event.take_len
    ∷ Event.retrieve (codes "up") 1
    ∷ Event.panic
    ∷ Event.ask_is_empty
    ∷ Event.retrieve (codes "up") 0
    ∷ []

new-promised_while_few_example :
    answers whole_floats ascii itself new session
    ≡ promised whole_floats ascii itself (some []) session
new-promised_while_few_example =
    new-promised_while_few whole_floats ascii itself session whole_floats-IsRatio (omega arith)
