-- ===== src/Dedup/Gate.antt =====
-- src/dedup.rs as a gate: examples/retention_policy.rs, `run`, asks `contains` and, on a new
-- key, calls `insert` before it goes on. Here one caller does so for many keys in turn, or several
-- callers that share the set do so in any interleaving of their calls.
pub mod Turns
pub mod Restart
pub mod Entries
pub mod Races
pub mod Progress
pub mod Calls
use rig_memory_policy.Prelude.{Bool, true, false, ◌&&◌, not, List, [], ◌∷◌, ◌++◌, ◌≡◌, map}
use rig_memory_policy.Text.{text_eq}
use rig_memory_policy.Errors.{PolicyError, Result, ok, err}
use rig_memory_policy.Dedup.Hex.{DedupKey}
use rig_memory_policy.Dedup.Seen.{DedupSet, new, contains, insert}

-- `if seen.contains(&dedup_key)? { return … } seen.insert(dedup_key)?;`, and whether the caller goes
-- on.
unfoldable pub admit : DedupSet → DedupKey → DedupSet × Result Bool
admit s key = elim (contains s key) [
  | ok true ↦ (s, ok false)
  | ok false ↦ elim (insert s key).1 [ ok _ ↦ ((insert s key).0, ok true) | err e ↦ (s, err e) ]
  | err e ↦ (s, err e)
]

-- Where a caller stands: before `contains`, between the two calls, or at one of its returns.
pub data Phase : Type 0 where
  waiting : Phase
  cleared : Phase
  refused : Phase
  entered : Phase
  failed : PolicyError → Phase

pub record Caller : Type 0 where
  pub key : DedupKey
  pub phase : Phase

-- What the answers of the two calls lead to.
abbrev pub after_contains : Result Bool → Phase
after_contains (ok true) = Phase.refused
after_contains (ok false) = Phase.cleared
after_contains (err e) = Phase.failed e

abbrev pub after_insert : Result (Unit {0}) → Phase
after_insert (ok _) = Phase.entered
after_insert (err e) = Phase.failed e

abbrev pub is_done : Phase → Bool
is_done Phase.waiting = false
is_done Phase.cleared = false
is_done _ = true

-- The next call of a caller. Each call holds the lock from its start to its end.
unfoldable pub act : DedupSet → DedupKey → Phase → DedupSet × Phase
act s key Phase.waiting = (s, after_contains (contains s key))
act s key Phase.cleared = ((insert s key).0, after_insert (insert s key).1)
act s key phase = (s, phase)

pub record World : Type 0 where
  pub set : DedupSet
  pub callers : List Caller

-- One call of the caller `a` between the others.
abbrev pub moved : DedupSet → List Caller → Caller → List Caller → World
moved set before a after = record {
  set = (act set a.key a.phase).0;
  callers = before ++ record a { phase = (act set a.key a.phase).1 } ∷ after;
}

-- Any caller that is not done makes its next call.
pub data Step (w : World) : World → Type 0 where
  pick :
      (before : List Caller) (a : Caller) (after : List Caller)
      → w.callers ≡ before ++ a ∷ after
      → is_done a.phase ≡ false
      → Step w (moved w.set before a after)

pub data Reach (w : World) : World → Type 0 where
  here : Reach w w
  later : {v u : World} → Reach w v → Step v u → Reach w u

-- One caller for each key, and an empty set.
unfoldable pub start : List DedupKey → World
start keys = record {
  set = new;
  callers = map (λ key. record { key = key; phase = Phase.waiting }) keys;
}

abbrev pub is_entered : Phase → Bool
is_entered Phase.entered = true
is_entered _ = false

-- Past the test of `contains`: inside, or about to enter.
abbrev pub is_past : Phase → Bool
is_past Phase.cleared = true
is_past Phase.entered = true
is_past _ = false

abbrev pub has_entered : DedupKey → Caller → Bool
has_entered k a = text_eq a.key k && is_entered a.phase

abbrev pub has_passed : DedupKey → Caller → Bool
has_passed k a = text_eq a.key k && is_past a.phase
