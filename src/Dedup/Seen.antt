-- ===== src/Dedup/Seen.antt =====
-- src/dedup.rs, `DedupSet`: a set of keys behind a lock that a panic poisons.
pub mod Laws
pub mod Snapshot
pub mod Reload
pub mod FiniteSet
pub mod Calls
use rig_memory_policy.Prelude.{
  ℕ, Bool, true, false, List, [], ◌∷◌, map, Option, none, some, if◌then◌else◌, length,
}
use rig_memory_policy.Text.{Text}
use rig_memory_policy.Text.Order.{compare_text}
use rig_memory_policy.Sort.{sort_by}
use rig_memory_policy.Errors.{PolicyError, Result, ok, err}
use rig_memory_policy.HashSet.{member, add}
use rig_memory_policy.Dedup.Hex.{DedupKey, hex_encode, hex_decode}

-- `struct DedupSet`: `RwLock<HashSet<DedupKey>>`, with the lock's poison flag.
pub record DedupSet : Type 0 where
  pub poisoned : Bool
  pub seen : List DedupKey

-- `new`, which is `default`.
unfoldable pub new : DedupSet
new = record { poisoned = false; seen = [] }

unfoldable pub contains : DedupSet → DedupKey → Result Bool
contains s key = if s.poisoned then err PolicyError.poisoned else ok (member key s.seen)

unfoldable pub insert : DedupSet → DedupKey → DedupSet × Result (Unit {0})
insert s key =
    if s.poisoned
    then (s, err PolicyError.poisoned)
    else (record s { seen = add key s.seen }, ok tt)

unfoldable pub snapshot : DedupSet → Result (List Text)
snapshot s =
    if s.poisoned
    then err PolicyError.poisoned
    else ok (sort_by compare_text (map hex_encode s.seen))

-- One entry of a snapshot: a malformed one is skipped.
unfoldable pub replay : Text → List DedupKey → List DedupKey
replay hex seen = elim (hex_decode hex) [ some key ↦ add key seen | none ↦ seen ]

unfoldable pub replay_all : List Text → List DedupKey → List DedupKey
replay_all [] seen = seen
replay_all (hex ∷ hexes) seen = replay_all hexes (replay hex seen)

unfoldable pub extend_from_snapshot : DedupSet → List Text → DedupSet × Result (Unit {0})
unfolding replay_all replay
extend_from_snapshot s hexes =
    if s.poisoned
    then (s, err PolicyError.poisoned)
    else (record s { seen = replay_all hexes s.seen }, ok tt)

unfoldable pub len : DedupSet → Result ℕ
len s = if s.poisoned then err PolicyError.poisoned else ok (length s.seen)

-- The `entries` field that `Debug` prints.
unfoldable pub debug_entries : DedupSet → ℕ
debug_entries s = if s.poisoned then 0 else length s.seen
