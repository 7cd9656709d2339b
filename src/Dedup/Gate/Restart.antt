-- ===== src/Dedup/Gate/Restart.antt =====
-- One caller that passes keys through the gate in turn, and goes on after a restart with a snapshot.
use mathlib.Core.Path.{ap₂}
use rig_memory_policy.Prelude.{
  Bool, true, false, not, List, [], ◌∷◌, ◌++◌, ◌≡◌, refl, sym, ap, ◌∙◌, arith, any, All, map,
}
use rig_memory_policy.Text.{Text, text_eq}
use rig_memory_policy.Text.Order.{compare_text}
use rig_memory_policy.Sort.{sort_by}
use rig_memory_policy.Errors.{ok}
use rig_memory_policy.Dedup.Hex.{DedupKey, IsKey, hex_encode}
use rig_memory_policy.Dedup.Seen.{DedupSet, new, contains, snapshot, extend_from_snapshot}
use rig_memory_policy.Dedup.Seen.Laws.{IsValid, new-IsValid, insert-IsValid, insert_answers}
use rig_memory_policy.Dedup.Seen.Snapshot.{extend_from_snapshot-snapshot}
use rig_memory_policy.Dedup.Gate.{admit}
use rig_memory_policy.Dedup.Gate.Turns.{
  admit_all, first_times, Knows, admit-Knows, admit_all-first_times, new-Knows,
}

-- The set after the keys.
abbrev pub admitted : DedupSet → List DedupKey → DedupSet
admitted s [] = s
admitted s (key ∷ keys) = admitted (admit s key).0 keys

abbrev behind : List DedupKey → List DedupKey → List DedupKey
behind before [] = before
behind before (key ∷ keys) = behind (key ∷ before) keys

first_times-append :
    (before keys later : List DedupKey)
    → first_times before (keys ++ later)
      ≡ first_times before keys ++ first_times (behind before keys) later
first_times-append before [] later = refl
first_times-append before (key ∷ keys) later =
    ap (λ rest. ok (not (any (λ j. text_eq j key) before)) ∷ rest)
      (first_times-append (key ∷ before) keys later)

admitted-Knows :
    (s : DedupSet) (before keys : List DedupKey)
    → Knows s before
    → Knows (admitted s keys) (behind before keys)
admitted-Knows s before [] h = h
admitted-Knows s before (key ∷ keys) h =
    admitted-Knows (admit s key).0 (key ∷ before) keys (admit-Knows s before key h)

admit-IsValid :
    (s : DedupSet) (key : DedupKey) (known : Bool)
    → contains s key ≡ ok known
    → IsKey key
    → IsValid s
    → IsValid (admit s key).0
unfolding admit
admit-IsValid s key true e k v = rw (e, admit) v
admit-IsValid s key false e k v =
    rw (e, admit, insert_answers s key false e) (insert-IsValid s key k v)

admitted-IsValid :
    (s : DedupSet) (before keys : List DedupKey)
    → Knows s before
    → All IsKey keys
    → IsValid s
    → IsValid (admitted s keys)
admitted-IsValid s before [] h _ v = v
admitted-IsValid s before (key ∷ keys) h (k, ks) v =
    admitted-IsValid (admit s key).0 (key ∷ before) keys (admit-Knows s before key h) ks
      (admit-IsValid s key _ (h key) k v)

-- A set that answers one call gives its snapshot.
snapshot_answers :
    (s : DedupSet) (key : DedupKey) (known : Bool)
    → contains s key ≡ ok known
    → snapshot s ≡ ok (sort_by compare_text (map hex_encode s.seen))
unfolding contains snapshot
snapshot_answers s key known e = ground arith

-- A caller passes keys of 32 bytes through the gate of an empty set, one after the other, takes the
-- snapshot, and after a restart passes further keys through the gate of a new set that has replayed
-- the snapshot: the snapshot succeeds, and the caller goes on exactly with the keys that are not among
-- the keys before, those before the restart included.
pub admit_all-restarted :
    (keys later : List DedupKey)
    → All IsKey keys
    → (hexes : List Text) × (snapshot (admitted new keys) ≡ ok hexes)
      × (admit_all new keys ++ admit_all (extend_from_snapshot new hexes).0 later
          ≡ first_times [] (keys ++ later))
admit_all-restarted keys later ks =
    let s = admitted new keys in
    let knows = admitted-Knows new [] keys new-Knows in
    let valid = admitted-IsValid new [] keys new-Knows ks new-IsValid in
    let taken = snapshot_answers s [] _ (knows []) in
    let hexes = sort_by compare_text (map hex_encode s.seen) in
    let again : Knows (extend_from_snapshot new hexes).0 (behind [] keys) =
      λ k. extend_from_snapshot-snapshot s k hexes valid taken ∙ knows k in
    (
      hexes,
      taken,
      ap₂ ◌++◌ (admit_all-first_times new [] keys new-Knows)
            (admit_all-first_times _ (behind [] keys) later again)
          ∙ sym (first_times-append [] keys later),
    )
