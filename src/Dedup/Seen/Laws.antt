-- ===== src/Dedup/Seen/Laws.antt =====
-- The operations of a `DedupSet` one by one, and its invariant.
use rig_memory_policy.Prelude.{
  Bool, true, List, [], ◌∷◌, ◌≡◌, refl, arith, if◌then◌else◌, All, Bool-cases, Option-cases, inl,
  inr,
}
use rig_memory_policy.Text.{Text, text_eq}
use rig_memory_policy.Errors.{PolicyError, ok, err}
use rig_memory_policy.HashSet.{IsDistinct, member-add, add-IsDistinct, add-All, add_twice}
use rig_memory_policy.Dedup.Hex.{DedupKey, IsKey, hex_decode}
use rig_memory_policy.Dedup.Hex.RoundTrip.{hex_decode_iff}
use rig_memory_policy.Dedup.Seen.{
  DedupSet, new, contains, insert, snapshot, replay, replay_all, extend_from_snapshot, len,
}

-- What is always true of the keys: none is held twice, and all have 32 bytes.
pub record IsValid (s : DedupSet) : Type 0 where
  pub distinct : IsDistinct s.seen
  pub keys : All IsKey s.seen

pub new-IsValid : IsValid new
unfolding new
new-IsValid = record { distinct = tt; keys = tt }

pub insert-IsValid :
    (s : DedupSet) (key : DedupKey) → IsKey key → IsValid s → IsValid (insert s key).0
unfolding insert
insert-IsValid s key k v = elim (Bool-cases s.poisoned) [
  | inl e ↦ simp e v
  | inr e ↦ simp e (record {
    distinct = add-IsDistinct key s.seen v.distinct;
    keys = add-All IsKey key s.seen k v.keys;
  })
]

-- After an insertion, a set that is not poisoned contains the new key and what it contained before;
-- a poisoned set answers by the error.
pub contains-insert :
    (s : DedupSet) (key j : DedupKey)
    → contains (insert s key).0 j ≡ (
        if s.poisoned
        then err PolicyError.poisoned
        else if text_eq key j
        then ok true
        else contains s j)
unfolding contains insert
contains-insert s key j = ground (arith, member-add key j s.seen)

-- A set that answers one call is not poisoned and answers the next.
pub insert_answers :
    (set : DedupSet) (key : DedupKey) (known : Bool)
    → contains set key ≡ ok known
    → (insert set key).1 ≡ ok tt
unfolding contains insert
insert_answers set key known e = ground arith

pub contains-insert_ok :
    (set : DedupSet) (key k : DedupKey) (known : Bool)
    → contains set key ≡ ok known
    → contains (insert set key).0 k ≡ (if text_eq key k then ok true else contains set k)
unfolding contains
contains-insert_ok set key k known e = ground (arith, contains-insert set key k)

-- A second insertion of the same key changes nothing, and answers as the first.
pub insert_twice : (s : DedupSet) (key : DedupKey) → insert (insert s key).0 key ≡ insert s key
unfolding insert
insert_twice s key = ground (arith, add_twice key s.seen)

-- A poisoned set answers every call by the error, and stays as it is.
pub poisoned_calls :
    (s : DedupSet) (key : DedupKey) (hexes : List Text)
    → s.poisoned ≡ true
    → (contains s key ≡ err PolicyError.poisoned)
      × (insert s key ≡ (s, err PolicyError.poisoned))
      × (snapshot s ≡ err PolicyError.poisoned)
      × (extend_from_snapshot s hexes ≡ (s, err PolicyError.poisoned))
      × (len s ≡ err PolicyError.poisoned)
unfolding contains insert snapshot extend_from_snapshot len
poisoned_calls s key hexes h = rw h (refl, refl, refl, refl, refl)

replay-IsValid :
    (hex : Text) (seen : List DedupKey)
    → IsDistinct seen × All IsKey seen
    → IsDistinct (replay hex seen) × All IsKey (replay hex seen)
unfolding replay
replay-IsValid hex seen (d, ks) = elim (Option-cases (hex_decode hex)) [
  | inl e ↦ rw (e, replay) (d, ks)
  | inr (key, e) ↦
      rw (e, replay)
        (add-IsDistinct key seen d, add-All IsKey key seen ((hex_decode_iff hex key).0 e).0 ks)
]

replay_all-IsValid :
    (hexes : List Text) (seen : List DedupKey)
    → IsDistinct seen × All IsKey seen
    → IsDistinct (replay_all hexes seen) × All IsKey (replay_all hexes seen)
unfolding replay_all
replay_all-IsValid [] seen h = h
replay_all-IsValid (hex ∷ hexes) seen h =
    replay_all-IsValid hexes (replay hex seen) (replay-IsValid hex seen h)

-- If a set holds no key twice and only keys of 32 bytes, so it does after the replay of any texts.
pub extend_from_snapshot-IsValid :
    (s : DedupSet) (hexes : List Text) → IsValid s → IsValid (extend_from_snapshot s hexes).0
unfolding extend_from_snapshot
extend_from_snapshot-IsValid s hexes v = elim (Bool-cases s.poisoned) [
  | inl e ↦ simp e v
  | inr e ↦
      let (d, ks) = replay_all-IsValid hexes s.seen (v.distinct, v.keys) in
      simp e (record { distinct = d; keys = ks })
]
