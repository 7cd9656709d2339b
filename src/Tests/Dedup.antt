-- ===== src/Tests/Dedup.antt =====
-- Runs of src/dedup.rs.
use rig_memory_policy.Prelude.{
  false, [], ◌∷◌, ◌++◌, List, ◌≡◌, ◌↔◌, ◌⊎◌, refl, some, none, arith, replicate, map, Perm,
}
use rig_memory_policy.Text.{Text, codes, text_eq}
use rig_memory_policy.Text.Utf8.{Bytes, as_bytes, utf8}
use rig_memory_policy.Text.Order.{compare_text}
use rig_memory_policy.Sort.{sort_by}
use rig_memory_policy.Errors.{ok}
use rig_memory_policy.HashSet.{member}
use rig_memory_policy.Dedup.Hex.{DedupKey, IsKey, hex_encode, hex_decode, nibble_to_hex}
use rig_memory_policy.Dedup.Hex.RoundTrip.{to_lower, hex_decode_iff}
use rig_memory_policy.Dedup.Key.{Blake3, IsBlake3, compute_key}
use rig_memory_policy.Dedup.Key.Collisions.{
  Entry, IsSeparable, SameFields, Collide, key_of, compute_key-eq_iff, compute_key_shared,
}
use rig_memory_policy.Dedup.Seen
use rig_memory_policy.Dedup.Seen.{DedupSet, contains, insert, snapshot, extend_from_snapshot, len}
use rig_memory_policy.Dedup.Seen.Laws.{IsValid}
use rig_memory_policy.Dedup.Seen.FiniteSet.{of_list}
use rig_memory_policy.Dedup.Seen.Calls.{Event, answers, promised, new-promised}
use rig_memory_policy.Dedup.Seen.Reload.{snapshot_reloaded}

-- A hasher that keeps the text and answers always the same key.
abbrev pub flat_hash : Blake3
flat_hash = record {
  Hasher = Bytes;
  new = [];
  update = λ h b. h ++ b;
  finalize = λ h. replicate 32 7;
  hash = λ b. replicate 32 7;
}

pub flat_hash-IsBlake3 : IsBlake3 flat_hash
flat_hash-IsBlake3 = record {
  incremental = λ parts. refl;
  hash-IsKey = λ input. record { size = refl; bytes = omega arith };
}

abbrev key_a : DedupKey
key_a = replicate 32 0xab

abbrev key_b : DedupKey
key_b = replicate 32 0x0c

key_a-IsKey : IsKey key_a
key_a-IsKey = record { size = refl; bytes = omega arith }

key_b-IsKey : IsKey key_b
key_b-IsKey = record { size = refl; bytes = omega arith }

abbrev two_keys : DedupSet
two_keys = record { poisoned = false; seen = key_a ∷ key_b ∷ [] }

two_keys-IsValid : IsValid two_keys
unfolding member text_eq
two_keys-IsValid = record { distinct = (refl, (refl, tt)); keys = (key_a-IsKey, (key_b-IsKey, tt)) }

rejected : (hex_decode (codes "ab") ≡ none) × (hex_decode (replicate 64 b'g') ≡ none)
unfolding hex_decode as_bytes utf8
rejected = (refl, refl)

accepted : hex_decode (replicate 64 b'A') ≡ some (replicate 32 0xaa)
unfolding hex_decode as_bytes utf8
accepted = refl

hex_decode_iff_example : (hex_decode (replicate 64 b'A') ≡ some (replicate 32 0xaa)) ↔ (
    IsKey (replicate 32 0xaa) × (map to_lower (replicate 64 b'A') ≡ hex_encode (replicate 32 0xaa)))
hex_decode_iff_example = hex_decode_iff (replicate 64 b'A') (replicate 32 0xaa)

abbrev entry : Text → Entry
entry text = record {
  kind = codes "demoted_message";
  conversation_id = codes "c1";
  role = codes "user";
  scope = none;
  text = text;
}

hello-IsSeparable : IsSeparable (entry (codes "hello"))
hello-IsSeparable = record {
  kind = omega arith;
  conversation_id = omega arith;
  role = omega arith;
  scope = (tt, tt);
  text = omega arith;
}

world-IsSeparable : IsSeparable (entry (codes "world"))
world-IsSeparable = record {
  kind = omega arith;
  conversation_id = omega arith;
  role = omega arith;
  scope = (tt, tt);
  text = omega arith;
}

compute_key-eq_iff_example :
    (key_of flat_hash (entry (codes "hello")) ≡ key_of flat_hash (entry (codes "world"))) ↔ (
      SameFields (entry (codes "hello")) (entry (codes "world"))
      ⊎ Collide flat_hash (entry (codes "hello")) (entry (codes "world")))
compute_key-eq_iff_example =
    compute_key-eq_iff flat_hash flat_hash-IsBlake3 (entry (codes "hello")) (entry (codes "world"))
      hello-IsSeparable world-IsSeparable

compute_key_shared_example :
    (compute_key flat_hash (codes "a" ++ 0 ∷ codes "b") (codes "c") (codes "user") none (codes "t")
      ≡ compute_key flat_hash
          (codes "a")
          (codes "b" ++ 0 ∷ codes "c")
          (codes "user")
          none
          (codes "t"))
    × (compute_key flat_hash (codes "a") (codes "c") (codes "user") none (codes "t")
        ≡ compute_key flat_hash (codes "a") (codes "c") (codes "user") (some []) (codes "t"))
compute_key_shared_example =
    compute_key_shared flat_hash flat_hash-IsBlake3 (codes "a") (codes "b") (codes "c")
      (codes "user") (codes "t") none

abbrev two_lines : List Text
two_lines = hex_encode key_b ∷ hex_encode key_a ∷ []

two_lines_written : snapshot two_keys ≡ ok two_lines
unfolding snapshot sort_by compare_text hex_encode nibble_to_hex
two_lines_written = refl

snapshot_reloaded_example :
    Perm (extend_from_snapshot Seen.new two_lines).0.seen two_keys.seen
    × (snapshot (extend_from_snapshot Seen.new two_lines).0 ≡ ok two_lines)
snapshot_reloaded_example = snapshot_reloaded two_keys two_lines two_keys-IsValid two_lines_written

-- A snapshot of one set is replayed into another, on which a thread panics at the end.
abbrev day : List Event
day =
    Event.insert_key key_a
    ∷ Event.extend_with (codes "zz" ∷ hex_encode key_b ∷ [])
    ∷ Event.insert_key key_a
    ∷ Event.contains_key key_b
    ∷ Event.take_snapshot
    ∷ Event.take_len
    ∷ Event.panic
    ∷ Event.take_len
    ∷ []

new-promised_example : answers Seen.new day ≡ promised (some (of_list [])) day
new-promised_example = new-promised day
