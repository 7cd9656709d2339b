-- ===== src/Tests/Unit/Keys.antt =====
-- The tests of src/dedup.rs and src/reconcile.rs, with a hash that is the first 32 bytes of the input.
use Prim.Native.Nat.{◌-◌}
use rig_memory_policy.Prelude.{
  ℕ, ◌==◌, leb, Bool, true, false, not, ◌&&◌, List, [], ◌∷◌, ◌++◌, ◌≡◌, refl, Option, none, some,
  map, take, length, replicate, if◌then◌else◌, filter,
}
use rig_memory_policy.Sort.{sort_by}
use rig_memory_policy.HashSet.{member, add, collect}
use rig_memory_policy.Bits.{count_ones}
use rig_memory_policy.Text.{
  Text, codes, text_eq, is_whitespace, trim_matches, trim_start_matches, trim_end_matches,
}
use rig_memory_policy.Text.Utf8.{as_bytes, utf8, Bytes}
use rig_memory_policy.Text.Order.{compare_text}
use rig_memory_policy.Text.Tokens.{split_whitespace, split_by}
use rig_memory_policy.Errors.{Result, ok, err}
use rig_memory_policy.Dedup.Hex.{
  DedupKey, hex_encode, hex_decode, hex_encode_key, nibble_to_hex, nibble, decode_from,
  join_nibbles,
}
use rig_memory_policy.Dedup.Key.{Blake3, compute_key}
use rig_memory_policy.Dedup.SimHash.{
  SimHash, from_text, bits, hamming_distance, is_near, token_hash, token_hash_8, from_le_bytes,
  count_tokens, count_token, set_bits,
}
use rig_memory_policy.Dedup.Seen
use rig_memory_policy.Dedup.Seen.{DedupSet}
use rig_memory_policy.Reconcile
use rig_memory_policy.Reconcile.{ReconcileOp, ExactHashResolver}
use rig_memory_policy.Tests.SimHash.{ascii}

abbrev pub first_bytes : Blake3
first_bytes = record {
  Hasher = Bytes;
  new = [];
  update = λ h b. h ++ b;
  finalize = λ h. take 32 (h ++ replicate 32 0);
  hash = λ b. take 32 (b ++ replicate 32 0);
}

abbrev pub key : Text → Text → Text → Option Text → Text → DedupKey
key kind conversation_id role scope text =
    compute_key first_bytes kind conversation_id role scope text

abbrev distinct_inputs_produce_distinct_keys : Bool
distinct_inputs_produce_distinct_keys =
    let a = key (codes "demoted_message") (codes "c1") (codes "user") none (codes "hello") in
    let b = key (codes "demoted_message") (codes "c1") (codes "user") none (codes "hello world") in
    let c = key (codes "compaction_summary") (codes "c1") (codes "user") none (codes "hello") in
    let d = key (codes "demoted_message") (codes "c2") (codes "user") none (codes "hello") in
    let e = key (codes "demoted_message") (codes "c1") (codes "assistant") none (codes "hello") in
    let f =
      key (codes "demoted_message") (codes "c1") (codes "user") (some (codes "s"))
        (codes "hello") in
    not (text_eq a b)
    && not (text_eq a c)
    && not (text_eq a d)
    && not (text_eq a e)
    && not (text_eq a f)

abbrev boundary_collision_resistance : Bool
boundary_collision_resistance = not (
    text_eq (key (codes "ab") (codes "c") (codes "user") none [])
      (key (codes "a") (codes "bc") (codes "user") none []))

-- `.unwrap()` on a Boolean answer, which must be `true`.
abbrev answers : Result Bool → Bool
answers (ok b) = b
answers (err e) = false

abbrev restored_from : Result (List Text) → DedupKey → DedupKey → Bool
restored_from (err e) k1 k2 = false
restored_from (ok snap) k1 k2 =
    let restored = (Seen.extend_from_snapshot Seen.new snap).0 in
    (length snap == 2) && answers (Seen.contains restored k1) && answers (Seen.contains restored k2)

abbrev set_round_trips_via_snapshot : Bool
set_round_trips_via_snapshot =
    let k1 = key (codes "kind") (codes "conv") (codes "user") none (codes "one") in
    let k2 = key (codes "kind") (codes "conv") (codes "user") none (codes "two") in
    let set = (Seen.insert (Seen.insert Seen.new k1).0 k2).0 in
    restored_from (Seen.snapshot set) k1 k2

abbrev counts : ℕ → Result ℕ → Bool
counts n (ok m) = m == n
counts n (err e) = false

abbrev malformed_snapshot_entries_are_skipped : Bool
malformed_snapshot_entries_are_skipped =
    let good = key (codes "k") (codes "c") (codes "user") none (codes "x") in
    let set = (Seen.extend_from_snapshot Seen.new (hex_encode good ∷ codes "not-hex" ∷ [])).0 in
    counts 1 (Seen.len set) && answers (Seen.contains set good)

abbrev is_none : Option DedupKey → Bool
is_none none = true
is_none (some k) = false

abbrev hex_decode_rejects_malformed_inputs : Bool
hex_decode_rejects_malformed_inputs =
    is_none (hex_decode [])
    && is_none (hex_decode (codes "ab"))
    && is_none (hex_decode (replicate 63 b'a'))
    && is_none (hex_decode (replicate 65 b'a'))
    && is_none (hex_decode (replicate 64 b'g'))
    && is_none (hex_decode (replicate 64 b'z'))
    && is_none (hex_decode (replicate 63 b'a' ++ b'!' ∷ []))

abbrev is_key : DedupKey → Option DedupKey → Bool
is_key k none = false
is_key k (some j) = text_eq j k

abbrev hex_decode_accepts_mixed_case : Bool
hex_decode_accepts_mixed_case =
    let given = key (codes "k") (codes "c") (codes "r") none (codes "payload") in
    let lower = hex_encode given in
    let upper = map (λ c. if leb b'a' c && leb c b'z' then c - 32 else c) lower in
    is_key given (hex_decode lower) && is_key given (hex_decode upper)

abbrev simhash_empty_text_is_zero : Bool
simhash_empty_text_is_zero = bits (from_text first_bytes ascii (codes "   ")) == 0

abbrev pub fingerprint : Text → SimHash
fingerprint text = from_text first_bytes ascii text

abbrev simhash_identical_text_has_zero_distance : Bool
simhash_identical_text_has_zero_distance =
    hamming_distance (fingerprint (codes "scheduled maintenance window tonight"))
      (fingerprint (codes "scheduled maintenance window tonight"))
    == 0

abbrev simhash_word_reorder_stays_close : Bool
simhash_word_reorder_stays_close =
    let a = fingerprint (codes "the scheduled maintenance window is tonight") in
    let b = fingerprint (codes "the maintenance window is scheduled tonight") in
    (hamming_distance a b == 0) && is_near a b 4

abbrev simhash_normalizes_case_and_punctuation : Bool
simhash_normalizes_case_and_punctuation =
    is_near (fingerprint (codes "PowerShell, scheduled-task!"))
      (fingerprint (codes "powershell scheduled-task")) 4

keys_pass : (distinct_inputs_produce_distinct_keys && boundary_collision_resistance) ≡ true
unfolding compute_key as_bytes utf8 text_eq take
keys_pass = refl

hex_passes : (hex_decode_rejects_malformed_inputs && hex_decode_accepts_mixed_case) ≡ true
unfolding compute_key as_bytes utf8 text_eq take hex_encode hex_decode nibble_to_hex nibble
    decode_from join_nibbles
hex_passes = refl

sets_pass : (set_round_trips_via_snapshot && malformed_snapshot_entries_are_skipped) ≡ true
unfolding compute_key as_bytes utf8 text_eq take hex_encode hex_decode nibble_to_hex nibble
    decode_from join_nibbles Seen.new Seen.insert Seen.contains Seen.snapshot
    Seen.extend_from_snapshot Seen.replay_all Seen.replay Seen.len member add sort_by compare_text
sets_pass = refl

simhash_passes :
    (simhash_empty_text_is_zero && simhash_identical_text_has_zero_distance
      && simhash_word_reorder_stays_close && simhash_normalizes_case_and_punctuation)
    ≡ true
unfolding from_text bits hamming_distance is_near count_ones token_hash token_hash_8 from_le_bytes
    count_tokens count_token set_bits trim_matches trim_start_matches trim_end_matches as_bytes utf8
    take split_whitespace split_by is_whitespace filter
simhash_passes = refl

abbrev pub is_noop : ReconcileOp → Bool
is_noop ReconcileOp.noop = true
is_noop _ = false

abbrev pub is_add : ReconcileOp → Bool
is_add ReconcileOp.add = true
is_add _ = false

abbrev greeted : ExactHashResolver
greeted = Reconcile.new first_bytes (codes "hello world" ∷ [])

abbrev exact_duplicate_is_noop : Bool
exact_duplicate_is_noop = is_noop (Reconcile.reconcile first_bytes greeted (codes "hello world"))

abbrev novel_item_is_add : Bool
novel_item_is_add = is_add (Reconcile.reconcile first_bytes greeted (codes "something else"))

abbrev whitespace_difference_is_not_an_exact_match : Bool
whitespace_difference_is_not_an_exact_match =
    is_add (Reconcile.reconcile first_bytes greeted (codes "hello  world"))

abbrev observe_makes_future_items_noop : Bool
observe_makes_future_items_noop =
    let resolver = Reconcile.new first_bytes [] in
    let noted = Reconcile.observe first_bytes resolver (codes "note") in
    Reconcile.is_empty resolver
    && is_add (Reconcile.reconcile first_bytes resolver (codes "note"))
    && (Reconcile.len noted == 1)
    && is_noop (Reconcile.reconcile first_bytes noted (codes "note"))

resolvers_pass :
    (exact_duplicate_is_noop && novel_item_is_add && whitespace_difference_is_not_an_exact_match
      && observe_makes_future_items_noop)
    ≡ true
unfolding Reconcile.new Reconcile.reconcile Reconcile.observe Reconcile.len Reconcile.is_empty
    Reconcile.content_hash hex_encode_key hex_encode nibble_to_hex as_bytes utf8 text_eq take member
    add collect
resolvers_pass = refl
