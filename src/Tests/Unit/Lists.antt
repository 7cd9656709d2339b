-- ===== src/Tests/Unit/Lists.antt =====
-- The tests of src/fusion.rs, with whole numbers of billionths for the floats, and of
-- src/metadata.rs, with a deserialiser written out.
use rig_memory_policy.Prelude.{
  ℕ, zero, suc, any, ◌^◌, ◌==◌, ltb, Bool, true, false, not, ◌&&◌, List, [], ◌∷◌, ◌≡◌, refl, Option,
  none, some, length, is_nil,
}
use rig_memory_policy.Sort.{sort_by}
use rig_memory_policy.Text.{Text, codes, text_eq}
use rig_memory_policy.Text.Order.{compare_text}
use rig_memory_policy.Floats.{Floats}
use rig_memory_policy.Errors.{Result, ok, err}
use rig_memory_policy.Fusion.{
  rrf_default_k, see_item, see_list, see_lists, slots, reciprocal_rank_fusion,
}
use rig_memory_policy.Metadata.{FrameKind, FrameMetadata, kind_as_str, kind_eq}
use rig_memory_policy.Metadata.Map.{
  into_map, try_from_map, insert, to_string, json_object, json_value, parse_u8, parse_digits,
}
use rig_memory_policy.Tests.Retention.{whole_floats}
use rig_memory_policy.Tests.Fusion.{texts}
use rig_memory_policy.Tests.Metadata.{by_name}

abbrev fine_floats : Floats
fine_floats = record whole_floats { unit = 10 ^ 9 }

abbrev pub fused : List (List Text) → List (Text × ℕ)
fused lists = reciprocal_rank_fusion fine_floats texts lists (rrf_default_k fine_floats)

abbrev pub nth_is : ℕ → Text → List (Text × ℕ) → Bool
nth_is n item [] = false
nth_is zero item (x ∷ xs) = text_eq x.0 item
nth_is (suc n) item (x ∷ xs) = nth_is n item xs

abbrev falls_at_once : List (Text × ℕ) → Bool
falls_at_once (x ∷ y ∷ xs) = ltb y.1 x.1
falls_at_once _ = false

abbrev starts_level : List (Text × ℕ) → Bool
starts_level (x ∷ y ∷ xs) = x.1 == y.1
starts_level _ = false

abbrev fuses_two_lists_by_combined_rank : Bool
fuses_two_lists_by_combined_rank =
    let result =
      fused (
        (codes "a" ∷ codes "b" ∷ codes "c" ∷ []) ∷ (codes "a" ∷ codes "c" ∷ codes "d" ∷ []) ∷ []) in
    nth_is 0 (codes "a") result
    && nth_is 1 (codes "c") result
    && falls_at_once result
    && (length result == 4)

abbrev exact_tie_breaks_on_first_seen_order : Bool
exact_tie_breaks_on_first_seen_order =
    let result = fused ((codes "a" ∷ codes "b" ∷ []) ∷ (codes "b" ∷ codes "a" ∷ []) ∷ []) in
    starts_level result && nth_is 0 (codes "a") result

abbrev item_in_both_lists_outranks_item_in_one : Bool
item_in_both_lists_outranks_item_in_one =
    nth_is 0 (codes "x")
      (fused ((codes "x" ∷ codes "solo" ∷ []) ∷ (codes "x" ∷ codes "other" ∷ []) ∷ []))

abbrev empty_input_yields_empty_output : Bool
empty_input_yields_empty_output = is_nil (fused [])

fusions_pass :
    (fuses_two_lists_by_combined_rank && exact_tie_breaks_on_first_seen_order
      && item_in_both_lists_outranks_item_in_one && empty_input_yields_empty_output)
    ≡ true
unfolding reciprocal_rank_fusion see_lists see_list see_item slots sort_by text_eq
fusions_pass = refl

abbrev scope_eq : Option Text → Option Text → Bool
scope_eq none none = true
scope_eq (some s) (some t) = text_eq s t
scope_eq _ _ = false

-- The derived `==`.
abbrev metadata_eq : FrameMetadata → FrameMetadata → Bool
metadata_eq a b =
    (a.schema_version == b.schema_version)
    && kind_eq a.kind b.kind
    && text_eq a.conversation_id b.conversation_id
    && text_eq a.chat_role b.chat_role
    && text_eq a.dedup_key b.dedup_key
    && scope_eq a.scope b.scope

abbrev is_read_as : FrameMetadata → Result FrameMetadata → Bool
is_read_as original (ok parsed) = metadata_eq parsed original
is_read_as original (err e) = false

abbrev round_trips_through_map : Bool
round_trips_through_map =
    let original : FrameMetadata = record {
      schema_version = 1;
      kind = FrameKind.demoted_message;
      conversation_id = codes "conv-1";
      chat_role = codes "user";
      dedup_key = codes "deadbeef";
      scope = some (codes "scope-a");
    } in
    is_read_as original (try_from_map by_name (into_map original))

abbrev scope_round_trips_when_absent : Bool
scope_round_trips_when_absent =
    let original : FrameMetadata = record {
      schema_version = 1;
      kind = FrameKind.compaction_summary;
      conversation_id = codes "conv-2";
      chat_role = codes "assistant";
      dedup_key = codes "cafebabe";
      scope = none;
    } in
    not (any (λ entry. text_eq entry.0 (codes "scope")) (into_map original))
    && is_read_as original (try_from_map by_name (into_map original))

metadata_passes : (round_trips_through_map && scope_round_trips_when_absent) ≡ true
unfolding into_map try_from_map insert to_string kind_as_str json_object json_value parse_u8
    parse_digits compare_text text_eq
metadata_passes = refl
