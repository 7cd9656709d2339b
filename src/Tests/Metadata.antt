-- ===== src/Tests/Metadata.antt =====
-- Runs of src/metadata.rs, with a deserialiser written out.
use rig_memory_policy.Prelude.{ℕ, ◌≡◌, refl, arith, Option, none, some, if◌then◌else◌, ◌>>=◌}
use rig_memory_policy.Text.{Text, codes, text_eq}
use rig_memory_policy.Errors.{ok}
use rig_memory_policy.Metadata.{FrameMetadata, FrameKind, kind_as_str}
use rig_memory_policy.Metadata.Map.{Value, Serde, into_map, try_from_map}
use rig_memory_policy.Metadata.RoundTrip.{field, IsDerived, scope_value, try_from_map-into_map}

abbrev pub as_number : Option Value → Option ℕ
as_number (some (Value.number n)) = some n
as_number _ = none

abbrev pub as_text : Option Value → Option Text
as_text (some (Value.string t)) = some t
as_text _ = none

abbrev pub as_kind : Text → Option FrameKind
as_kind t =
    if text_eq t (codes "demoted_message")
    then some FrameKind.demoted_message
    else if text_eq t (codes "compaction_summary")
    then some FrameKind.compaction_summary
    else none

abbrev pub as_scope : Option Value → Option (Option Text)
as_scope none = some none
as_scope (some (Value.string t)) = some (some t)
as_scope (some (Value.number n)) = none

abbrev pub by_name : Serde
by_name = record {
  from_value = λ obj. as_number (field (codes "schema_version") obj) >>= λ version.
      (as_text (field (codes "kind") obj) >>= as_kind) >>= λ kind.
      as_text (field (codes "conversation_id") obj) >>= λ conversation_id.
      as_text (field (codes "chat_role") obj) >>= λ chat_role.
      as_text (field (codes "dedup_key") obj) >>= λ dedup_key.
      as_scope (field (codes "scope") obj) >>= λ scope. some (record {
        schema_version = version;
        kind = kind;
        conversation_id = conversation_id;
        chat_role = chat_role;
        dedup_key = dedup_key;
        scope = scope;
      });
  message = λ obj. codes "invalid";
}

kind_read : (k : FrameKind) → as_kind (kind_as_str k) ≡ some k
unfolding kind_as_str text_eq
kind_read FrameKind.demoted_message = refl
kind_read FrameKind.compaction_summary = refl

scope_read : (o : Option Text) → as_scope (scope_value o) ≡ some o
scope_read none = refl
scope_read (some t) = refl

pub by_name-IsDerived : IsDerived by_name
by_name-IsDerived md obj h version kind conversation_id chat_role dedup_key scope =
    rw
      (
        version,
        kind,
        kind_read md.kind,
        conversation_id,
        chat_role,
        dedup_key,
        scope,
        scope_read md.scope,
      )
      refl

abbrev demoted : FrameMetadata
demoted = record {
  schema_version = 1;
  kind = FrameKind.demoted_message;
  conversation_id = codes "conv-1";
  chat_role = codes "user";
  dedup_key = codes "7";
  scope = some (codes "scope-a");
}

try_from_map-into_map_example : try_from_map by_name (into_map demoted) ≡ ok demoted
try_from_map-into_map_example =
    try_from_map-into_map by_name demoted by_name-IsDerived (omega arith)
