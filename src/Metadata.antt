-- ===== src/Metadata.antt =====
-- src/metadata.rs: the typed envelope of an entry.
pub mod Map
pub mod RoundTrip
pub mod Lookup
pub mod Decoding
use rig_memory_policy.Prelude.{ℕ, Bool, true, false, Option}
use rig_memory_policy.Text.{Text, codes}

-- `enum FrameKind`.
pub data FrameKind : Type 0 where
  demoted_message compaction_summary : FrameKind

-- The derived `==`.
abbrev pub kind_eq : FrameKind → FrameKind → Bool
kind_eq FrameKind.demoted_message FrameKind.demoted_message = true
kind_eq FrameKind.compaction_summary FrameKind.compaction_summary = true
kind_eq _ _ = false

-- `FrameKind::as_str`.
unfoldable pub kind_as_str : FrameKind → Text
kind_as_str FrameKind.demoted_message = codes "demoted_message"
kind_as_str FrameKind.compaction_summary = codes "compaction_summary"

-- `struct FrameMetadata`; `schema_version` is a `u8`.
pub record FrameMetadata : Type 0 where
  pub schema_version : ℕ
  pub kind : FrameKind
  pub conversation_id : Text
  pub chat_role : Text
  pub dedup_key : Text
  pub scope : Option Text
