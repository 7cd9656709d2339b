-- ===== src/Metadata/Map.antt =====
-- src/metadata.rs, `into_map` and `try_from_map`. `BTreeMap`, `u8::to_string` and `str::parse::<u8>`
-- are those of the Rust standard library; the deserialiser that serde derives is a parameter.
use rig_memory_policy.Prelude.{
  ℕ, ◌+◌, ◌-◌, ◌*◌, ◌/◌, ◌%◌, ltb, leb, ◌&&◌, List, [], ◌∷◌, Option, none, some, Ordering,
  if◌then◌else◌, ◌==◌, is_nil,
}
use rig_memory_policy.Text.{Text, codes, text_eq}
use rig_memory_policy.Text.Order.{compare_text}
use rig_memory_policy.Errors.{PolicyError, Result, ok, err}
use rig_memory_policy.Metadata.{FrameMetadata, kind_as_str}

-- `insert` on a `BTreeMap`: its entries in the order of their keys.
unfoldable pub insert {ℓ} : {V : Type ℓ} → Text → V → List (Text × V) → List (Text × V)
insert k v [] = (k, v) ∷ []
insert k v (entry ∷ m) = elim (compare_text k entry.0) [
  | Ordering.lt ↦ (k, v) ∷ entry ∷ m
  | Ordering.eq ↦ (k, v) ∷ m
  | Ordering.gt ↦ entry ∷ insert k v m
]

-- `u8::to_string`.
unfoldable pub to_string : ℕ → Text
to_string n =
    if ltb n 10
    then (b'0' + n) ∷ []
    else if ltb n 100
    then (b'0' + n / 10) ∷ (b'0' + n % 10) ∷ []
    else (b'0' + n / 100) ∷ (b'0' + n / 10 % 10) ∷ (b'0' + n % 10) ∷ []

-- The digits after `value`, which must stay below 256.
unfoldable pub parse_digits : ℕ → Text → Option ℕ
parse_digits value [] = some value
parse_digits value (c ∷ s) =
    let rest = parse_digits (value * 10 + (c - b'0')) s in
    if leb b'0' c && leb c b'9' && ltb (value * 10 + (c - b'0')) 256 then rest else none

-- `parse::<u8>`: an optional plus sign, then at least one digit.
unfoldable pub parse_u8 : Text → Option ℕ
unfolding parse_digits
parse_u8 [] = none
parse_u8 (c ∷ s) =
    if c == b'+' then (if is_nil s then none else parse_digits 0 s) else parse_digits 0 (c ∷ s)

-- `into_map`.
unfoldable pub into_map : FrameMetadata → List (Text × Text)
unfolding insert
into_map md =
    let m₁ = insert (codes "schema_version") (to_string md.schema_version) [] in
    let m₂ = insert (codes "kind") (kind_as_str md.kind) m₁ in
    let m₃ = insert (codes "conversation_id") md.conversation_id m₂ in
    let m₄ = insert (codes "chat_role") md.chat_role m₃ in
    let m₅ = insert (codes "dedup_key") md.dedup_key m₄ in
    elim md.scope [ none ↦ m₅ | some scope ↦ insert (codes "scope") scope m₅ ]

-- What the loop makes of `serde_json::Value`.
pub data Value : Type 0 where
  number : ℕ → Value
  string : Text → Value

-- `serde_json::from_value` at `FrameMetadata`, with the text of its error.
pub record Serde : Type 0 where
  pub from_value : List (Text × Value) → Option FrameMetadata
  pub message : List (Text × Value) → Text

-- The body of the loop: a number only for the schema version.
unfoldable pub json_value : Text → Text → Value
unfolding parse_u8
json_value k v = elim (parse_u8 v) [
  | some num ↦ if text_eq k (codes "schema_version") then Value.number num else Value.string v
  | none ↦ Value.string v
]

unfoldable pub json_object : List (Text × Text) → List (Text × Value) → List (Text × Value)
unfolding json_value insert
json_object [] obj = obj
json_object (entry ∷ m) obj = json_object m (insert entry.0 (json_value entry.0 entry.1) obj)

-- `map_err`.
abbrev pub decoded : Option FrameMetadata → Text → Result FrameMetadata
decoded none message = err (PolicyError.invalid_metadata message)
decoded (some md) message = ok md

-- `try_from_map`.
unfoldable pub try_from_map : Serde → List (Text × Text) → Result FrameMetadata
unfolding json_object
try_from_map d m = let obj = json_object m [] in decoded (d.from_value obj) (d.message obj)
