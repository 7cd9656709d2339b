-- ===== src/Metadata/Decoding.antt =====
-- Which maps `try_from_map` decodes, and to what.
use mathlib.Core.Logic.Iff
use mathlib.Core.Option.{bind}
use rig_memory_policy.Prelude.{
  ℕ, ◌<◌, ◌+◌, ◌-◌, ◌*◌, false, List, [], ◌∷◌, ◌≡◌, ◌↔◌, ◌⊎◌, refl, arith, Option, none, some, inl,
  inr,
}
use rig_memory_policy.Text.{Text, codes, text_eq}
use rig_memory_policy.Errors.{PolicyError, Result, ok, err}
use rig_memory_policy.HashSet.{IsDistinct}
use rig_memory_policy.Metadata.{FrameMetadata, kind_as_str}
use rig_memory_policy.Metadata.Lookup.{text_at, keys, or_else, field-map}
use rig_memory_policy.Metadata.Map.{
  parse_u8, parse_digits, Value, Serde, json_value, json_object, decoded, try_from_map,
}
use rig_memory_policy.Metadata.RoundTrip.{IsDerived, field, scope_value, json_value-string}

-- What the map holds, field by field, is what the record says.
pub record Written (md : FrameMetadata) (m : List (Text × Text)) : Type 0 where
  pub schema_version : bind (text_at (codes "schema_version") m) parse_u8 ≡ some md.schema_version
  pub kind : text_at (codes "kind") m ≡ some (kind_as_str md.kind)
  pub conversation_id : text_at (codes "conversation_id") m ≡ some md.conversation_id
  pub chat_role : text_at (codes "chat_role") m ≡ some md.chat_role
  pub dedup_key : text_at (codes "dedup_key") m ≡ some md.dedup_key
  pub scope : text_at (codes "scope") m ≡ md.scope

-- The same of an object: the version is a number, and the others are texts.
pub record Reads (md : FrameMetadata) (obj : List (Text × Value)) : Type 0 where
  pub schema_version : field (codes "schema_version") obj ≡ some (Value.number md.schema_version)
  pub kind : field (codes "kind") obj ≡ some (Value.string (kind_as_str md.kind))
  pub conversation_id : field (codes "conversation_id") obj ≡ some (Value.string md.conversation_id)
  pub chat_role : field (codes "chat_role") obj ≡ some (Value.string md.chat_role)
  pub dedup_key : field (codes "dedup_key") obj ≡ some (Value.string md.dedup_key)
  pub scope : field (codes "scope") obj ≡ scope_value md.scope

-- The derived deserialiser takes nothing else: a field that is missing, or of another type, is an
-- error.
abbrev pub IsStrict : Serde → Type 0
IsStrict d =
    (md : FrameMetadata) (obj : List (Text × Value)) → d.from_value obj ≡ some md → Reads md obj

as_text_iff :
    (k v : Text) (o : Option Text)
    → text_eq k (codes "schema_version") ≡ false
    → (or_else k o none ≡ some (Value.string v)) ↔ (o ≡ some v)
as_text_iff k v none other = (λ e. cc, λ e. cc)
as_text_iff k v (some w) other = let e = json_value-string k w other in (λ h. cc e, λ h. cc e)

as_scope_iff :
    (scope o : Option Text) → (or_else (codes "scope") o none ≡ scope_value scope) ↔ (o ≡ scope)
unfolding text_eq
as_scope_iff none none = (λ e. refl, λ e. refl)
as_scope_iff none (some w) = (λ e. cc, λ e. cc)
as_scope_iff (some v) o = as_text_iff (codes "scope") v o refl

abbrev as_value : Text → Option ℕ → Value
as_value w none = Value.string w
as_value w (some n) = Value.number n

json_value-version : (w : Text) → json_value (codes "schema_version") w ≡ as_value w (parse_u8 w)
unfolding json_value text_eq
json_value-version w = by_parse (parse_u8 w)
  where
    by_parse :
        (p : Option ℕ)
        → elim p [ some num ↦ Value.number num | none ↦ Value.string w ] ≡ as_value w p
    by_parse none = refl
    by_parse (some n) = refl

as_value_iff :
    (n : ℕ) (w : Text) (p : Option ℕ) → (some (as_value w p) ≡ some (Value.number n)) ↔ (p ≡ some n)
as_value_iff n w none = (λ e. cc, λ e. cc)
as_value_iff n w (some k) = (λ e. cc, λ e. cc)

as_number_iff :
    (n : ℕ) (o : Option Text)
    → (or_else (codes "schema_version") o none ≡ some (Value.number n)) ↔ (bind o parse_u8 ≡ some n)
unfolding bind
as_number_iff n none = (λ e. cc, λ e. cc)
as_number_iff n (some w) = rw (json_value-version w) (as_value_iff n w (parse_u8 w))

module _ (m : List (Text × Text)) (d : IsDistinct (keys m)) where
  field_text_iff :
      (k v : Text)
      → text_eq k (codes "schema_version") ≡ false
      → (field k (json_object m []) ≡ some (Value.string v)) ↔ (text_at k m ≡ some v)
  field_text_iff k v other = rw (field-map k m d) (as_text_iff k v (text_at k m) other)

  field_scope_iff :
      (scope : Option Text)
      → (field (codes "scope") (json_object m []) ≡ scope_value scope)
        ↔ (text_at (codes "scope") m ≡ scope)
  field_scope_iff scope =
      rw (field-map (codes "scope") m d) (as_scope_iff scope (text_at (codes "scope") m))

  field_version_iff :
      (n : ℕ)
      → (field (codes "schema_version") (json_object m []) ≡ some (Value.number n))
        ↔ (bind (text_at (codes "schema_version") m) parse_u8 ≡ some n)
  field_version_iff n =
      rw (field-map (codes "schema_version") m d)
        (as_number_iff n (text_at (codes "schema_version") m))

  Reads-Written : (md : FrameMetadata) → Reads md (json_object m []) ↔ Written md m
  unfolding text_eq
  Reads-Written md =
      let version = field_version_iff md.schema_version in
      let kind = field_text_iff (codes "kind") (kind_as_str md.kind) refl in
      let conversation = field_text_iff (codes "conversation_id") md.conversation_id refl in
      let role = field_text_iff (codes "chat_role") md.chat_role refl in
      let key = field_text_iff (codes "dedup_key") md.dedup_key refl in
      let scope = field_scope_iff md.scope in
      (
        λ r. record {
          schema_version = version.0 r.schema_version;
          kind = kind.0 r.kind;
          conversation_id = conversation.0 r.conversation_id;
          chat_role = role.0 r.chat_role;
          dedup_key = key.0 r.dedup_key;
          scope = scope.0 r.scope;
        },
        λ w. record {
          schema_version = version.1 w.schema_version;
          kind = kind.1 w.kind;
          conversation_id = conversation.1 w.conversation_id;
          chat_role = role.1 w.chat_role;
          dedup_key = key.1 w.dedup_key;
          scope = scope.1 w.scope;
        },
      )

parse_digits_below :
    (value : ℕ) (s : Text) (n : ℕ) → value < 256 → parse_digits value s ≡ some n → n < 256
unfolding parse_digits
parse_digits_below value [] n h e = ground arith
parse_digits_below value (c ∷ s) n h e =
    ground (arith, parse_digits_below (value * 10 + (c - b'0')) s n)

parse_u8_below : (s : Text) (n : ℕ) → parse_u8 s ≡ some n → n < 256
unfolding parse_u8
parse_u8_below [] n e = cc
parse_u8_below (c ∷ s) n e =
    ground (arith, parse_digits_below 0 s n, parse_digits_below 0 (c ∷ s) n)

bind_below : (o : Option Text) (n : ℕ) → bind o parse_u8 ≡ some n → n < 256
unfolding bind
bind_below none n e = cc
bind_below (some s) n e = parse_u8_below s n e

decoded_iff :
    (o : Option FrameMetadata) (message : Text) (md : FrameMetadata)
    → (decoded o message ≡ ok md) ↔ (o ≡ some md)
decoded_iff none message md = (λ e. cc, λ e. cc)
decoded_iff (some md') message md = (λ e. cc, λ e. cc)

decoded_either :
    (o : Option FrameMetadata) (message : Text)
    → ((md : FrameMetadata) × (decoded o message ≡ ok md))
      ⊎ (decoded o message ≡ err (PolicyError.invalid_metadata message))
decoded_either none message = inr refl
decoded_either (some md) message = inl (md, refl)

given :
    (d : Serde) (obj : List (Text × Value))
    → IsDerived d
    → (md : FrameMetadata) → md.schema_version < 256
    → Reads md obj
    → d.from_value obj ≡ some md
given d obj derived md below r =
    derived md obj below r.schema_version r.kind r.conversation_id r.chat_role r.dedup_key r.scope

-- Of a map with distinct keys, and with a deserialiser as `IsDerived` and `IsStrict` say: it decodes
-- to `md` exactly if, field by field, it holds what `md` says, the version as a text that
-- `parse::<u8>` reads, and in every other case the answer is the error for invalid metadata.
pub try_from_map_iff :
    (d : Serde) (m : List (Text × Text))
    → IsDerived d
    → IsStrict d
    → IsDistinct (keys m)
    → ((md : FrameMetadata) → (try_from_map d m ≡ ok md) ↔ Written md m)
      × (((md : FrameMetadata) × (try_from_map d m ≡ ok md))
          ⊎ ((message : Text) × (try_from_map d m ≡ err (PolicyError.invalid_metadata message))))
unfolding try_from_map
try_from_map_iff d m derived strict distinct =
    let obj = json_object m [] in
    (
      λ md. Iff.trans (decoded_iff (d.from_value obj) (d.message obj) md) (
        λ e. (Reads-Written m distinct md).0 (strict md obj e),
        λ w.
            given d obj derived md (bind_below _ _ w.schema_version)
              ((Reads-Written m distinct md).1 w),
      ),
      either (decoded_either (d.from_value obj) (d.message obj)),
    )
  where
    either :
        {A : Type 0} {r : Result A} {message : Text}
        → ((md : A) × (r ≡ ok md)) ⊎ (r ≡ err (PolicyError.invalid_metadata message))
        → ((md : A) × (r ≡ ok md))
          ⊎ ((message : Text) × (r ≡ err (PolicyError.invalid_metadata message)))
    either (inl h) = inl h
    either (inr e) = inr (_, e)
