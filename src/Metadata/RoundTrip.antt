-- ===== src/Metadata/RoundTrip.antt =====
-- `try_from_map` reads back what `into_map` wrote.
use mathlib.Core.Path.{subst}
use rig_memory_policy.Prelude.{
  Bool-cases, ℕ, zero, suc, ◌<◌, Bool, true, false, List, [], ◌∷◌, ◌≡◌, refl, sym, ap, arith,
  Option, none, some, ◌==◌, ==_iff, if◌then◌else◌, Option-cases, inl, inr,
}
use rig_memory_policy.Text.{Text, codes, text_eq}
use rig_memory_policy.Text.Order.{compare_text}
use rig_memory_policy.Errors.{ok}
use rig_memory_policy.Metadata.{FrameMetadata, kind_as_str}
use rig_memory_policy.Metadata.Map.{
  insert, to_string, parse_u8, into_map, Value, Serde, json_value, json_object, try_from_map,
}

-- The value of a field of an object.
abbrev pub field : Text → List (Text × Value) → Option Value
field k [] = none
field k (entry ∷ obj) = if text_eq entry.0 k then some entry.1 else field k obj

abbrev pub scope_value : Option Text → Option Value
scope_value none = none
scope_value (some scope) = some (Value.string scope)

-- The derived deserialiser takes each field by its name: the version as a number, the kind by its
-- name in snake case, the others as texts, and a scope that is missing as `None`.
abbrev pub IsDerived : Serde → Type 0
IsDerived d =
    (md : FrameMetadata) (obj : List (Text × Value))
    → md.schema_version < 256
    → field (codes "schema_version") obj ≡ some (Value.number md.schema_version)
    → field (codes "kind") obj ≡ some (Value.string (kind_as_str md.kind))
    → field (codes "conversation_id") obj ≡ some (Value.string md.conversation_id)
    → field (codes "chat_role") obj ≡ some (Value.string md.chat_role)
    → field (codes "dedup_key") obj ≡ some (Value.string md.dedup_key)
    → field (codes "scope") obj ≡ scope_value md.scope
    → d.from_value obj ≡ some md

-- Whether the decimal text of each number below a bound is read back, decided by evaluation.
read_back : ℕ → Bool
read_back zero = true
read_back (suc n) = elim (parse_u8 (to_string n)) [
  | none ↦ false
  | some m ↦ if m == n then read_back n else false
]

every_u8 : read_back 256 ≡ true
unfolding read_back parse_u8 to_string
every_u8 = refl

false_ne_true : false ≡ true → ⊥
false_ne_true e = cc

below : (n bound : ℕ) → n < suc bound → (n == bound) ≡ false → n < bound
below n bound h q = ground arith

read_back-suc :
    (o : Option ℕ) (n : ℕ) (rest : Bool)
    → (elim o [ none ↦ false | some m ↦ if m == n then rest else false ]) ≡ true
    → (o ≡ some n) × (rest ≡ true)
read_back-suc none n rest e = cc
read_back-suc (some m) n rest e = elim (Bool-cases (m == n)) [
  | inl q ↦ (ap some ((==_iff m n).0 q), rw q at e)
  | inr q ↦ absurd (false_ne_true (rw q at e))
]

read_back-below :
    (n bound : ℕ) → read_back bound ≡ true → n < bound → parse_u8 (to_string n) ≡ some n
unfolding read_back
read_back-below n zero e h = absurd (omega arith)
read_back-below n (suc bound) e h =
    let (last, rest) = read_back-suc (parse_u8 (to_string bound)) bound (read_back bound) e in
    elim (Bool-cases (n == bound)) [
      | inl q ↦ subst (λ k. parse_u8 (to_string k) ≡ some k) (sym ((==_iff n bound).0 q)) last
      | inr q ↦ read_back-below n bound rest (below n bound h q)
    ]

pub json_value-string :
    (k v : Text) → text_eq k (codes "schema_version") ≡ false → json_value k v ≡ Value.string v
unfolding json_value
json_value-string k v h = elim (Option-cases (parse_u8 v)) [
  | inl e ↦ rw (json_value, e) refl
  | inr (n, e) ↦ rw (json_value, e, h) refl
]

pub json_value-number :
    (n : ℕ) → n < 256 → json_value (codes "schema_version") (to_string n) ≡ Value.number n
unfolding text_eq json_value
json_value-number n h = rw (json_value, read_back-below n 256 every_u8 h) refl

-- The object that the loop makes of the map, with its entries in the order of their keys.
abbrev object_of : FrameMetadata → List (Text × Value)
object_of md =
    (codes "chat_role", Value.string md.chat_role)
    ∷ (codes "conversation_id", Value.string md.conversation_id)
    ∷ (codes "dedup_key", Value.string md.dedup_key)
    ∷ (codes "kind", Value.string (kind_as_str md.kind))
    ∷ (codes "schema_version", Value.number md.schema_version)
    ∷ (elim md.scope [ none ↦ [] | some scope ↦ (codes "scope", Value.string scope) ∷ [] ])

entry-congr :
    (k : Text) {v w : Value} {xs ys : List (Text × Value)}
    → v ≡ w
    → xs ≡ ys
    → (k, v) ∷ xs ≡ (k, w) ∷ ys
entry-congr k e es = λ i. (k, e i) ∷ es i

json_object-into_map :
    (md : FrameMetadata) → md.schema_version < 256 → json_object (into_map md) [] ≡ object_of md
unfolding json_object into_map insert compare_text text_eq
json_object-into_map md h = elim (Option-cases md.scope) [
  | inl e ↦ rw e (fields refl)
  | inr (scope, e) ↦
      rw e
        (fields (entry-congr (codes "scope") (json_value-string (codes "scope") scope refl) refl))
]
  where
    fields :
        {xs ys : List (Text × Value)}
        → xs ≡ ys
        → (codes "chat_role", json_value (codes "chat_role") md.chat_role)
            ∷ (codes "conversation_id", json_value (codes "conversation_id") md.conversation_id)
            ∷ (codes "dedup_key", json_value (codes "dedup_key") md.dedup_key)
            ∷ (codes "kind", json_value (codes "kind") (kind_as_str md.kind))
            ∷ (
              codes "schema_version",
              json_value (codes "schema_version") (to_string md.schema_version),
            )
            ∷ xs
          ≡ (codes "chat_role", Value.string md.chat_role)
            ∷ (codes "conversation_id", Value.string md.conversation_id)
            ∷ (codes "dedup_key", Value.string md.dedup_key)
            ∷ (codes "kind", Value.string (kind_as_str md.kind))
            ∷ (codes "schema_version", Value.number md.schema_version)
            ∷ ys
    fields e =
        entry-congr (codes "chat_role") (json_value-string (codes "chat_role") md.chat_role refl) (
          entry-congr (codes "conversation_id")
            (json_value-string (codes "conversation_id") md.conversation_id refl)
            (entry-congr (codes "dedup_key")
              (json_value-string (codes "dedup_key") md.dedup_key refl)
              (entry-congr (codes "kind")
                (json_value-string (codes "kind") (kind_as_str md.kind) refl)
                (entry-congr (codes "schema_version") (json_value-number md.schema_version h) e))))

object_of-scope : (md : FrameMetadata) → field (codes "scope") (object_of md) ≡ scope_value md.scope
unfolding text_eq
object_of-scope md = elim (Option-cases md.scope) [ inl e ↦ rw e refl | inr (scope, e) ↦ rw e refl ]

-- If the version is below 256, as every `u8` is, and the deserialiser is as `IsDerived` says,
-- `try_from_map` gives back what `into_map` was given.
pub try_from_map-into_map :
    (d : Serde) (md : FrameMetadata)
    → IsDerived d
    → md.schema_version < 256
    → try_from_map d (into_map md) ≡ ok md
unfolding try_from_map text_eq
try_from_map-into_map d md derived h =
    rw
      (
        json_object-into_map md h,
        derived md (object_of md) h refl refl refl refl refl (object_of-scope md),
      )
      refl
