-- ===== src/Tests/Decoding.antt =====
-- `try_from_map` with the deserialiser written out, which takes nothing but the fields that it needs.
use rig_memory_policy.Prelude.{
  ℕ, ◌≡◌, ◌↔◌, ◌⊎◌, refl, arith, List, [], ◌∷◌, Option, none, some, ◌>>=◌,
}
use rig_memory_policy.Text.{Text, codes, text_eq, text_eq_iff}
use rig_memory_policy.Errors.{PolicyError, ok, err}
use rig_memory_policy.HashSet.{member, IsDistinct}
use rig_memory_policy.Metadata.{FrameMetadata, FrameKind, kind_as_str}
use rig_memory_policy.Metadata.Map.{Value, try_from_map}
use rig_memory_policy.Metadata.RoundTrip.{scope_value}
use rig_memory_policy.Metadata.Lookup.{keys}
use rig_memory_policy.Metadata.Decoding.{IsStrict, Written, try_from_map_iff}
use rig_memory_policy.Tests.Metadata.{
  by_name, by_name-IsDerived, as_number, as_text, as_kind, as_scope,
}

abbrev Built :
    FrameMetadata
    → Option ℕ
    → Option FrameKind
    → Option Text
    → Option Text
    → Option Text
    → Option (Option Text)
    → Type 0
Built md version kind conversation_id chat_role dedup_key scope =
    (version ≡ some md.schema_version)
    × (kind ≡ some md.kind)
    × (conversation_id ≡ some md.conversation_id)
    × (chat_role ≡ some md.chat_role)
    × (dedup_key ≡ some md.dedup_key)
    × (scope ≡ some md.scope)

all_given :
    (md : FrameMetadata) (a : Option ℕ) (b : Option FrameKind) (c d e : Option Text)
    (f : Option (Option Text))
    → (a >>= λ version. b >>= λ kind. c >>= λ conversation_id. d >>= λ chat_role. e >>= λ dedup_key.
        f >>= λ scope. some (record {
          schema_version = version;
          kind = kind;
          conversation_id = conversation_id;
          chat_role = chat_role;
          dedup_key = dedup_key;
          scope = scope;
        }))
      ≡ some md
    → Built md a b c d e f
all_given md none b c d e f h = cc
all_given md (some a) none c d e f h = cc
all_given md (some a) (some b) none d e f h = cc
all_given md (some a) (some b) (some c) none e f h = cc
all_given md (some a) (some b) (some c) (some d) none f h = cc
all_given md (some a) (some b) (some c) (some d) (some e) none h = cc
all_given md (some a) (some b) (some c) (some d) (some e) (some f) h = ground arith

number_given : (o : Option Value) (n : ℕ) → as_number o ≡ some n → o ≡ some (Value.number n)
number_given none n e = cc
number_given (some (Value.number m)) n e = cc
number_given (some (Value.string t)) n e = cc

text_given : (o : Option Value) (t : Text) → as_text o ≡ some t → o ≡ some (Value.string t)
text_given none t e = cc
text_given (some (Value.number m)) t e = cc
text_given (some (Value.string s)) t e = cc

scope_given :
    (o : Option Value) (scope : Option Text) → as_scope o ≡ some scope → o ≡ scope_value scope
scope_given none none e = refl
scope_given none (some s) e = cc
scope_given (some (Value.number m)) scope e = cc
scope_given (some (Value.string s)) none e = cc
scope_given (some (Value.string s)) (some t) e = cc

kind_given :
    (o : Option Value) (k : FrameKind)
    → (as_text o >>= as_kind) ≡ some k
    → o ≡ some (Value.string (kind_as_str k))
unfolding kind_as_str
kind_given none k e = cc
kind_given (some (Value.number m)) k e = cc
kind_given (some (Value.string s)) k e =
    ground
      (arith, text_eq_iff s (codes "demoted_message"), text_eq_iff s (codes "compaction_summary"))

by_name-IsStrict : IsStrict by_name
by_name-IsStrict md obj e =
    let (a, b, c, d, k, s) = all_given md _ _ _ _ _ _ e in
    record {
      schema_version = number_given _ _ a;
      kind = kind_given _ _ b;
      conversation_id = text_given _ _ c;
      chat_role = text_given _ _ d;
      dedup_key = text_given _ _ k;
      scope = scope_given _ _ s;
    }

-- The version has a sign, and one key is none of the envelope.
abbrev signed : List (Text × Text)
signed =
    (codes "chat_role", codes "user")
    ∷ (codes "conversation_id", codes "conv-1")
    ∷ (codes "dedup_key", codes "7")
    ∷ (codes "kind", codes "demoted_message")
    ∷ (codes "note", codes "42")
    ∷ (codes "schema_version", codes "+1")
    ∷ []

signed-IsDistinct : IsDistinct (keys signed)
unfolding member text_eq
signed-IsDistinct = (refl, (refl, (refl, (refl, (refl, (refl, tt))))))

try_from_map_iff_example :
    ((md : FrameMetadata) → (try_from_map by_name signed ≡ ok md) ↔ Written md signed)
    × (((md : FrameMetadata) × (try_from_map by_name signed ≡ ok md))
        ⊎ ((message : Text) × (try_from_map by_name signed
              ≡ err (PolicyError.invalid_metadata message))))
try_from_map_iff_example =
    try_from_map_iff by_name signed by_name-IsDerived by_name-IsStrict signed-IsDistinct
