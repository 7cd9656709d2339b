-- ===== src/Metadata/Lookup.antt =====
-- What the object that the loop of `try_from_map` makes of a map holds under each key.
use mathlib.Core.Path.{subst}
use rig_memory_policy.Prelude.{
  true, false, List, [], ◌∷◌, map, ◌≡◌, refl, ap, ◌∙◌, arith, Option, none, some, Ordering,
  if◌then◌else◌, Bool-cases, inl, inr,
}
use rig_memory_policy.Text.{Text, text_eq, text_eq_iff}
use rig_memory_policy.Text.Order.{compare_text, compare_text-eq}
use rig_memory_policy.HashSet.{member, IsDistinct}
use rig_memory_policy.Metadata.Map.{insert, Value, json_value, json_object}
use rig_memory_policy.Metadata.RoundTrip.{field}

compare_text_self : (s : Text) → compare_text s s ≡ Ordering.eq
unfolding compare_text
compare_text_self [] = refl
compare_text_self (c ∷ s) = ground (arith, compare_text_self s)

insert_by :
    (j k : Text) (v : Value) (l : Text) (w : Value) (obj rest : List (Text × Value)) (o : Ordering)
    → field j rest ≡ (if text_eq k j then some v else field j obj)
    → compare_text k l ≡ o
    → field j (elim o [
      | Ordering.lt ↦ (k, v) ∷ (l, w) ∷ obj
      | Ordering.eq ↦ (k, v) ∷ obj
      | Ordering.gt ↦ (l, w) ∷ rest
    ])
      ≡ (if text_eq k j then some v else field j ((l, w) ∷ obj))
insert_by j k v l w obj rest Ordering.lt ih e = refl
insert_by j k v l w obj rest Ordering.eq ih e = ground (arith, compare_text-eq k l e)
insert_by j k v l w obj rest Ordering.gt ih e =
    ground (arith, compare_text_self k, text_eq_iff k j, text_eq_iff l j)

-- What is found after an insertion.
field-insert :
    (j k : Text) (v : Value) (obj : List (Text × Value))
    → field j (insert k v obj) ≡ (if text_eq k j then some v else field j obj)
unfolding insert
field-insert j k v [] = refl
field-insert j k v ((l, w) ∷ obj) =
    insert_by j k v l w obj (insert k v obj) (compare_text k l) (field-insert j k v obj) refl

-- `get` on the map.
abbrev pub text_at : Text → List (Text × Text) → Option Text
text_at k [] = none
text_at k (entry ∷ m) = if text_eq entry.0 k then some entry.1 else text_at k m

abbrev pub keys : List (Text × Text) → List Text
keys = map (λ entry. entry.0)

text_at-none : (k : Text) (m : List (Text × Text)) → member k (keys m) ≡ false → text_at k m ≡ none
unfolding member
text_at-none k [] h = refl
text_at-none k ((l, v) ∷ m) h = ground (arith, text_at-none k m)

abbrev pub or_else : Text → Option Text → Option Value → Option Value
or_else j (some v) o = some (json_value j v)
or_else j none o = o

first_wins :
    (j k v : Text) (m : List (Text × Text)) (obj : List (Text × Value))
    → (text_eq k j ≡ true → k ≡ j)
    → text_at k m ≡ none
    → field j (insert k (json_value k v) obj)
      ≡ (if text_eq k j then some (json_value k v) else field j obj)
    → or_else j (text_at j m) (field j (insert k (json_value k v) obj))
      ≡ or_else j (text_at j ((k, v) ∷ m)) (field j obj)
first_wins j k v m obj same other found = elim (Bool-cases (text_eq k j)) [
  | inl h ↦
      let none_here = subst (λ l. text_at l m ≡ none) (same h) other in
      rw (found, h, none_here) (ap (λ l. some (json_value l v)) (same h))
  | inr h ↦ rw (h, found) (rw h refl)
]

field-json_object :
    (j : Text) (m : List (Text × Text)) (obj : List (Text × Value))
    → IsDistinct (keys m)
    → field j (json_object m obj) ≡ or_else j (text_at j m) (field j obj)
unfolding json_object
field-json_object j [] obj d = refl
field-json_object j ((k, v) ∷ m) obj (new, d) =
    let rest = field-json_object j m (insert k (json_value k v) obj) d in
    rest
    ∙ first_wins j k v m obj (text_eq_iff k j).0 (text_at-none k m new)
        (field-insert j k (json_value k v) obj)

pub field-map :
    (k : Text) (m : List (Text × Text))
    → IsDistinct (keys m)
    → field k (json_object m []) ≡ or_else k (text_at k m) none
field-map k m d = field-json_object k m [] d
