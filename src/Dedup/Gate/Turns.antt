-- ===== src/Dedup/Gate/Turns.antt =====
-- One caller that passes keys through the gate in turn.
use rig_memory_policy.Prelude.{
  Bool, true, false, not, List, [], ◌∷◌, ◌≡◌, refl, ap, arith, any, if◌then◌else◌, Bool-cases, inl,
  inr,
}
use rig_memory_policy.Text.{text_eq, text_eq_iff}
use rig_memory_policy.Errors.{Result, ok}
use rig_memory_policy.HashSet.{member}
use rig_memory_policy.Dedup.Hex.{DedupKey}
use rig_memory_policy.Dedup.Seen.{DedupSet, new, contains}
use rig_memory_policy.Dedup.Gate.{admit}
use rig_memory_policy.Dedup.Seen.Laws.{contains-insert_ok, insert_answers}

-- The answers for keys that come one after the other.
abbrev pub admit_all : DedupSet → List DedupKey → List (Result Bool)
admit_all s [] = []
admit_all s (key ∷ keys) = (admit s key).1 ∷ admit_all (admit s key).0 keys

-- Which keys are not among those before them.
abbrev pub first_times : List DedupKey → List DedupKey → List (Result Bool)
first_times before [] = []
first_times before (key ∷ keys) =
    ok (not (any (λ j. text_eq j key) before)) ∷ first_times (key ∷ before) keys

admit_cases :
    (s : DedupSet) (key k : DedupKey) (known : Bool)
    → contains s key ≡ ok known
    → ((admit s key).1 ≡ ok (not known))
      × (contains (admit s key).0 k ≡ (if text_eq key k then ok true else contains s k))
unfolding admit
admit_cases s key k true e = rw (e, admit) (refl, unchanged)
  where
    unchanged : contains s k ≡ (if text_eq key k then ok true else contains s k)
    unchanged = elim (Bool-cases (text_eq key k)) [
      | inl same ↦ rw (same, ← (text_eq_iff key k).0 same) e
      | inr apart ↦ rw apart refl
    ]
admit_cases s key k false e =
    rw (e, admit, insert_answers s key false e) (refl, contains-insert_ok s key k false e)

-- The set answers for every key whether it is among those before.
abbrev pub Knows : DedupSet → List DedupKey → Type 0
Knows s before = (k : DedupKey) → contains s k ≡ ok (any (λ j. text_eq j k) before)

pub admit-Knows :
    (s : DedupSet) (before : List DedupKey) (key : DedupKey)
    → Knows s before
    → Knows (admit s key).0 (key ∷ before)
admit-Knows s before key h k = rw ((admit_cases s key k _ (h key)).1, h k) (ground arith)

pub admit_all-first_times :
    (s : DedupSet) (before keys : List DedupKey)
    → Knows s before
    → admit_all s keys ≡ first_times before keys
admit_all-first_times s before [] h = refl
admit_all-first_times s before (key ∷ keys) h =
    let known = any (λ j. text_eq j key) before in
    rw (admit_cases s key key known (h key)).0 (
      ap (λ rest. ok (not known) ∷ rest)
        (admit_all-first_times (admit s key).0 (key ∷ before) keys (admit-Knows s before key h)))

pub new-Knows : Knows new []
unfolding new contains member
new-Knows k = refl
