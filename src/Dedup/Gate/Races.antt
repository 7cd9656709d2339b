-- ===== src/Dedup/Gate/Races.antt =====
-- How many callers with one key get past the gate together.
use rig_memory_policy.Prelude.{
  ℕ, ◌≤◌, Bool, true, List, ◌∷◌, ◌++◌, ◌≡◌, refl, arith, filter, length, Bool-cases, inl, inr,
}
use rig_memory_policy.Prelude.Filters.{count-append}
use rig_memory_policy.Text.{text_eq, text_eq_iff}
use rig_memory_policy.Errors.{ok}
use rig_memory_policy.Dedup.Hex.{DedupKey}
use rig_memory_policy.Dedup.Seen.{DedupSet, contains}
use rig_memory_policy.Dedup.Seen.Laws.{contains-insert}
use rig_memory_policy.Dedup.Gate.{
  Caller, Phase, World, Step, Reach, act, pick, here, later, is_past, has_passed,
}

abbrev pub count : (Caller → Bool) → List Caller → ℕ
count p callers = length (filter p callers)

pub contains-act :
    (s : DedupSet) (key : DedupKey) (phase : Phase) (k : DedupKey)
    → contains s k ≡ ok true
    → contains (act s key phase).0 k ≡ ok true
unfolding act contains
contains-act s key Phase.cleared k h = ground (arith, contains-insert s key k)
contains-act s key _ k h = h

is_past-act :
    (s : DedupSet) (key : DedupKey) (phase : Phase)
    → contains s key ≡ ok true
    → is_past (act s key phase).1 ≡ true
    → is_past phase ≡ true
unfolding act
is_past-act s key Phase.waiting h = rw h (λ e. e)
is_past-act s key Phase.cleared h = λ _. refl
is_past-act s key _ h = λ e. e

has_passed-act :
    (set : DedupSet) (k : DedupKey) (a : Caller)
    → contains set k ≡ ok true
    → has_passed k (record a { phase = (act set a.key a.phase).1 }) ≡ true
    → has_passed k a ≡ true
has_passed-act set k a h = elim (Bool-cases (text_eq a.key k)) [
  | inl e ↦
      let same : contains set a.key ≡ ok true = rw ((text_eq_iff a.key k).0 e) h in
      rw e (is_past-act set a.key a.phase same)
  | inr e ↦ rw e (λ x. x)
]

count-replace :
    (p : Caller → Bool) (before : List Caller) (a b : Caller) (after : List Caller)
    → (p b ≡ true → p a ≡ true)
    → count p (before ++ b ∷ after) ≤ count p (before ++ a ∷ after)
unfolding filter
count-replace p before a b after h =
    ground (arith, count-append p before (a ∷ after), count-append p before (b ∷ after))

count-Step :
    (k : DedupKey) {w v : World}
    → Step w v
    → contains w.set k ≡ ok true
    → (contains v.set k ≡ ok true)
      × (count (has_passed k) v.callers ≤ count (has_passed k) w.callers)
count-Step k {w} (pick before a after e _) h = (
  contains-act w.set a.key a.phase k h,
  rw e (count-replace (has_passed k) before a _ after (has_passed-act w.set k a h)),
)

count-Reach-from :
    (k : DedupKey) {w v : World}
    → Reach w v
    → contains w.set k ≡ ok true
    → (contains v.set k ≡ ok true)
      × (count (has_passed k) v.callers ≤ count (has_passed k) w.callers)
count-Reach-from k here h = (h, omega arith)
count-Reach-from k (later r s) h =
    let (there, fewer) = count-Reach-from k r h in
    let (there', fewer') = count-Step k s there in (there', omega (arith, fewer, fewer'))

-- Once the set contains a key, no run of calls, in whatever order, raises the number of callers with
-- that key that have entered or are past the test of `contains`.
pub has_passed-Reach :
    (k : DedupKey) (w v : World)
    → Reach w v
    → contains w.set k ≡ ok true
    → count (has_passed k) v.callers ≤ count (has_passed k) w.callers
has_passed-Reach k w v r h = (count-Reach-from k r h).1
