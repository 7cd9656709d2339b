-- ===== src/Dedup/Gate/Calls.antt =====
-- What a run of several callers has cost, and what it leaves in the set.
use rig_memory_policy.Prelude.{
  ℕ, suc, ◌+◌, Bool, true, false, List, [], ◌∷◌, ◌++◌, ◌≡◌, refl, sym, ap, ◌∙◌, arith, length,
  length-append, length-map, All, any, filter, if◌then◌else◌,
}
use rig_memory_policy.Text.{text_eq}
use rig_memory_policy.Errors.{ok}
use rig_memory_policy.Dedup.Hex.{DedupKey}
use rig_memory_policy.Dedup.Seen.{DedupSet, contains}
use rig_memory_policy.Dedup.Seen.Laws.{insert_answers}
use rig_memory_policy.Dedup.Gate.{
  Caller, Phase, World, Reach, act, pick, here, later, start, is_done, is_entered,
}
use rig_memory_policy.Dedup.Gate.Entries.{
  IsDone, Reach-IsConsistent, start-IsConsistent, has_entered-Reach,
}

-- How many calls a run has made.
abbrev pub calls : {w v : World} → Reach w v → ℕ
calls here = 0
calls (later r _) = suc (calls r)

-- How many a caller has made.
abbrev made : Phase → ℕ
made Phase.waiting = 0
made Phase.entered = 2
made _ = 1

abbrev made_by_all : List Caller → ℕ
made_by_all [] = 0
made_by_all (a ∷ callers) = made a.phase + made_by_all callers

made-act :
    (set : DedupSet) (key : DedupKey) (phase : Phase) (known : Bool)
    → contains set key ≡ ok known
    → is_done phase ≡ false
    → made (act set key phase).1 ≡ suc (made phase)
unfolding act
made-act set key Phase.waiting true e h = rw e refl
made-act set key Phase.waiting false e h = rw e refl
made-act set key Phase.cleared known e h = rw (insert_answers set key known e) refl
made-act set key Phase.refused known e h = cc
made-act set key Phase.entered known e h = cc
made-act set key (Phase.failed _) known e h = cc

made-middle :
    (before : List Caller) (a : Caller) (after : List Caller)
    → made_by_all (before ++ a ∷ after) ≡ made a.phase + (made_by_all before + made_by_all after)
made-middle [] a after = omega arith
made-middle (b ∷ before) a after = omega (arith, made-middle before a after)

made-start : (keys : List DedupKey) → made_by_all (start keys).callers ≡ 0
unfolding start
made-start [] = omega arith
made-start (key ∷ keys) = omega (arith, made-start keys)

-- The calls of a run are those that its callers have made.
calls-made :
    (keys : List DedupKey) {w : World} (r : Reach (start keys) w) → calls r ≡ made_by_all w.callers
calls-made keys here = sym (made-start keys)
calls-made keys (later {v = v} r (pick before a after e unfinished)) =
    let known = (Reach-IsConsistent keys r (start-IsConsistent keys)).entries a.key in
    rw (made-middle before _ after) (
      omega (
        arith,
        calls-made keys r,
        ap made_by_all e,
        made-middle before a after,
        made-act v.set a.key a.phase _ known unfinished,
      ))

length-Reach :
    (keys : List DedupKey) {w : World} → Reach (start keys) w → length w.callers ≡ length keys
unfolding start
length-Reach keys here = length-map (λ key. record { key = key; phase = Phase.waiting }) keys
length-Reach keys (later {v = v} r (pick before a after e _)) = omega (
  arith,
  length-Reach keys r,
  ap length e,
  length-append before (a ∷ after),
  length-append before (record a { phase = (act v.set a.key a.phase).1 } ∷ after),
)

made-done :
    (phase : Phase) → is_done phase ≡ true → made phase ≡ 1 + (if is_entered phase then 1 else 0)
made-done Phase.waiting h = cc
made-done Phase.cleared h = cc
made-done Phase.refused h = refl
made-done Phase.entered h = refl
made-done (Phase.failed _) h = refl

made_by_all-done :
    (callers : List Caller)
    → All IsDone callers
    → made_by_all callers ≡ length callers + length (filter (λ a. is_entered a.phase) callers)
unfolding filter
made_by_all-done [] _ = omega arith
made_by_all-done (a ∷ callers) (d, ds) =
    ground (arith, made-done a.phase d, made_by_all-done callers ds)

-- If callers with the given keys share an empty set, then in whatever order their calls come, once all
-- are done, they have made one call for each key and one more for each caller that has entered, and
-- the set contains exactly the given keys.
pub calls-Reach :
    (keys : List DedupKey) (w : World) (r : Reach (start keys) w)
    → All IsDone w.callers
    → (calls r ≡ length keys + length (filter (λ a. is_entered a.phase) w.callers))
      × ((k : DedupKey) → contains w.set k ≡ ok (any (λ j. text_eq j k) keys))
calls-Reach keys w r done = (
  omega (arith, calls-made keys r, made_by_all-done w.callers done, length-Reach keys r),
  λ k.
      (Reach-IsConsistent keys r (start-IsConsistent keys)).entries k
      ∙ ap ok (has_entered-Reach keys w k r done),
)
