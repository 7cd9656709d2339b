-- ===== src/Tests/Gate.antt =====
-- Runs of the gate over src/dedup.rs: two callers that have the same key.
use rig_memory_policy.Prelude.{
  ◌+◌, ◌≤◌, ◌++◌, replicate, arith, true, false, List, [], ◌∷◌, ◌≡◌, refl, All, any, length, filter,
}
use rig_memory_policy.Text.{Text, text_eq}
use rig_memory_policy.Errors.{ok}
use rig_memory_policy.HashSet.{member, add}
use rig_memory_policy.Dedup.Hex.{DedupKey, IsKey}
use rig_memory_policy.Dedup.Seen.{new, contains, insert, snapshot, extend_from_snapshot}
use rig_memory_policy.Dedup.Gate.{
  Caller, Phase, World, Reach, act, here, later, pick, start, is_entered, has_entered, has_passed,
}
use rig_memory_policy.Dedup.Gate.Entries.{IsDone, has_entered-Reach}
use rig_memory_policy.Dedup.Gate.Races.{count, has_passed-Reach}
use rig_memory_policy.Dedup.Gate.Calls.{calls, calls-Reach}
use rig_memory_policy.Dedup.Gate.Progress.{finish-Reach}
use rig_memory_policy.Dedup.Gate.Turns.{admit_all, first_times}
use rig_memory_policy.Dedup.Gate.Restart.{admitted, admit_all-restarted}

abbrev the_key : DedupKey
the_key = 7 ∷ []

abbrev caller : Phase → Caller
caller phase = record { key = the_key; phase = phase }

abbrev world : List DedupKey → Phase → Phase → World
world seen p q = record {
  set = record { poisoned = false; seen = seen };
  callers = caller p ∷ caller q ∷ [];
}

-- The second caller asks before the first one inserts.
raced : Reach (start (the_key ∷ the_key ∷ [])) (world (the_key ∷ []) Phase.entered Phase.entered)
unfolding start act new contains insert member add text_eq
raced =
    later {v = world (the_key ∷ []) Phase.entered Phase.cleared}
      (later {v = world [] Phase.cleared Phase.cleared}
        (later {v = world [] Phase.cleared Phase.waiting}
          (later here (pick [] (caller Phase.waiting) (caller Phase.waiting ∷ []) refl refl))
          (pick (caller Phase.cleared ∷ []) (caller Phase.waiting) [] refl refl))
        (pick [] (caller Phase.cleared) (caller Phase.cleared ∷ []) refl refl))
      (pick (caller Phase.entered ∷ []) (caller Phase.cleared) [] refl refl)

both_entered :
    count (has_entered the_key) (world (the_key ∷ []) Phase.entered Phase.entered).callers ≡ 2
unfolding filter text_eq
both_entered = refl

-- The second caller asks after the first one has entered.
abbrev late :
    Reach
      (world (the_key ∷ []) Phase.entered Phase.waiting)
      (world (the_key ∷ []) Phase.entered Phase.refused)
unfolding act contains member text_eq
late = later here (pick (caller Phase.entered ∷ []) (caller Phase.waiting) [] refl refl)

has_entered-Reach_example :
    any (has_entered the_key) (world (the_key ∷ []) Phase.entered Phase.entered).callers
    ≡ any (λ j. text_eq j the_key) (the_key ∷ the_key ∷ [])
has_entered-Reach_example =
    has_entered-Reach (the_key ∷ the_key ∷ []) (world (the_key ∷ []) Phase.entered Phase.entered)
      the_key raced (refl, (refl, tt))

the_key-contained :
    contains (world (the_key ∷ []) Phase.entered Phase.waiting).set the_key ≡ ok true
unfolding contains member text_eq
the_key-contained = refl

has_passed-Reach_example :
    count (has_passed the_key) (world (the_key ∷ []) Phase.entered Phase.refused).callers
    ≤ count (has_passed the_key) (world (the_key ∷ []) Phase.entered Phase.waiting).callers
has_passed-Reach_example =
    has_passed-Reach the_key (world (the_key ∷ []) Phase.entered Phase.waiting)
      (world (the_key ∷ []) Phase.entered Phase.refused) late the_key-contained

calls-Reach_example :
    (calls raced
      ≡ length (the_key ∷ the_key ∷ [])
        + length (
            filter
              (λ a. is_entered a.phase)
              (world (the_key ∷ []) Phase.entered Phase.entered).callers))
    × ((k : DedupKey)
        → contains (world (the_key ∷ []) Phase.entered Phase.entered).set k
          ≡ ok (any (λ j. text_eq j k) (the_key ∷ the_key ∷ [])))
calls-Reach_example =
    calls-Reach (the_key ∷ the_key ∷ []) (world (the_key ∷ []) Phase.entered Phase.entered) raced
      (refl, (refl, tt))

abbrev long_key : DedupKey
long_key = replicate 32 7

long_key-IsKey : IsKey long_key
long_key-IsKey = record { size = refl; bytes = omega arith }

admit_all-restarted_example :
    (hexes : List Text) × (snapshot (admitted new (long_key ∷ [])) ≡ ok hexes)
    × (admit_all new (long_key ∷ [])
          ++ admit_all (extend_from_snapshot new hexes).0 (the_key ∷ long_key ∷ [])
        ≡ first_times [] ((long_key ∷ []) ++ the_key ∷ long_key ∷ []))
admit_all-restarted_example =
    admit_all-restarted (long_key ∷ []) (the_key ∷ long_key ∷ []) (long_key-IsKey, tt)

finish-Reach_example :
    (v : World) × Reach (start (the_key ∷ [])) v
    × All IsDone v.callers
    × ((k : DedupKey) → any (has_entered k) v.callers ≡ any (λ j. text_eq j k) (the_key ∷ []))
finish-Reach_example = finish-Reach (the_key ∷ []) (start (the_key ∷ [])) here
