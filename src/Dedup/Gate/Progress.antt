-- ===== src/Dedup/Gate/Progress.antt =====
-- How the callers come to an end, from wherever they stand.
use rig_memory_policy.Prelude.{
  ℕ, suc, ◌+◌, ◌≤◌, ◌<◌, true, false, List, [], ◌∷◌, ◌++◌, ◌≡◌, ◌⊎◌, inl, inr, refl, arith, All,
  any, zero, Bool-cases,
}
use rig_memory_policy.Text.{text_eq}
use rig_memory_policy.Errors.{ok, err, Result}
use rig_memory_policy.Prelude.{Bool}
use rig_memory_policy.Dedup.Hex.{DedupKey}
use rig_memory_policy.Dedup.Seen.{DedupSet, contains, insert}
use rig_memory_policy.Dedup.Gate.{
  Caller, Phase, World, Step, Reach, act, moved, pick, here, later, start, is_done, has_entered,
  after_contains, after_insert,
}
use rig_memory_policy.Dedup.Gate.Entries.{IsDone, has_entered-Reach}

-- How many calls a caller may still make.
abbrev left : Phase → ℕ
left Phase.waiting = 2
left Phase.cleared = 1
left _ = 0

abbrev todo : List Caller → ℕ
todo [] = 0
todo (a ∷ callers) = left a.phase + todo callers

left-after_contains : (r : Result Bool) → left (after_contains r) < 2
left-after_contains (ok true) = omega arith
left-after_contains (ok false) = omega arith
left-after_contains (err e) = omega arith

left-after_insert : (r : Result (Unit {0})) → left (after_insert r) < 1
left-after_insert (ok _) = omega arith
left-after_insert (err e) = omega arith

left-act :
    (set : DedupSet) (key : DedupKey) (phase : Phase)
    → is_done phase ≡ false
    → left (act set key phase).1 < left phase
unfolding act
left-act set key Phase.waiting h = left-after_contains (contains set key)
left-act set key Phase.cleared h = left-after_insert (insert set key).1
left-act set key Phase.refused h = cc
left-act set key Phase.entered h = cc
left-act set key (Phase.failed _) h = cc

todo-middle :
    (before : List Caller) (a : Caller) (after : List Caller)
    → todo (before ++ a ∷ after) ≡ left a.phase + (todo before + todo after)
todo-middle [] a after = omega arith
todo-middle (b ∷ before) a after = omega (arith, todo-middle before a after)

todo-Step : {w v : World} → Step w v → todo v.callers < todo w.callers
todo-Step {w} (pick before a after e unfinished) =
    rw (e, todo-middle before a after, todo-middle before _ after)
      (omega (arith, left-act w.set a.key a.phase unfinished))

-- Some caller is not done, between the others.
abbrev Open : List Caller → Type 0
Open callers =
    (before : List Caller) × (a : Caller) × (after : List Caller) × (callers ≡ before ++ a ∷ after)
    × (is_done a.phase ≡ false)

callers_cases : (callers : List Caller) → All IsDone callers ⊎ Open callers
callers_cases [] = inl tt
callers_cases (a ∷ callers) = elim (Bool-cases (is_done a.phase)) [
  | inr e ↦ inr ([], a, callers, refl, e)
  | inl e ↦ elim (callers_cases callers) [
    | inl ds ↦ inl (e, ds)
    | inr (before, b, after, same, o) ↦ inr (a ∷ before, b, after, rw same refl, o)
  ]
]

first_step : {w u v : World} → Step w u → Reach u v → Reach w v
first_step s here = later here s
first_step s (later r t) = later (first_step s r) t

left_cases : (phase : Phase) → left phase ≤ 0 → is_done phase ≡ true
left_cases Phase.waiting h = absurd (omega (arith, h))
left_cases Phase.cleared h = absurd (omega (arith, h))
left_cases _ h = refl

none_left : (callers : List Caller) → todo callers ≤ 0 → All IsDone callers
none_left [] h = tt
none_left (a ∷ callers) h =
    (left_cases a.phase (omega (arith, h)), none_left callers (omega (arith, h)))

-- A bound on the calls that are left is enough to let all callers finish.
finish : (n : ℕ) (w : World) → todo w.callers ≤ n → (v : World) × Reach w v × All IsDone v.callers
finish zero w h = (w, here, none_left w.callers h)
finish (suc n) w h = elim (callers_cases w.callers) [
  | inl ds ↦ (w, here, ds)
  | inr (before, a, after, e, o) ↦
      let s : Step w (moved w.set before a after) = pick before a after e o in
      let (v, on, done) = finish n (moved w.set before a after) (omega (arith, todo-Step s)) in
      (v, first_step s on, done)
]

continue : {u w v : World} → Reach u w → Reach w v → Reach u v
continue r here = r
continue r (later t s) = later (continue r t) s

-- At every moment the callers can go on to an end at which all of them are done, and there the keys
-- of those that have entered are exactly the given ones.
pub finish-Reach :
    (keys : List DedupKey) (w : World)
    → Reach (start keys) w
    → (v : World) × Reach w v
      × All IsDone v.callers
      × ((k : DedupKey) → any (has_entered k) v.callers ≡ any (λ j. text_eq j k) keys)
finish-Reach keys w r =
    let (v, on, done) = finish (todo w.callers) w (omega arith) in
    (v, on, done, λ k. has_entered-Reach keys v k (continue r on) done)
