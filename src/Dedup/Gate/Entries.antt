-- ===== src/Dedup/Gate/Entries.antt =====
-- Every key gets past the gate, in whatever order the callers' calls come.
use rig_memory_policy.Prelude.{
  Bool, true, false, ◌&&◌, ◌||◌, List, [], ◌∷◌, ◌++◌, ◌≡◌, ◌⊎◌, inl, inr, refl, sym, ap, ◌∙◌, arith,
  any, any-append, All, All-map,
}
use rig_memory_policy.Text.{text_eq, text_eq_iff}
use rig_memory_policy.Errors.{ok}
use rig_memory_policy.HashSet.{member}
use rig_memory_policy.Dedup.Hex.{DedupKey}
use rig_memory_policy.Dedup.Seen.{DedupSet, contains, new}
use rig_memory_policy.Dedup.Seen.Laws.{insert_answers, contains-insert_ok}
use rig_memory_policy.Dedup.Gate.{
  Caller, Phase, World, Reach, act, moved, pick, here, later, start, is_done, is_entered,
  has_entered,
}
use rig_memory_policy.Dedup.Gate.Races.{contains-act}

-- A caller is refused only with a key that the set contains, and no call fails.
abbrev pub IsJustified : DedupSet → DedupKey → Phase → Type 0
IsJustified set key Phase.refused = contains set key ≡ ok true
IsJustified set key (Phase.failed _) = ⊥
IsJustified set key _ = Unit

abbrev pub IsDone : Caller → Type 0
IsDone a = is_done a.phase ≡ true

abbrev pub Justified : DedupSet → Caller → Type 0
Justified set a = IsJustified set a.key a.phase

-- The set contains exactly the keys of the callers that have entered.
pub record IsConsistent (keys : List DedupKey) (w : World) : Type 0 where
  pub entries : (k : DedupKey) → contains w.set k ≡ ok (any (has_entered k) w.callers)
  pub justified : All (Justified w.set) w.callers
  pub listed : (k : DedupKey) → any (λ a. text_eq a.key k) w.callers ≡ any (λ j. text_eq j k) keys

All-replace {ℓ} :
    {A : Type ℓ} (P : A → Type 0) (before : List A) (a b : A) (after : List A)
    → P b
    → All P (before ++ a ∷ after)
    → All P (before ++ b ∷ after)
All-replace P [] a b after p (_, h) = (p, h)
All-replace P (x ∷ before) a b after p (px, h) = (px, All-replace P before a b after p h)

All-at {ℓ} :
    {A : Type ℓ} (P : A → Type 0) (before : List A) (a : A) (after : List A)
    → All P (before ++ a ∷ after)
    → P a
All-at P [] a after (p, _) = p
All-at P (x ∷ before) a after (_, h) = All-at P before a after h

IsJustified-grows :
    (set : DedupSet) (key : DedupKey) (phase : Phase) (a : Caller)
    → IsJustified set a.key a.phase
    → IsJustified (act set key phase).0 a.key a.phase
IsJustified-grows set key phase a = kept a.key a.phase
  where
    kept : (j : DedupKey) (q : Phase) → IsJustified set j q → IsJustified (act set key phase).0 j q
    kept j Phase.refused h = contains-act set key phase j h
    kept j (Phase.failed e) h = h
    kept j _ h = tt

IsJustified-act :
    (set : DedupSet) (key : DedupKey) (phase : Phase) (known : Bool)
    → contains set key ≡ ok known
    → IsJustified set key phase
    → IsJustified (act set key phase).0 key (act set key phase).1
unfolding act
IsJustified-act set key Phase.waiting true e h = rw e e
IsJustified-act set key Phase.waiting false e h = rw e tt
IsJustified-act set key Phase.cleared known e h = rw (insert_answers set key known e) tt
IsJustified-act set key _ known e h = h

contains-act-entered :
    (set : DedupSet) (key : DedupKey) (phase : Phase) (k : DedupKey) (known others : Bool)
    → contains set key ≡ ok known
    → contains set k ≡ ok ((text_eq key k && is_entered phase) || others)
    → contains (act set key phase).0 k
      ≡ ok ((text_eq key k && is_entered (act set key phase).1) || others)
unfolding act
contains-act-entered set key Phase.waiting k true others e h = rw e h
contains-act-entered set key Phase.waiting k false others e h = rw e h
contains-act-entered set key Phase.cleared k known others e h =
    rw (insert_answers set key known e, contains-insert_ok set key k known e, h) (ground arith)
contains-act-entered set key _ k known others e h = h

-- What a caller adds to a test on all of them, wherever it stands.
any-middle :
    (p : Caller → Bool) (before : List Caller) (a : Caller) (after : List Caller)
    → any p (before ++ a ∷ after) ≡ (p a || (any p before || any p after))
any-middle p before a after = ground (arith, any-append p before (a ∷ after))

moved-IsConsistent :
    (keys : List DedupKey) (set : DedupSet) (before : List Caller) (a : Caller)
    (after : List Caller)
    → IsConsistent keys (record { set = set; callers = before ++ a ∷ after })
    → IsConsistent keys (moved set before a after)
moved-IsConsistent keys set before a after i =
    let next = act set a.key a.phase in
    let b : Caller = record a { phase = next.1 } in
    let own = i.entries a.key in
    record {
      entries = λ k. rw (any-middle (has_entered k) before b after) (
          contains-act-entered set a.key a.phase k _ _ own
            (rw (any-middle (has_entered k) before a after) at (i.entries k)));
      justified =
          All-replace (Justified next.0) before a b after
            (IsJustified-act set a.key a.phase _ own
              (All-at (Justified set) before a after i.justified))
            (All-map (Justified set) (Justified next.0) (IsJustified-grows set a.key a.phase) _
              i.justified);
      listed = λ k.
          any-middle (λ c. text_eq c.key k) before b after
          ∙ sym (any-middle (λ c. text_eq c.key k) before a after)
          ∙ i.listed k;
    }

pub start-IsConsistent : (keys : List DedupKey) → IsConsistent keys (start keys)
unfolding start new contains member
start-IsConsistent keys = record {
  entries = λ k. rw (nobody k keys) refl;
  justified = all_waiting keys;
  listed = λ k. same k keys;
}
  where
    nobody : (k : DedupKey) (js : List DedupKey) → any (has_entered k) (start js).callers ≡ false
    nobody k [] = refl
    nobody k (j ∷ js) = ground (arith, nobody k js)

    all_waiting : (js : List DedupKey) → All (Justified new) (start js).callers
    all_waiting [] = tt
    all_waiting (j ∷ js) = (tt, all_waiting js)

    same :
        (k : DedupKey) (js : List DedupKey)
        → any (λ a. text_eq a.key k) (start js).callers ≡ any (λ j. text_eq j k) js
    same k [] = refl
    same k (j ∷ js) = ap (λ b. text_eq j k || b) (same k js)

pub Reach-IsConsistent :
    (keys : List DedupKey) {w v : World} → Reach w v → IsConsistent keys w → IsConsistent keys v
Reach-IsConsistent keys here i = i
Reach-IsConsistent keys {w} (later {v = v} r (pick before a after e _)) i =
    moved-IsConsistent keys v.set before a after (rw e at (Reach-IsConsistent keys r i))

-- A caller that is done has entered, or its key was there.
done_entered :
    (set : DedupSet) (key k : DedupKey) (phase : Phase) (known : Bool)
    → contains set k ≡ ok known
    → IsJustified set key phase
    → is_done phase ≡ true
    → text_eq key k ≡ true
    → (known ≡ true) ⊎ (is_entered phase ≡ true)
done_entered set key k Phase.waiting known e j d same = cc
done_entered set key k Phase.cleared known e j d same = cc
done_entered set key k Phase.refused known e j d same =
    let there : ok known ≡ ok true = rw (← e, ← (text_eq_iff key k).0 same) j in inl cc
done_entered set key k Phase.entered known e j d same = inr refl
done_entered set key k (Phase.failed _) known e j d same = absurd j

listed_entered :
    (set : DedupSet) (k : DedupKey) (known : Bool) (callers : List Caller)
    → contains set k ≡ ok known
    → All (Justified set) callers
    → All IsDone callers
    → any (λ a. text_eq a.key k) callers ≡ true
    → (known ≡ true) ⊎ (any (has_entered k) callers ≡ true)
listed_entered set k known [] e _ _ h = cc
listed_entered set k known (a ∷ callers) e (j, js) (d, ds) h = ground (
  arith,
  done_entered set a.key k a.phase known e j d,
  listed_entered set k known callers e js ds,
)

entered_listed :
    (k : DedupKey) (callers : List Caller)
    → any (has_entered k) callers ≡ true
    → any (λ a. text_eq a.key k) callers ≡ true
entered_listed k [] h = h
entered_listed k (a ∷ callers) h = ground (arith, entered_listed k callers)

-- If callers with the given keys share an empty set, then in whatever order their calls come, once all
-- are done, a key is that of a caller that has entered exactly if it is one of the given keys.
pub has_entered-Reach :
    (keys : List DedupKey) (w : World) (k : DedupKey)
    → Reach (start keys) w
    → All IsDone w.callers
    → any (has_entered k) w.callers ≡ any (λ j. text_eq j k) keys
has_entered-Reach keys w k r done =
    let i = Reach-IsConsistent keys r (start-IsConsistent keys) in
    ground (
      arith,
      i.listed k,
      entered_listed k w.callers,
      listed_entered w.set k _ w.callers (i.entries k) i.justified done,
    )
