-- ===== src/Dedup/Seen/Snapshot.antt =====
-- Snapshots: what they hold, that they do not depend on the order of iteration, and the way back.
use mathlib.Core.Logic.{∥∥₁_elim}
use mathlib.Core.Bool.{Bool-set}
use mathlib.Core.List.{Permᴰ}
use mathlib.Core.List.Perm
use rig_memory_policy.Prelude.{
  Bool, true, false, ◌||◌, List, [], ◌∷◌, ◌≡◌, refl, sym, ap, ◌∙◌, arith, none, some, if◌then◌else◌,
  All, Option-cases, inl, inr, Perm, map,
}
use rig_memory_policy.Text.{Text, text_eq}
use rig_memory_policy.Text.Order.{compare_text, compare_text-IsTotal, compare_text-eq}
use rig_memory_policy.Sort.{sort_by}
use rig_memory_policy.Sort.Laws.{sort_by-perm}
use rig_memory_policy.Sort.Unique.{sort_by-eq_of_perm}
use rig_memory_policy.Errors.{PolicyError, ok, err}
use rig_memory_policy.HashSet.{member, add, member-add}
use rig_memory_policy.Dedup.Hex.{DedupKey, IsKey, hex_encode, hex_decode}
use rig_memory_policy.Dedup.Hex.RoundTrip.{hex_decode-hex_encode}
use rig_memory_policy.Dedup.Seen.{
  DedupSet, new, contains, snapshot, replay, replay_all, extend_from_snapshot,
}
use rig_memory_policy.Dedup.Seen.Laws.{IsValid}

-- Some text of the list decodes to the key.
abbrev pub listed : DedupKey → List Text → Bool
listed key [] = false
listed key (hex ∷ hexes) = elim (hex_decode hex) [
  | some k ↦ text_eq k key || listed key hexes
  | none ↦ listed key hexes
]

member-replay_all :
    (key : DedupKey) (hexes : List Text) (seen : List DedupKey)
    → member key (replay_all hexes seen) ≡ (listed key hexes || member key seen)
unfolding replay_all replay
member-replay_all key [] seen = refl
member-replay_all key (hex ∷ hexes) seen = elim (Option-cases (hex_decode hex)) [
  | inl e ↦ rw (e, replay, listed) (member-replay_all key hexes seen)
  | inr (k, e) ↦
      rw (e, replay, listed)
        (ground (arith, member-replay_all key hexes (add k seen), member-add k key seen))
]

-- Replaying a snapshot adds the keys that its entries decode to, and skips the malformed ones.
pub contains-extend_from_snapshot :
    (s : DedupSet) (hexes : List Text) (key : DedupKey)
    → contains (extend_from_snapshot s hexes).0 key ≡ (
        if s.poisoned
        then err PolicyError.poisoned
        else if listed key hexes
        then ok true
        else contains s key)
unfolding contains extend_from_snapshot
contains-extend_from_snapshot s hexes key = ground (arith, member-replay_all key hexes s.seen)

-- The snapshot is the same for every order in which the keys are iterated.
pub snapshot-eq_of_perm :
    (s t : DedupSet) → s.poisoned ≡ t.poisoned → Perm s.seen t.seen → snapshot s ≡ snapshot t
unfolding snapshot
snapshot-eq_of_perm s t h p =
    let same =
      sort_by-eq_of_perm compare_text-IsTotal compare_text-eq _ _ (Perm.map hex_encode p) in
    ground (arith, same)

listed_swap :
    (key : DedupKey) (a b : Text) (l : List Text) → listed key (a ∷ b ∷ l) ≡ listed key (b ∷ a ∷ l)
listed_swap key a b l = ground arith

listed_cons :
    (key : DedupKey) (a : Text) (l r : List Text)
    → listed key l ≡ listed key r
    → listed key (a ∷ l) ≡ listed key (a ∷ r)
listed_cons key a l r h = ground arith

listed_permᴰ : (key : DedupKey) {l r : List Text} → Permᴰ l r → listed key l ≡ listed key r
listed_permᴰ key Permᴰ.nil = refl
listed_permᴰ key (Permᴰ.cons {a = a} e p) = rw (← e) (listed_cons key a _ _ (listed_permᴰ key p))
listed_permᴰ key (Permᴰ.swap {a = a} {b = b} {l = l} e e') = rw (← e, ← e') (listed_swap key a b l)
listed_permᴰ key (Permᴰ.trans p q) = listed_permᴰ key p ∙ listed_permᴰ key q

listed_perm :
    (key : DedupKey) (hexes hexes' : List Text)
    → Perm hexes hexes'
    → listed key hexes ≡ listed key hexes'
listed_perm key hexes hexes' p = ∥∥₁_elim p (Bool-set _ _) (listed_permᴰ key)

listed-encoded :
    (key : DedupKey) (seen : List DedupKey)
    → All IsKey seen
    → listed key (map hex_encode seen) ≡ member key seen
unfolding member
listed-encoded key [] _ = refl
listed-encoded key (k ∷ seen) (hk, h) =
    ground (arith, hex_decode-hex_encode k hk, listed-encoded key seen h)

pub snapshot-eq_ok :
    (s : DedupSet) (hexes : List Text)
    → snapshot s ≡ ok hexes
    → (s.poisoned ≡ false) × (sort_by compare_text (map hex_encode s.seen) ≡ hexes)
unfolding snapshot
snapshot-eq_ok s hexes e = ground arith

-- A fresh set that replays the snapshot of a valid set contains what that set contains.
pub extend_from_snapshot-snapshot :
    (s : DedupSet) (key : DedupKey) (hexes : List Text)
    → IsValid s
    → snapshot s ≡ ok hexes
    → contains (extend_from_snapshot new hexes).0 key ≡ contains s key
unfolding contains new member
extend_from_snapshot-snapshot s key hexes v e =
    let (sound, sorted) = snapshot-eq_ok s hexes e in
    let hits =
      ap (listed key) (sym sorted)
      ∙ listed_perm key _ _ (sort_by-perm compare_text (map hex_encode s.seen))
      ∙ listed-encoded key s.seen v.keys in
    ground (arith, contains-extend_from_snapshot new hexes key, hits, sound)
