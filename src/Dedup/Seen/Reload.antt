-- ===== src/Dedup/Seen/Reload.antt =====
-- A set that is written out and read back.
use rig_memory_policy.Prelude.{false, List, ◌≡◌, refl, sym, ◌∙◌, arith, Perm}
use rig_memory_policy.Text.{Text}
use rig_memory_policy.Errors.{ok}
use rig_memory_policy.HashSet.{member}
use rig_memory_policy.HashSet.Extensional.{IsDistinct-perm}
use rig_memory_policy.Dedup.Hex.{DedupKey}
use rig_memory_policy.Dedup.Seen.{DedupSet, new, contains, snapshot, extend_from_snapshot}
use rig_memory_policy.Dedup.Seen.Laws.{IsValid, new-IsValid, extend_from_snapshot-IsValid}
use rig_memory_policy.Dedup.Seen.Snapshot.{
  extend_from_snapshot-snapshot, snapshot-eq_of_perm, snapshot-eq_ok,
}

new-extended : (hexes : List Text) → (extend_from_snapshot new hexes).0.poisoned ≡ false
unfolding extend_from_snapshot new
new-extended hexes = refl

member_of_contains :
    (s t : DedupSet) (key : DedupKey)
    → s.poisoned ≡ false
    → t.poisoned ≡ false
    → contains s key ≡ contains t key
    → member key s.seen ≡ member key t.seen
unfolding contains
member_of_contains s t key hs ht e = ground arith

-- A fresh set that replays the snapshot of a valid set holds the keys of that set, each once, and no
-- others, and gives the same snapshot again.
pub snapshot_reloaded :
    (s : DedupSet) (hexes : List Text)
    → IsValid s
    → snapshot s ≡ ok hexes
    → let reloaded = (extend_from_snapshot new hexes).0 in
      Perm reloaded.seen s.seen × (snapshot reloaded ≡ ok hexes)
snapshot_reloaded s hexes v e =
    let reloaded = (extend_from_snapshot new hexes).0 in
    let (sound, _) = snapshot-eq_ok s hexes e in
    let valid = extend_from_snapshot-IsValid new hexes new-IsValid in
    let same : Perm reloaded.seen s.seen =
      IsDistinct-perm reloaded.seen s.seen valid.distinct v.distinct (λ key.
        member_of_contains reloaded s key (new-extended hexes) sound
          (extend_from_snapshot-snapshot s key hexes v e)) in
    (same, snapshot-eq_of_perm reloaded s (new-extended hexes ∙ sym sound) same ∙ e)
