-- ===== src/Fusion.antt =====
-- src/fusion.rs: reciprocal rank fusion of ranked lists.
pub mod Table
pub mod Ranking
pub mod Scores
use rig_memory_policy.Prelude.{
  ℕ, suc, compare, Bool, true, false, List, [], ◌∷◌, ◌++◌, map, Option, none, some, Ordering,
  length, get_elem?, set, unwrap_or, if◌then◌else◌,
}
use rig_memory_policy.Sort.{sort_by, then_with}
use rig_memory_policy.Floats.{Floats}

-- What the items are asked for: `Eq`, which agrees with equality.
pub record Equality (T : Type 0) : Type 0 where
  pub eq : T → T → Bool

-- `RRF_DEFAULT_K`.
abbrev pub rrf_default_k : (f : Floats) → f.Double
rrf_default_k f = f.of_u64 60

-- The three variables of the loop: `index` is a map, kept as the list of its entries.
pub record Fusion (f : Floats) (T : Type 0) : Type 0 where
  pub order : List T
  pub index : List (T × ℕ)
  pub scores : List f.Double

module _ (f : Floats) {T : Type 0} (q : Equality T) where
  -- `index.get(item)`.
  abbrev pub lookup : T → List (T × ℕ) → Option ℕ
  lookup item [] = none
  lookup item (entry ∷ index) = if q.eq entry.0 item then some entry.1 else lookup item index

  abbrev pub contribution : f.Double → ℕ → f.Double
  contribution k rank = f.div f.unit (f.add k (f.of_u64 rank))

  -- `if let Some(score) = scores.get_mut(slot) { *score += contribution }`.
  abbrev pub raise : List f.Double → ℕ → f.Double → List f.Double
  raise scores slot c = elim (get_elem? scores slot) [
    | none ↦ scores
    | some score ↦ set scores slot (f.add score c)
  ]

  -- The body of the inner loop.
  unfoldable pub see_item : f.Double → Fusion f T → T → Fusion f T
  see_item c s item = elim (lookup item s.index) [
    | some slot ↦ record s { scores = raise s.scores slot c }
    | none ↦ record {
      order = s.order ++ item ∷ [];
      index = (item, length s.order) ∷ s.index;
      scores = s.scores ++ c ∷ [];
    }
  ]

  -- The two loops, the inner one from a rank on.
  unfoldable pub see_list : f.Double → ℕ → Fusion f T → List T → Fusion f T
  see_list k rank s [] = s
  see_list k rank s (item ∷ items) =
      see_list k (suc rank) (see_item (contribution k rank) s item) items

  unfoldable pub see_lists : f.Double → Fusion f T → List (List T) → Fusion f T
  see_lists k s [] = s
  see_lists k s (items ∷ lists) = see_lists k (see_list k 0 s items) lists

  -- `order.into_iter().enumerate().map(…)`, from a slot on.
  unfoldable pub slots : ℕ → List T → List f.Double → List (ℕ × (T × f.Double))
  slots slot [] scores = []
  slots slot (item ∷ order) scores =
      (slot, (item, unwrap_or (get_elem? scores slot) f.null)) ∷ slots (suc slot) order scores

  -- The comparison of the sort: descending by score, then by slot.
  abbrev pub by_score : ℕ × (T × f.Double) → ℕ × (T × f.Double) → Ordering
  by_score a b = then_with (f.total_cmp b.1.1 a.1.1) (compare a.0 b.0)

  unfoldable pub reciprocal_rank_fusion : List (List T) → f.Double → List (T × f.Double)
  reciprocal_rank_fusion lists given =
      let k = if f.exceeds_zero given then given else f.epsilon in
      let s = see_lists k (record { order = []; index = []; scores = [] }) lists in
      map (λ fused. fused.1) (sort_by by_score (slots 0 s.order s.scores))
