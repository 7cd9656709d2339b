-- ===== src/Fusion/Ranking.antt =====
-- The result of the fusion: the table of all items, in order.
use rig_memory_policy.Prelude.{
  arith, ℕ, zero, suc, true, List, [], ◌∷◌, ◌++◌, ◌≡◌, refl, sym, ap, ◌∙◌, map, some, append_assoc,
  length, get_elem?, if◌then◌else◌, Ordering,
}
use rig_memory_policy.Sort.{sort_by}
use rig_memory_policy.Sort.Ties.{enumerate, sort_by-enumerate}
use rig_memory_policy.Floats.{Floats}
use rig_memory_policy.Fusion.{
  Equality, Fusion, contribution, see_item, see_list, see_lists, slots, reciprocal_rank_fusion,
}
use rig_memory_policy.Fusion.Table.{Table, see, see_ranked, tabulate, Holds, see-Holds, pos}

module _ (f : Floats) {T : Type 0} (q : Equality T) where
  -- Descending by score.
  abbrev pub descending : T × f.Double → T × f.Double → Ordering
  descending a b = f.total_cmp b.1 a.1

  -- `k`, or the tiny value in its place.
  abbrev pub clamped : f.Double → f.Double
  clamped k = if f.exceeds_zero k then k else f.epsilon

  score_at :
      (n : ℕ) (before table : Table f q) (row : T × f.Double)
      → length before ≡ n
      → get_elem? (map (λ r. r.1) (before ++ row ∷ table)) n ≡ some row.1
  score_at n [] table row h = ap (get_elem? (row.1 ∷ map (λ r. r.1) table)) (sym h)
  score_at zero (r ∷ before) table row h = absurd (omega arith)
  score_at (suc n) (r ∷ before) table row h = score_at n before table row (omega arith)

  length-snoc :
      (before : Table f q) (row : T × f.Double) → length (before ++ row ∷ []) ≡ suc (length before)
  length-snoc [] row = refl
  length-snoc (r ∷ before) row = ap suc (length-snoc before row)

  slots-enumerate :
      (n : ℕ) (before table : Table f q)
      → length before ≡ n
      → slots f q n (map (λ r. r.0) table) (map (λ r. r.1) (before ++ table)) ≡ enumerate n table
  unfolding slots enumerate
  slots-enumerate n before [] h = refl
  slots-enumerate n before (row ∷ table) h =
      let rest =
        slots-enumerate (suc n) (before ++ row ∷ []) table (length-snoc before row ∙ ap suc h) in
      rw (score_at n before table row h) (ap (◌∷◌ (n, row)) (rw append_assoc at rest))

  module _ (sound : (a b : T) → q.eq a b ≡ true → a ≡ b) (k : f.Double) where
    see_list-Holds :
        (rank : ℕ) (s : Fusion f T) (table : Table f q) (items : List T)
        → Holds f q s table
        → Holds f q (see_list f q k rank s items) (see_ranked f q k rank table items)
    unfolding see_list see_ranked
    see_list-Holds rank s table [] h = h
    see_list-Holds rank s table (item ∷ items) h =
        let c = contribution f q k rank in
        see_list-Holds (suc rank) (see_item f q c s item) (see f q c table item) items
          (see-Holds f q sound c s table item h)

    see_lists-Holds :
        (s : Fusion f T) (table : Table f q) (lists : List (List T))
        → Holds f q s table
        → Holds f q (see_lists f q k s lists) (tabulate f q k table lists)
    unfolding see_lists tabulate
    see_lists-Holds s table [] h = h
    see_lists-Holds s table (items ∷ lists) h =
        see_lists-Holds (see_list f q k 0 s items) (see_ranked f q k 0 table items) lists
          (see_list-Holds 0 s table items h)

  -- If `eq` says true of equal items only, the fusion is the table of the items in the order in which
  -- they were first seen, each with the sum of its contributions, sorted stably by descending score.
  pub reciprocal_rank_fusion-tabulate :
      (lists : List (List T)) (k : f.Double)
      → ((a b : T) → q.eq a b ≡ true → a ≡ b)
      → reciprocal_rank_fusion f q lists k ≡ sort_by descending (tabulate f q (clamped k) [] lists)
  unfolding reciprocal_rank_fusion pos
  reciprocal_rank_fusion-tabulate lists k sound =
      let table = tabulate f q (clamped k) [] lists in
      let start : Fusion f T = record { order = []; index = []; scores = [] } in
      let h =
        see_lists-Holds sound (clamped k) start [] lists
          (record { order = refl; scores = refl; index = λ item. refl }) in
      rw (h.order, h.scores, slots-enumerate 0 [] table refl) (sort_by-enumerate descending 0 table)
