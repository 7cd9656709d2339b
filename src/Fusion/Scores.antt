-- ===== src/Fusion/Scores.antt =====
-- The score of each item: the sum over the places where the lists have it.
use rig_memory_policy.Prelude.{
  ℕ, suc, Bool, true, false, List, [], ◌∷◌, ◌++◌, ◌≡◌, refl, sym, ap, ◌∙◌, Option, none, some,
  if◌then◌else◌, Bool-cases, inl, inr, Perm,
}
use rig_memory_policy.Sort.Laws.{sort_by-perm}
use rig_memory_policy.Floats.{Floats}
use rig_memory_policy.Fusion.{Equality, contribution, reciprocal_rank_fusion}
use rig_memory_policy.Fusion.Table.{Table, see, see_ranked, tabulate}
use rig_memory_policy.Fusion.Ranking.{descending, clamped, reciprocal_rank_fusion-tabulate}

module _ (f : Floats) {T : Type 0} (q : Equality T) where
  -- The score in the row of an item.
  abbrev pub score_of : T → Table f q → Option f.Double
  score_of item [] = none
  score_of item (row ∷ table) = if q.eq row.0 item then some row.1 else score_of item table

  -- One more contribution, and several from the left.
  abbrev pub plus : Option f.Double → f.Double → Option f.Double
  plus none c = some c
  plus (some score) c = some (f.add score c)

  abbrev pub total : Option f.Double → List f.Double → Option f.Double
  total o [] = o
  total o (c ∷ cs) = total (plus o c) cs

  -- What an item gets from a list, from a rank on, and from all lists.
  abbrev pub from_list : f.Double → T → ℕ → List T → List f.Double
  from_list k item rank [] = []
  from_list k item rank (x ∷ items) =
      if q.eq x item
      then contribution f q k rank ∷ from_list k item (suc rank) items
      else from_list k item (suc rank) items

  abbrev pub from_lists : f.Double → T → List (List T) → List f.Double
  from_lists k item [] = []
  from_lists k item (items ∷ lists) = from_list k item 0 items ++ from_lists k item lists

  total-append :
      (o : Option f.Double) (cs ds : List f.Double) → total o (cs ++ ds) ≡ total (total o cs) ds
  total-append o [] ds = refl
  total-append o (c ∷ cs) ds = total-append (plus o c) cs ds

  module _ (sound : (a b : T) → q.eq a b ≡ true → a ≡ b) where
    score_of-see :
        (c : f.Double) (table : Table f q) (x item : T)
        → score_of item (see f q c table x)
          ≡ (if q.eq x item then plus (score_of item table) c else score_of item table)
    unfolding see
    score_of-see c [] x item = refl
    score_of-see c (row ∷ table) x item = elim (Bool-cases (q.eq row.0 x)) [
      | inl e ↦
          rw e (same_row (q.eq row.0 item) (q.eq x item) (ap (λ a. q.eq a item) (sound row.0 x e)))
      | inr e ↦ rw e (elim (Bool-cases (q.eq row.0 item)) [
        | inl e' ↦ elim (Bool-cases (q.eq x item)) [
          | inl e'' ↦ absurd (true_ne_false (sym e' ∙ ap (q.eq row.0) (sym (sound x item e'')) ∙ e))
          | inr e'' ↦ rw (e', e'') refl
        ]
        | inr e' ↦ rw e' (score_of-see c table x item)
      ])
    ]
      where
        true_ne_false : true ≡ false → ⊥
        true_ne_false h = cc

        same_row :
            (here there : Bool)
            → here ≡ there
            → (if here then some (f.add row.1 c) else score_of item table) ≡ (
                if there
                then plus (if here then some row.1 else score_of item table) c
                else (if here then some row.1 else score_of item table))
        same_row true true h = refl
        same_row false false h = refl
        same_row true false h = cc
        same_row false true h = cc

    score_of-see_ranked :
        (k : f.Double) (rank : ℕ) (table : Table f q) (items : List T) (item : T)
        → score_of item (see_ranked f q k rank table items)
          ≡ total (score_of item table) (from_list k item rank items)
    unfolding see_ranked
    score_of-see_ranked k rank table [] item = refl
    score_of-see_ranked k rank table (x ∷ items) item =
        let c = contribution f q k rank in
        score_of-see_ranked k (suc rank) (see f q c table x) items item
        ∙ elim (Bool-cases (q.eq x item)) [
          | inl e ↦ rw (score_of-see c table x item, e) refl
          | inr e ↦ rw (score_of-see c table x item, e) refl
        ]

    score_of-tabulate :
        (k : f.Double) (table : Table f q) (lists : List (List T)) (item : T)
        → score_of item (tabulate f q k table lists)
          ≡ total (score_of item table) (from_lists k item lists)
    unfolding tabulate
    score_of-tabulate k table [] item = refl
    score_of-tabulate k table (items ∷ lists) item =
        score_of-tabulate k (see_ranked f q k 0 table items) lists item
        ∙ ap (λ o. total o (from_lists k item lists)) (score_of-see_ranked k 0 table items item)
        ∙ sym (
            total-append (score_of item table) (from_list k item 0 items) (from_lists k item lists))

  -- If `eq` says true of equal items only, the result is a rearrangement of a table in which the row
  -- of each item holds the sum, from the left, of what the item gets at each place of the lists; an
  -- item that stands in no list has no row.
  pub reciprocal_rank_fusion-total :
      (lists : List (List T)) (k : f.Double)
      → ((a b : T) → q.eq a b ≡ true → a ≡ b)
      → (table : Table f q) × Perm (reciprocal_rank_fusion f q lists k) table
        × ((item : T) → score_of item table ≡ total none (from_lists (clamped f q k) item lists))
  reciprocal_rank_fusion-total lists k sound =
      let table = tabulate f q (clamped f q k) [] lists in
      (
        table,
        rw (reciprocal_rank_fusion-tabulate f q lists k sound)
            (sort_by-perm (descending f q) table),
        score_of-tabulate sound (clamped f q k) [] lists,
      )
