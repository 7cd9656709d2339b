-- ===== src/Fusion/Table.antt =====
-- The three variables of the loop together are one table: the items in the order in which they were
-- first seen, each with its score.
use mathlib.Core.Path.{subst}
use rig_memory_policy.Prelude.{
  ℕ, suc, Bool, true, false, List, [], ◌∷◌, ◌++◌, ◌≡◌, refl, sym, ap, ◌∙◌, map, Option, none, some,
  length, get_elem?, if◌then◌else◌, Bool-cases, inl, inr, Option-cases, eq_of_some,
}
use rig_memory_policy.Floats.{Floats}
use rig_memory_policy.Fusion.{Equality, Fusion, lookup, contribution, raise, see_item}

abbrev option_suc : Option ℕ → Option ℕ
option_suc none = none
option_suc (some n) = some (suc n)

option_suc-eq_some :
    (o : Option ℕ) (n : ℕ) → option_suc o ≡ some n → (m : ℕ) × (o ≡ some m) × (n ≡ suc m)
option_suc-eq_some none n h = cc
option_suc-eq_some (some m) n h = (m, refl, sym (eq_of_some h))

option_suc-eq_none : (o : Option ℕ) → option_suc o ≡ none → o ≡ none
option_suc-eq_none none h = refl
option_suc-eq_none (some m) h = cc

option_suc-if :
    (b : Bool) (n : ℕ) (o : Option ℕ)
    → (if b then some (suc n) else option_suc o) ≡ option_suc (if b then some n else o)
option_suc-if true n o = refl
option_suc-if false n o = refl

map-append {ℓ κ} :
    {A : Type ℓ} {B : Type κ} (g : A → B) (xs ys : List A) → map g (xs ++ ys) ≡ map g xs ++ map g ys
map-append g [] ys = refl
map-append g (x ∷ xs) ys = ap (◌∷◌ (g x)) (map-append g xs ys)

none_ne_some {ℓ} : {A : Type ℓ} {a : A} → none ≡ some a → ⊥
none_ne_some h = cc

module _ (f : Floats) {T : Type 0} (q : Equality T) where
  abbrev pub Table : Type 0
  Table = List (T × f.Double)

  -- An item that is seen adds to its row, or starts a row at the end.
  unfoldable pub see : f.Double → Table → T → Table
  see c [] item = (item, c) ∷ []
  see c (row ∷ table) item =
      if q.eq row.0 item then (row.0, f.add row.1 c) ∷ table else row ∷ see c table item

  unfoldable pub see_ranked : f.Double → ℕ → Table → List T → Table
  see_ranked k rank table [] = table
  see_ranked k rank table (item ∷ items) =
      see_ranked k (suc rank) (see (contribution f q k rank) table item) items

  -- The table of all lists.
  unfoldable pub tabulate : f.Double → Table → List (List T) → Table
  tabulate k table [] = table
  tabulate k table (items ∷ lists) = tabulate k (see_ranked k 0 table items) lists

  -- The position of an item.
  unfoldable pub pos : T → List T → Option ℕ
  pos item [] = none
  pos item (other ∷ order) = if q.eq other item then some 0 else option_suc (pos item order)

  -- The variables of the loop hold a table.
  pub record Holds (s : Fusion f T) (table : Table) : Type 0 where
    pub order : s.order ≡ map (λ row. row.0) table
    pub scores : s.scores ≡ map (λ row. row.1) table
    pub index : (item : T) → lookup f q item s.index ≡ pos item s.order

  raise-cons :
      (score c : f.Double) (scores : List f.Double) (n : ℕ)
      → raise f q (score ∷ scores) (suc n) c ≡ score ∷ raise f q scores n c
  raise-cons score c scores n = elim (Option-cases (get_elem? scores n)) [
    | inl e ↦ rw (raise, e) refl
    | inr (a, e) ↦ rw (raise, e) refl
  ]

  -- A known item keeps the order and raises one score.
  see_known :
      (c : f.Double) (table : Table) (item : T) (n : ℕ)
      → pos item (map (λ row. row.0) table) ≡ some n
      → (map (λ row. row.0) (see c table item) ≡ map (λ row. row.0) table)
        × (map (λ row. row.1) (see c table item) ≡ raise f q (map (λ row. row.1) table) n c)
  unfolding pos see
  see_known c [] item n h = cc
  see_known c (row ∷ table) item n h = elim (Bool-cases (q.eq row.0 item)) [
    | inl e ↦
        let first : 0 ≡ n = eq_of_some (rw e at h) in
        rw e (refl, ap (λ m. raise f q (row.1 ∷ map (λ r. r.1) table) m c) first)
    | inr e ↦
        let (m, known, next) = option_suc-eq_some (pos item (map (λ r. r.0) table)) n (rw e at h) in
        let (same, raised) = see_known c table item m known in
        rw e (
          ap (◌∷◌ row.0) same,
          ap (◌∷◌ row.1) raised
              ∙ sym (raise-cons row.1 c (map (λ r. r.1) table) m)
              ∙ ap (λ i. raise f q (row.1 ∷ map (λ r. r.1) table) i c) (sym next),
        )
  ]

  -- An unknown item comes last.
  see_unknown :
      (c : f.Double) (table : Table) (item : T)
      → pos item (map (λ row. row.0) table) ≡ none
      → see c table item ≡ table ++ (item, c) ∷ []
  unfolding pos see
  see_unknown c [] item h = refl
  see_unknown c (row ∷ table) item h = elim (Bool-cases (q.eq row.0 item)) [
    | inl e ↦ absurd (none_ne_some (sym (rw e at h)))
    | inr e ↦ rw e (
        ap (◌∷◌ row) (
          see_unknown c table item
            (option_suc-eq_none (pos item (map (λ r. r.0) table)) (rw e at h))))
  ]

  pos-append :
      (j item : T) (order : List T)
      → (q.eq item j ≡ true → pos j order ≡ none)
      → (if q.eq item j then some (length order) else pos j order) ≡ pos j (order ++ item ∷ [])
  unfolding pos
  pos-append j item [] h = elim (Bool-cases (q.eq item j)) [ inl e ↦ rw e refl | inr e ↦ rw e refl ]
  pos-append j item (other ∷ order) h = elim (Bool-cases (q.eq other j)) [
    | inl e ↦ elim (Bool-cases (q.eq item j)) [
      | inl e' ↦ absurd (none_ne_some (sym (rw e at h e')))
      | inr e' ↦ rw (e, e') refl
    ]
    | inr e ↦
        let rest =
          pos-append j item order (λ e'. option_suc-eq_none (pos j order) (rw e at h e')) in
        rw e (option_suc-if (q.eq item j) (length order) (pos j order) ∙ ap option_suc rest)
  ]

  pub see-Holds :
      (sound : (a b : T) → q.eq a b ≡ true → a ≡ b) (c : f.Double) (s : Fusion f T) (table : Table)
      (item : T)
      → Holds s table
      → Holds (see_item f q c s item) (see c table item)
  unfolding see_item
  see-Holds sound c s table item h = elim (Option-cases (pos item s.order)) [
    | inl e ↦
        let last = see_unknown c table item (rw h.order at e) in
        rw (see_item, h.index item, e, last)
          (record {
            order = ap (λ o. o ++ item ∷ []) h.order ∙ sym (map-append (λ row. row.0) table _);
            scores = ap (λ o. o ++ c ∷ []) h.scores ∙ sym (map-append (λ row. row.1) table _);
            index = λ j.
                ap (λ o. if q.eq item j then some (length s.order) else o) (h.index j)
                ∙ pos-append j item s.order
                    (λ a. subst (λ x. pos x s.order ≡ none) (sound item j a) e);
          })
    | inr (n, e) ↦
        let (same, raised) = see_known c table item n (rw h.order at e) in
        rw (see_item, h.index item, e)
          (record {
            order = h.order ∙ sym same;
            scores = ap (λ scores. raise f q scores n c) h.scores ∙ sym raised;
            index = h.index;
          })
  ]
