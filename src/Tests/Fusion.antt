-- ===== src/Tests/Fusion.antt =====
-- Runs of src/fusion.rs.
use rig_memory_policy.Prelude.{Perm, none, [], ◌∷◌, List, ◌≡◌}
use rig_memory_policy.Sort.{sort_by}
use rig_memory_policy.Text.{Text, codes, text_eq, text_eq→eq}
use rig_memory_policy.Fusion.{Equality, rrf_default_k, reciprocal_rank_fusion}
use rig_memory_policy.Fusion.Table.{Table, tabulate}
use rig_memory_policy.Fusion.Scores.{score_of, total, from_lists, reciprocal_rank_fusion-total}
use rig_memory_policy.Fusion.Ranking.{descending, clamped, reciprocal_rank_fusion-tabulate}
use rig_memory_policy.Tests.Retention.{whole_floats}

abbrev pub texts : Equality Text
texts = record { eq = text_eq }

abbrev two_lists : List (List Text)
two_lists = (codes "a" ∷ codes "b" ∷ []) ∷ (codes "b" ∷ codes "c" ∷ []) ∷ []

reciprocal_rank_fusion-tabulate_example :
    reciprocal_rank_fusion whole_floats texts two_lists (rrf_default_k whole_floats)
    ≡ sort_by (descending whole_floats texts) (
        tabulate whole_floats texts
          (clamped whole_floats texts (rrf_default_k whole_floats))
          []
          two_lists)
reciprocal_rank_fusion-tabulate_example =
    reciprocal_rank_fusion-tabulate whole_floats texts two_lists (rrf_default_k whole_floats)
      text_eq→eq

reciprocal_rank_fusion-total_example :
    (table : Table whole_floats texts) × Perm
      (reciprocal_rank_fusion whole_floats texts two_lists (rrf_default_k whole_floats))
      table
    × ((item : Text)
        → score_of whole_floats texts item table
          ≡ total whole_floats texts none (
              from_lists whole_floats texts
                (clamped whole_floats texts (rrf_default_k whole_floats))
                item
                two_lists))
reciprocal_rank_fusion-total_example =
    reciprocal_rank_fusion-total whole_floats texts two_lists (rrf_default_k whole_floats)
      text_eq→eq
