-- ===== src/Tests/Unit/Writers.antt =====
-- src/store.rs, its tests.
use rig_memory_policy.Prelude.{
  ℕ, ◌==◌, Bool, true, false, ◌&&◌, List, [], ◌∷◌, ◌≡◌, refl, length, is_nil,
}
use rig_memory_policy.Text.{codes, text_eq}
use rig_memory_policy.Store.{Outcome, ok, err}
use rig_memory_policy.Store.Counting.{
  TestErr, new, write_text, commit, counting_writer, counting_committer, write_all, persist_all,
}
use rig_memory_policy.Tests.Unit.Scopes.{texts_eq}

abbrev numbers_eq : List ℕ → List ℕ → Bool
numbers_eq [] [] = true
numbers_eq (n ∷ ns) (m ∷ ms) = (n == m) && numbers_eq ns ms
numbers_eq _ _ = false

abbrev are_ids : List ℕ → Outcome TestErr (List ℕ) → Bool
are_ids expected (ok ids) = numbers_eq ids expected
are_ids expected (err e) = false

abbrev is_id : ℕ → Outcome TestErr ℕ → Bool
is_id expected (ok id) = id == expected
is_id expected (err e) = false

abbrev write_then_commit_moves_pending_to_committed : Bool
write_then_commit_moves_pending_to_committed =
    let lines = codes "alpha" ∷ codes "beta" ∷ codes "gamma" ∷ [] in
    let persisted = persist_all counting_writer counting_committer new lines in
    are_ids (0 ∷ 1 ∷ 2 ∷ []) persisted.1
    && is_nil persisted.0.pending
    && texts_eq persisted.0.committed lines

abbrev write_without_commit_keeps_pending : Bool
write_without_commit_keeps_pending =
    let written = counting_writer.write_text new (codes "orphan") tt in
    is_id 0 written.1 && (length written.0.pending == 1) && is_nil written.0.committed

writers_pass :
    (write_then_commit_moves_pending_to_committed && write_without_commit_keeps_pending) ≡ true
unfolding persist_all write_all counting_writer counting_committer write_text commit new text_eq
writers_pass = refl
