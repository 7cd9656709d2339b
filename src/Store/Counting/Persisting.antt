-- ===== src/Store/Counting/Persisting.antt =====
-- What `persist_all` does to a `CountingStore`.
use rig_memory_policy.Prelude.{
  ℕ, suc, ◌-◌, Bool, true, false, List, [], ◌∷◌, ◌++◌, ◌≡◌, refl, ◌∙◌, arith, append_assoc,
  append-nil, length, length-append, if◌then◌else◌,
}
use rig_memory_policy.Text.{Text}
use rig_memory_policy.Store.{ok, err}
use rig_memory_policy.Store.Counting.{
  CountingStore, test_err, write_text, commit, counting_writer, counting_committer, write_all,
  persist_all,
}

-- The numbers from `first` on, one for each line.
abbrev pub numbers : ℕ → List Text → List ℕ
numbers first [] = []
numbers first (line ∷ lines) = first ∷ numbers (suc first) lines

abbrev store : Bool → List Text → Bool → List Text → CountingStore
store pending_poisoned pending committed_poisoned committed = record {
  pending_poisoned = pending_poisoned;
  pending = pending;
  committed_poisoned = committed_poisoned;
  committed = committed;
}

write_all_lem :
    (lines pending committed : List Text) (poisoned : Bool) (ids : List ℕ)
    → write_all counting_writer (store false pending poisoned committed) lines ids ≡ (
      store false (pending ++ lines) poisoned committed,
      ok (ids ++ numbers (length pending) lines),
    )
unfolding write_all counting_writer write_text
write_all_lem [] pending committed poisoned ids = rw (append-nil pending, append-nil ids) refl
write_all_lem (line ∷ lines) pending committed poisoned ids =
    let longer : length (pending ++ line ∷ []) ≡ suc (length pending) =
      omega (arith, length-append pending (line ∷ [])) in
    let last : length (pending ++ line ∷ []) - 1 ≡ length pending = omega (arith, longer) in
    write_all_lem lines (pending ++ line ∷ []) committed poisoned _
    ∙ rw (last, longer, append_assoc, append_assoc) refl

persist_cases :
    (pp cp : Bool) (pending committed lines : List Text)
    → persist_all counting_writer counting_committer (store pp pending cp committed) lines ≡ (
        if pp
        then (store pp pending cp committed, err test_err)
        else if cp
        then (store pp (pending ++ lines) cp committed, err test_err)
        else (
          store pp [] cp (committed ++ (pending ++ lines)),
          ok (numbers (length pending) lines),
        ))
unfolding persist_all counting_committer commit write_all counting_writer write_text
persist_cases true cp pending committed [] = refl
persist_cases true cp pending committed (line ∷ lines) = refl
persist_cases false true pending committed lines =
    rw (write_all_lem lines pending committed true []) refl
persist_cases false false pending committed lines =
    rw (write_all_lem lines pending committed false []) refl

-- `persist_all` numbers the lines on from what was pending and moves all that is pending, old and new,
-- behind what was committed. If the first lock is poisoned it fails and changes nothing; if only the
-- second one is, it fails, and the lines are left pending.
pub persist_all-counting :
    (s : CountingStore) (lines : List Text)
    → persist_all counting_writer counting_committer s lines ≡ (
        if s.pending_poisoned
        then (s, err test_err)
        else if s.committed_poisoned
        then (record s { pending = s.pending ++ lines }, err test_err)
        else (
          record s { pending = []; committed = s.committed ++ (s.pending ++ lines) },
          ok (numbers (length s.pending) lines),
        ))
persist_all-counting s lines =
    persist_cases s.pending_poisoned s.committed_poisoned s.pending s.committed lines
