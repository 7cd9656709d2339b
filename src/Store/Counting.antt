-- ===== src/Store/Counting.antt =====
-- src/store.rs, the store `CountingStore` of its tests and the helper `persist_all`, which knows a
-- store by its traits alone.
pub mod Persisting
use rig_memory_policy.Prelude.{
  ℕ, ◌-◌, Bool, true, false, List, [], ◌∷◌, ◌++◌, length, if◌then◌else◌,
}
use rig_memory_policy.Text.{Text}
use rig_memory_policy.Store.{Outcome, ok, err, TextWriter, Committable}

-- `struct TestErr`.
pub data TestErr : Type 0 where
  test_err : TestErr

-- `struct CountingStore`: two locks, each with its poison flag and what it guards.
pub record CountingStore : Type 0 where
  pub pending_poisoned : Bool
  pub pending : List Text
  pub committed_poisoned : Bool
  pub committed : List Text

unfoldable pub new : CountingStore
new = record { pending_poisoned = false; pending = []; committed_poisoned = false; committed = [] }

-- `push`, and the position of what was pushed.
unfoldable pub write_text : CountingStore → Text → Unit {0} → CountingStore × Outcome TestErr ℕ
write_text s text options =
    let pushed = s.pending ++ text ∷ [] in
    if s.pending_poisoned
    then (s, err test_err)
    else (record s { pending = pushed }, ok (length pushed - 1))

-- `append` moves all that is pending.
unfoldable pub commit : CountingStore → CountingStore × Outcome TestErr (Unit {0})
commit s =
    if s.pending_poisoned
    then (s, err test_err)
    else if s.committed_poisoned
    then (s, err test_err)
    else (record s { pending = []; committed = s.committed ++ s.pending }, ok tt)

unfoldable pub counting_writer : TextWriter CountingStore (Unit {0}) ℕ TestErr
unfolding write_text
counting_writer = record { write_text = write_text }

unfoldable pub counting_committer : Committable CountingStore TestErr
unfolding commit
counting_committer = record { commit = commit }

-- `?` on the outcome of a call.
abbrev pub and_then :
    {S Err A B : Type 0} → S × Outcome Err A → (S → A → S × Outcome Err B) → S × Outcome Err B
and_then (s, ok a) rest = rest s a
and_then (s, err e) rest = (s, err e)

module _ {S Id_ Err : Type 0} (w : TextWriter S (Unit {0}) Id_ Err) where
  -- The loop over the lines, with the identifiers so far.
  unfoldable pub write_all : S → List Text → List Id_ → S × Outcome Err (List Id_)
  write_all s [] ids = (s, ok ids)
  write_all s (line ∷ lines) ids =
      and_then (w.write_text s line tt) (λ s' id. write_all s' lines (ids ++ id ∷ []))

  unfoldable pub persist_all : Committable S Err → S → List Text → S × Outcome Err (List Id_)
  unfolding write_all
  persist_all c s lines =
      and_then (write_all s lines []) (λ s' ids. and_then (c.commit s') (λ s'' _. (s'', ok ids)))
