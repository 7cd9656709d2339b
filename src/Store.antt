-- ===== src/Store.antt =====
-- src/store.rs, the traits of a backend, and src/conformance.rs, the run that every backend must pass.
pub mod Contract
pub mod Counting
use rig_memory_policy.Prelude.{Bool, true, false, if◌then◌else◌}
use rig_memory_policy.Text.{Text, codes}

-- `Result` with an error type of the backend's own.
pub data Outcome (Err A : Type 0) : Type 0 where
  ok : A → Outcome Err A
  err : Err → Outcome Err A

-- The traits at one store, whose calls change it; each future is awaited at once.
pub record TextWriter (S Opts Id_ Err : Type 0) : Type 0 where
  pub write_text : S → Text → Opts → S × Outcome Err Id_

pub record Committable (S Err : Type 0) : Type 0 where
  pub commit : S → S × Outcome Err (Unit {0})

pub record TextDeleter (S Id_ Err : Type 0) : Type 0 where
  pub delete_text : S → Id_ → S × Outcome Err (Unit {0})

-- The bounds of `verify_backend`: the three traits, and the `==` of the identifiers.
pub record Backend (S Opts Id_ Err : Type 0) : Type 0 where
  pub writer : TextWriter S Opts Id_ Err
  pub committer : Committable S Err
  pub deleter : TextDeleter S Id_ Err
  pub same_id : Id_ → Id_ → Bool

-- How `verify_backend` ends: it returns, or `assert_ne!` panics.
pub data Verdict (Err : Type 0) : Type 0 where
  passed : Verdict Err
  failed : Err → Verdict Err
  panicked : Verdict Err

-- `?`: the rest of the run, or the error.
abbrev pub then_run :
    {S Err A : Type 0} → S × Outcome Err A → (S → A → S × Verdict Err) → S × Verdict Err
then_run (s, ok a) rest = rest s a
then_run (s, err e) rest = (s, Verdict.failed e)

abbrev pub first_record : Text
first_record = codes "conformance record 1"

abbrev pub second_record : Text
second_record = codes "conformance record 2"

module _ {S Opts Id_ Err : Type 0} (b : Backend S Opts Id_ Err) where
  -- `verify_backend`: two writes with different identifiers, a commit, a deletion and a commit.
  unfoldable pub verify_backend : S → Opts → S × Verdict Err
  verify_backend s default_options =
      then_run (b.writer.write_text s first_record default_options) (λ s₁ id_1.
        then_run (b.writer.write_text s₁ second_record default_options) (λ s₂ id_2.
          if b.same_id id_1 id_2
          then (s₂, Verdict.panicked)
          else then_run (b.committer.commit s₂) (λ s₃ _.
            then_run (b.deleter.delete_text s₃ id_1)
              (λ s₄ _. then_run (b.committer.commit s₄) (λ s₅ _. (s₅, Verdict.passed))))))
