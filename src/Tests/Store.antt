-- ===== src/Tests/Store.antt =====
-- Runs of src/conformance.rs and src/store.rs on backends that number their texts.
use rig_memory_policy.Prelude.{
  ℕ, ◌+◌, ◌==◌, ◌<◌, ◌≡◌, refl, true, false, not, inl, inr, List, any, filter, All, All-append,
  All-map, All-filter, arith, [], ◌∷◌, ◌++◌, length, if◌then◌else◌,
}
use rig_memory_policy.Text.{Text, codes}
use rig_memory_policy.Store.{ok, err, Backend, Verdict, verify_backend}
use rig_memory_policy.Store.Counting.{
  new, test_err, counting_writer, counting_committer, persist_all,
}
use rig_memory_policy.Store.Counting.Persisting.{numbers, persist_all-counting}
use rig_memory_policy.Store.Contract.{KeepsContract, EndsWell, verify_backend-EndsWell}

-- A backend that numbers its entries, and keeps those that are durable apart.
record Shelf : Type 0 where
  next : ℕ
  entries : List (ℕ × Text)
  stored : List (ℕ × Text)

abbrev shelf : Backend Shelf (Unit {0}) ℕ (Unit {0})
shelf = record {
  writer = record {
    write_text = λ s text options.
        (record s { next = s.next + 1; entries = s.entries ++ (s.next, text) ∷ [] }, ok s.next);
  };
  committer = record { commit = λ s. (record s { stored = s.entries }, ok tt) };
  deleter = record {
    delete_text =
        λ s id. (record s { entries = filter (λ entry. not (entry.0 == id)) s.entries }, ok tt);
  };
  same_id = λ i j. i == j;
}

abbrev IsBelow : ℕ → ℕ × Text → Type 0
IsBelow bound entry = entry.0 < bound

abbrev IsNumbered : Shelf → Type 0
IsNumbered s = All (IsBelow s.next) s.entries

unused :
    (next : ℕ) (es : List (ℕ × Text)) → All (IsBelow next) es → any (λ e. e.0 == next) es ≡ false
unused next [] _ = refl
unused next (e ∷ es) (h, hs) = ground (arith, unused next es hs)

numbered_on :
    (s : Shelf) (text : Text)
    → IsNumbered s
    → All (IsBelow (s.next + 1)) (s.entries ++ (s.next, text) ∷ [])
numbered_on s text h =
    All-append (IsBelow (s.next + 1)) s.entries _
      (All-map _ _ (λ e k. omega (arith, k)) s.entries h) (omega arith, tt)

same_number : (i : ℕ) → (i == i) ≡ true
same_number i = ground arith

either_way : (i j : ℕ) → (i == j) ≡ (j == i)
either_way i j = ground arith

shelf-KeepsContract : KeepsContract shelf (λ _. ⊥) ⊥ IsNumbered (λ s. s.entries) (λ s. s.stored)
shelf-KeepsContract = record {
  same_refl = same_number;
  same_symm = either_way;
  written = λ s text options h.
      inr (_, s.next, refl, (numbered_on s text h, inl (unused s.next s.entries h), refl));
  committed = λ s h. inr (_, tt, refl, (h, refl, refl));
  deleted = λ s id h listed.
      inr (
        _,
        tt,
        refl,
        (All-filter (IsBelow s.next) (λ entry. not (entry.0 == id)) s.entries h, refl),
      );
}

abbrev empty_shelf : Shelf
empty_shelf = record { next = 0; entries = []; stored = [] }

shelf_passes : (verify_backend shelf empty_shelf tt).1 ≡ Verdict.passed
unfolding verify_backend filter
shelf_passes = refl

verify_backend-EndsWell_example :
    EndsWell shelf
      (λ _. ⊥)
      ⊥
      IsNumbered
      (λ s. s.entries)
      (λ s. s.stored)
      (verify_backend shelf empty_shelf tt)
verify_backend-EndsWell_example =
    verify_backend-EndsWell shelf (λ _. ⊥) ⊥ IsNumbered (λ s. s.entries) (λ s. s.stored)
      shelf-KeepsContract empty_shelf tt tt refl

persist_all-counting_example :
    persist_all counting_writer counting_committer new (codes "alpha" ∷ codes "beta" ∷ []) ≡ (
      if new.pending_poisoned
      then (new, err test_err)
      else if new.committed_poisoned
      then (record new { pending = new.pending ++ codes "alpha" ∷ codes "beta" ∷ [] }, err test_err)
      else (
        record new {
          pending = [];
          committed = new.committed ++ (new.pending ++ codes "alpha" ∷ codes "beta" ∷ []);
        },
        ok (numbers (length new.pending) (codes "alpha" ∷ codes "beta" ∷ [])),
      ))
persist_all-counting_example = persist_all-counting new (codes "alpha" ∷ codes "beta" ∷ [])
