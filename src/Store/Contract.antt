-- ===== src/Store/Contract.antt =====
-- What the traits of src/store.rs ask of a backend, and the run of src/conformance.rs over a backend that
-- keeps to it.
use rig_memory_policy.Prelude.{
  Bool, Bool-cases, true, false, not, List, [], ◌∷◌, ◌++◌, ◌≡◌, ◌⊎◌, inl, inr, refl, ap, ◌∙◌, any,
  filter, arith,
}
use rig_memory_policy.Text.{Text}
use rig_memory_policy.Store.{
  Outcome, ok, err, Backend, Verdict, then_run, verify_backend, first_record, second_record,
}

module _ {S Opts Id_ Err : Type 0} (b : Backend S Opts Id_ Err) where
  abbrev pub Entries : Type 0
  Entries = List (Id_ × Text)

  -- An entry goes by an identifier.
  abbrev pub goes_by : Id_ → Id_ × Text → Bool
  goes_by id entry = b.same_id entry.0 id

  -- A call fails with an error that may occur, or it succeeds, and then something holds of the state
  -- and the answer.
  abbrev pub Does : {A : Type 0} → (Err → Type 0) → S × Outcome Err A → (S → A → Type 0) → Type 0
  Does {A} MayFail r Holds =
      ((s : S) × (e : Err) × (r ≡ (s, err e)) × MayFail e)
      ⊎ ((s : S) × (a : A) × (r ≡ (s, ok a)) × Holds s a)

  -- The contract. In a state that `IsReady` describes there are the entries as the backend answers for
  -- them, `current`, and those that are durable. A write adds an entry under an identifier, which is a new
  -- one unless identifiers may repeat; a deletion removes the entries that go by a given one, and a
  -- commit makes all entries durable; a write or a deletion may do so as well, or not. A call that does
  -- not do so fails, with an error that may occur. The `==` of identifiers is reflexive and symmetric.
  -- Where `MayFail` and `MayRepeat` are empty, every call succeeds and every identifier is new.
  pub record KeepsContract (MayFail : Err → Type 0) (MayRepeat : Type 0) (IsReady : S → Type 0)
      (current durable : S → Entries) : Type 0 where
    pub same_refl : (id : Id_) → b.same_id id id ≡ true
    pub same_symm : (id id' : Id_) → b.same_id id id' ≡ b.same_id id' id
    pub written :
        (s : S) (text : Text) (options : Opts)
        → IsReady s
        → Does MayFail (b.writer.write_text s text options) (λ s' id.
          IsReady s'
          × ((any (goes_by id) (current s) ≡ false) ⊎ MayRepeat)
          × (current s' ≡ current s ++ (id, text) ∷ []))
    pub committed :
        (s : S)
        → IsReady s
        → Does MayFail
            (b.committer.commit s)
            (λ s' _. IsReady s' × (current s' ≡ current s) × (durable s' ≡ current s))
    pub deleted :
        (s : S) (id : Id_)
        → IsReady s
        → any (goes_by id) (current s) ≡ true
        → Does MayFail (b.deleter.delete_text s id) (λ s' _.
          IsReady s' × (current s' ≡ filter (λ entry. not (goes_by id entry)) (current s)))

  module _ (MayFail : Err → Type 0) (MayRepeat : Type 0) (IsReady : S → Type 0)
      (current durable : S → Entries) where
    -- Both records stand under one identifier, where identifiers may repeat.
    abbrev pub Repeats : S → Type 0
    Repeats s =
        (id : Id_) × (id' : Id_) × (b.same_id id id' ≡ true)
        × (current s ≡ (id, first_record) ∷ (id', second_record) ∷ [])
        × MayRepeat

    -- The run ends with an error that may occur; or it panics, and the records have one identifier; or
    -- it passes, and just the second record is left, and is durable.
    abbrev pub EndsWell : S × Verdict Err → Type 0
    EndsWell r =
        ((e : Err) × (r.1 ≡ Verdict.failed e) × MayFail e)
        ⊎ ((r.1 ≡ Verdict.panicked) × Repeats r.0)
        ⊎ ((id : Id_) × (r.1 ≡ Verdict.passed)
            × (current r.0 ≡ (id, second_record) ∷ [])
            × (durable r.0 ≡ (id, second_record) ∷ []))

    -- One call, and the rest of the run.
    goes_on :
        {A : Type 0} (Holds : S → A → Type 0) (r : S × Outcome Err A)
        (rest : S → A → S × Verdict Err)
        → Does MayFail r Holds
        → ((s : S) (a : A) → Holds s a → EndsWell (rest s a))
        → EndsWell (then_run r rest)
    goes_on Holds r rest (inl (s, e, same, may)) h = rw same (inl (e, refl, may))
    goes_on Holds r rest (inr (s, a, same, holds)) h = rw same (h s a holds)

    module _ (k : KeepsContract MayFail MayRepeat IsReady current durable) where
      -- An entry that is deleted while there is another under another identifier.
      one_listed : (id id' : Id_) (t t' : Text) → any (goes_by id) ((id, t) ∷ (id', t') ∷ []) ≡ true
      one_listed id id' t t' = ground (arith, k.same_refl id)

      one_left :
          (id id' : Id_) (t t' : Text)
          → b.same_id id id' ≡ false
          → filter (λ entry. not (goes_by id entry)) ((id, t) ∷ (id', t') ∷ []) ≡ (id', t') ∷ []
      unfolding filter
      one_left id id' t t' apart = ground (arith, k.same_refl id, k.same_symm id id', apart)

      -- The calls after the two writes.
      clears_up :
          (s : S) (id id' : Id_)
          → IsReady s
          → b.same_id id id' ≡ false
          → current s ≡ (id, first_record) ∷ (id', second_record) ∷ []
          → EndsWell (
              then_run (b.committer.commit s) (λ s₃ _.
                then_run
                  (b.deleter.delete_text s₃ id)
                  (λ s₄ _. then_run (b.committer.commit s₄) (λ s₅ _. (s₅, Verdict.passed)))))
      clears_up s id id' ready apart both = goes_on _ _ _ (k.committed s ready) λ s₃ _ (r₃, c₃, _).
          let listed : any (goes_by id) (current s₃) ≡ true =
            ap (any (goes_by id)) (c₃ ∙ both) ∙ one_listed id id' first_record second_record in
          goes_on _ _ _ (k.deleted s₃ id r₃ listed) λ s₄ _ (r₄, c₄).
            let left : current s₄ ≡ (id', second_record) ∷ [] =
              c₄
              ∙ ap (filter (λ entry. not (goes_by id entry))) (c₃ ∙ both)
              ∙ one_left id id' first_record second_record apart in
            goes_on _ _ _ (k.committed s₄ r₄)
              λ s₅ _ (_, c₅, d₅). inr (inr (id', refl, c₅ ∙ left, d₅ ∙ left))

      -- Two entries under identifiers that are equal, though the second one is new or may repeat.
      repeats :
          (id id' : Id_)
          → (any (goes_by id') ((id, first_record) ∷ []) ≡ false) ⊎ MayRepeat
          → b.same_id id id' ≡ true
          → MayRepeat
      repeats id id' (inl unused) same = absurd (ground (arith, unused, same))
      repeats id id' (inr may) same = may

      -- Over a backend that keeps the contract, from a state that is ready and without entries, the run
      -- passes, and just the second record is left and is durable; or it panics, and then both records
      -- stand under one identifier, and identifiers may repeat; or it fails with an error that may
      -- occur.
      pub verify_backend-EndsWell :
          (s : S) (options : Opts)
          → IsReady s
          → current s ≡ []
          → EndsWell (verify_backend b s options)
      unfolding verify_backend
      verify_backend-EndsWell s options ready fresh =
          goes_on _ _ _ (k.written s first_record options ready) λ s₁ id (r₁, _, c₁).
            let first : current s₁ ≡ (id, first_record) ∷ [] =
              c₁ ∙ ap (λ es. es ++ (id, first_record) ∷ []) fresh in
            goes_on _ _ _ (k.written s₁ second_record options r₁) λ s₂ id' (r₂, unused, c₂).
              let both = c₂ ∙ ap (λ es. es ++ (id', second_record) ∷ []) first in
              elim (Bool-cases (b.same_id id id')) [
                | inr apart ↦ rw apart (clears_up s₂ id id' r₂ apart both)
                | inl same ↦ rw same (
                    inr
                      (inl (refl, (id, id', same, both, repeats id id' (rw first at unused) same))))
              ]
