-- ===== src/Text/Trim.antt =====
-- `trim_matches` removes characters at the ends only, and a second pass removes nothing.
use rig_memory_policy.Prelude.{
  ℕ, Bool, false, [], ◌∷◌, ◌≡◌, refl, arith, All, Bool-cases, inl, inr, is_nil, ◌&&◌,
}
use rig_memory_policy.Text.{Text, trim_start_matches, trim_end_matches, trim_matches}

module _ (p : ℕ → Bool) where
  -- The text does not begin with a character that the test accepts.
  abbrev Fresh : Text → Type 0
  Fresh [] = Unit
  Fresh (c ∷ s) = p c ≡ false

  trim_start_matches-Fresh : (s : Text) → Fresh (trim_start_matches p s)
  unfolding trim_start_matches
  trim_start_matches-Fresh [] = tt
  trim_start_matches-Fresh (c ∷ s) = elim (Bool-cases (p c)) [
    | inl e ↦ rw (e, trim_start_matches) (trim_start_matches-Fresh s)
    | inr e ↦ rw (e, trim_start_matches) e
  ]

  trim_start_matches-eq_of_Fresh : (s : Text) → Fresh s → trim_start_matches p s ≡ s
  unfolding trim_start_matches
  trim_start_matches-eq_of_Fresh [] _ = refl
  trim_start_matches-eq_of_Fresh (c ∷ s) h = ground arith

  trim_end_matches_cons :
      (c : ℕ) (s : Text) → p c ≡ false → trim_end_matches p (c ∷ s) ≡ c ∷ trim_end_matches p s
  unfolding trim_end_matches
  trim_end_matches_cons c s h = ground arith

  trim_end_matches-Fresh : (s : Text) → Fresh s → Fresh (trim_end_matches p s)
  unfolding trim_end_matches
  trim_end_matches-Fresh [] _ = tt
  trim_end_matches-Fresh (c ∷ s) h = rw (trim_end_matches_cons c s h) h

  trim_end_matches_twice :
      (s : Text) → trim_end_matches p (trim_end_matches p s) ≡ trim_end_matches p s
  unfolding trim_end_matches
  trim_end_matches_twice [] = refl
  trim_end_matches_twice (c ∷ s) = ground (arith, trim_end_matches_twice s)

  pub trim_matches_twice : (s : Text) → trim_matches p (trim_matches p s) ≡ trim_matches p s
  unfolding trim_matches
  trim_matches_twice s =
      let t = trim_start_matches p s in
      let fresh = trim_end_matches-Fresh t (trim_start_matches-Fresh s) in
      rw (trim_start_matches-eq_of_Fresh (trim_end_matches p t) fresh) (trim_end_matches_twice t)

  module _ {ℓ} (P : ℕ → Type ℓ) where
    trim_start_matches-All : (s : Text) → All P s → All P (trim_start_matches p s)
    unfolding trim_start_matches
    trim_start_matches-All [] _ = tt
    trim_start_matches-All (c ∷ s) (pc, h) = elim (Bool-cases (p c)) [
      | inl e ↦ rw (e, trim_start_matches) (trim_start_matches-All s h)
      | inr e ↦ rw (e, trim_start_matches) (pc, h)
    ]

    trim_end_matches-All : (s : Text) → All P s → All P (trim_end_matches p s)
    unfolding trim_end_matches
    trim_end_matches-All [] _ = tt
    trim_end_matches-All (c ∷ s) (pc, h) =
        elim (Bool-cases (is_nil (trim_end_matches p s) && p c)) [
          | inl e ↦ rw (e, trim_end_matches) tt
          | inr e ↦ rw (e, trim_end_matches) (pc, trim_end_matches-All s h)
        ]

    pub trim_matches-All : (s : Text) → All P s → All P (trim_matches p s)
    unfolding trim_matches
    trim_matches-All s h = trim_end_matches-All _ (trim_start_matches-All s h)
