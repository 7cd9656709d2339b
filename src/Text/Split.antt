-- ===== src/Text/Split.antt =====
-- `split` and `join` undo one another where no part holds the separator.
use rig_memory_policy.Prelude.{
  ℕ, List, [], ◌∷◌, ◌++◌, ◌≡◌, ◌≢◌, refl, ap, arith, All, ◌==◌, Bool-cases, inl, inr,
}
use rig_memory_policy.Text.{Text, split, join, extend_first}

abbrev pub Lacks : ℕ → Text → Type 0
Lacks sep = All (λ c. c ≢ sep)

extend_first-append :
    (c : ℕ) (ps qs : List Text) → ps ≢ [] → extend_first c (ps ++ qs) ≡ extend_first c ps ++ qs
extend_first-append c [] qs ne = absurd (ne refl)
extend_first-append c (p ∷ ps) qs ne = refl

extend_first-All :
    (sep c : ℕ) (ps : List Text)
    → c ≢ sep
    → All (Lacks sep) ps
    → All (Lacks sep) (extend_first c ps)
extend_first-All sep c [] hc _ = ((hc, tt), tt)
extend_first-All sep c (p ∷ ps) hc (hp, h) = ((hc, hp), h)

module _ (sep : ℕ) where
  pub split-ne-nil : (s : Text) → split sep s ≢ []
  unfolding split
  split-ne-nil [] = ground arith
  split-ne-nil (c ∷ s) = ground (arith, split-ne-nil s)

  -- A part without the separator is a single part.
  pub split-of_Lacks : (s : Text) → Lacks sep s → split sep s ≡ s ∷ []
  unfolding split
  split-of_Lacks [] _ = refl
  split-of_Lacks (c ∷ s) (hc, h) = ground (arith, split-of_Lacks s h)

  -- A separator between two texts splits them apart.
  pub split-append_sep : (s t : Text) → split sep (s ++ sep ∷ t) ≡ split sep s ++ split sep t
  unfolding split
  split-append_sep [] t = ground arith
  split-append_sep (c ∷ s) t = ground (
    arith,
    split-append_sep s t,
    extend_first-append c (split sep s) (split sep t),
    split-ne-nil s,
  )

  pub split-Lacks : (s : Text) → All (Lacks sep) (split sep s)
  unfolding split
  split-Lacks [] = (tt, tt)
  split-Lacks (c ∷ s) = elim (Bool-cases (c == sep)) [
    | inl e ↦ rw e (tt, split-Lacks s)
    | inr e ↦ rw e (extend_first-All sep c (split sep s) (ground arith) (split-Lacks s))
  ]

  pub split-join : (ps : List Text) → ps ≢ [] → All (Lacks sep) ps → split sep (join sep ps) ≡ ps
  unfolding join
  split-join [] ne _ = absurd (ne refl)
  split-join (p ∷ []) ne (hp, _) = split-of_Lacks p hp
  split-join (p ∷ q ∷ ps) ne (hp, h) =
      rw (split-append_sep, split-of_Lacks p hp) (ap (◌∷◌ p) (split-join (q ∷ ps) (cc) h))
