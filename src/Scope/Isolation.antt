-- ===== src/Scope/Isolation.antt =====
-- Scopes that do not contain each other: no candidate is in both.
use rig_memory_policy.Prelude.{
  true, false, List, [], ◌∷◌, ◌++◌, ◌≡◌, refl, sym, ◌∙◌, ◌⊎◌, inl, inr, Option, none, some,
  Bool-cases,
}
use rig_memory_policy.Text.{Text}
use rig_memory_policy.Scope.{scope_path, new, contains}
use rig_memory_policy.Scope.Containment.{Contained, contains_iff}

-- Of two beginnings of one list, one is a beginning of the other.
comparable {ℓ} :
    {A : Type ℓ} (ps qs r r' : List A)
    → ps ++ r ≡ qs ++ r'
    → ((t : List A) × (qs ≡ ps ++ t)) ⊎ ((t : List A) × (ps ≡ qs ++ t))
comparable [] qs r r' e = inl (qs, refl)
comparable (p ∷ ps) [] r r' e = inr (p ∷ ps, refl)
comparable (p ∷ ps) (q ∷ qs) r r' e = elim (comparable ps qs r r' (cc)) [
  | inl (t, h) ↦ inl (t, cc)
  | inr (t, h) ↦ inr (t, cc)
]

paths_comparable :
    (ps qs rs : List Text) → Contained ps rs → Contained qs rs → Contained ps qs ⊎ Contained qs ps
paths_comparable [] [] rs h h' = inl refl
paths_comparable [] (q ∷ qs) rs h (t, e) = absurd (cc)
paths_comparable (p ∷ ps) [] rs (t, e) h = absurd (cc)
paths_comparable (p ∷ ps) (q ∷ qs) rs (t, e) (t', e') =
    comparable (p ∷ ps) (q ∷ qs) t t' (sym e ∙ e')

-- Of two scopes that contain one candidate, one contains the other.
comparable_of_common :
    (a b candidate : Text)
    → contains (new a) (some candidate) ≡ true
    → contains (new b) (some candidate) ≡ true
    → (contains (new a) (some b) ≡ true) ⊎ (contains (new b) (some a) ≡ true)
comparable_of_common a b candidate h h' =
    elim (paths_comparable (scope_path a) (scope_path b) (scope_path candidate)
      ((contains_iff a candidate).0 h) ((contains_iff b candidate).0 h')) [
        | inl c ↦ inl ((contains_iff a b).1 c)
        | inr c ↦ inr ((contains_iff b a).1 c)
      ]

-- Of two scopes that do not contain each other, the one contains no candidate that the other contains.
pub contains_apart :
    (a b : Text) (candidate : Option Text)
    → contains (new a) (some b) ≡ false
    → contains (new b) (some a) ≡ false
    → contains (new a) candidate ≡ true
    → contains (new b) candidate ≡ false
contains_apart a b none ha hb h = unfold contains in refl
contains_apart a b (some candidate) ha hb h =
    elim (Bool-cases (contains (new b) (some candidate))) [
      | inl e ↦ elim (comparable_of_common a b candidate h e) [
        | inl k ↦ absurd (cc)
        | inr k ↦ absurd (cc)
      ]
      | inr e ↦ e
    ]
