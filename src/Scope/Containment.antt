-- ===== src/Scope/Containment.antt =====
-- The tests of a scope against a candidate, in terms of paths.
use mathlib.Core.Logic.Iff
use rig_memory_policy.Prelude.{
  ℕ, Bool, true, false, List, [], ◌∷◌, ◌++◌, ◌≡◌, ◌≢◌, ◌∙◌, ap, sym, refl, arith, All, Option-cases,
  filter, inl, inr, is_nil, ◌↔◌, Option, none, some, ◌⊎◌, ◌||◌, append_assoc, append-nil,
  if◌then◌else◌,
}
use rig_memory_policy.Text.{
  Text, trim, split, join, text_eq_iff, strip_prefix, starts_with, text_eq,
}
use rig_memory_policy.Text.Split.{split-join, split-append_sep}
use rig_memory_policy.Scope.{scope_path, normalize_scope, new, scope_matches, contains, at_boundary}
use rig_memory_policy.Scope.Normal.{
  IsSegment, scope_path-IsSegment, scope_path-join, normalize_scope-join, Lacks-of,
  normalize_scope-eq_iff,
}

-- What `scope_matches` is to decide, in terms of paths.
abbrev pub Matching : Option Text → Option Text → Type 0
Matching none none = Unit
Matching none (some candidate) = scope_path candidate ≡ []
Matching (some required) none = ⊥
Matching (some required) (some candidate) = scope_path candidate ≡ scope_path required

is_nil_iff : (s : Text) → (is_nil s ≡ true) ↔ (s ≡ [])
is_nil_iff [] = (λ _. refl, λ _. refl)
is_nil_iff (c ∷ s) = ground arith

-- The path is empty exactly when the normal form is.
normalize_scope-eq-nil : (s : Text) → (normalize_scope s ≡ []) ↔ (scope_path s ≡ [])
unfolding normalize_scope scope_path split join trim filter
normalize_scope-eq-nil s = normalize_scope-eq_iff s []

-- `scope_matches` holds exactly if a required scope has the path of a given candidate, or no scope is
-- required and the candidate has none or an empty path.
pub scope_matches_iff :
    (required candidate : Option Text)
    → (scope_matches required candidate ≡ true) ↔ Matching required candidate
unfolding scope_matches
scope_matches_iff none none = (λ _. tt, λ _. refl)
scope_matches_iff none (some c) = Iff.trans (is_nil_iff _) (normalize_scope-eq-nil c)
scope_matches_iff (some r) none = (λ e. cc, λ e. absurd e)
scope_matches_iff (some r) (some c) = Iff.trans (text_eq_iff _ _) (normalize_scope-eq_iff c r)

-- `qs` is `ps` or lies below it; nothing but the empty path lies below the empty path.
abbrev pub Contained : List Text → List Text → Type 0
Contained [] qs = qs ≡ []
Contained (p ∷ ps) qs = (rest : List Text) × (qs ≡ (p ∷ ps) ++ rest)

strip_prefix-append : (p t : Text) → strip_prefix p (p ++ t) ≡ some t
unfolding strip_prefix
strip_prefix-append [] t = refl
strip_prefix-append (a ∷ p) t = ground (arith, strip_prefix-append p t)

strip_prefix-eq_some : (p s t : Text) → strip_prefix p s ≡ some t → s ≡ p ++ t
unfolding strip_prefix
strip_prefix-eq_some [] s t h = cc
strip_prefix-eq_some (a ∷ p) [] t h = cc
strip_prefix-eq_some (a ∷ p) (c ∷ s) t h = ground (arith, strip_prefix-eq_some p s t)

starts_with-cons : (a : ℕ) (s : Text) → starts_with a s ≡ true → (t : Text) × (s ≡ a ∷ t)
unfolding starts_with
starts_with-cons a [] h = cc
starts_with-cons a (c ∷ t) h = (t, ground arith)

-- A boundary after the prefix is a slash between the prefix and the rest.
boundary_iff :
    (p s : Text) → (at_boundary (strip_prefix p s) ≡ true) ↔ ((t : Text) × (s ≡ p ++ b'/' ∷ t))
unfolding starts_with
boundary_iff p s = (
  λ h. elim (Option-cases (strip_prefix p s)) [
    | inl e ↦ cc
    | inr (t, e) ↦
        let (u, eu) = starts_with-cons b'/' t (rw e at h) in
        (u, strip_prefix-eq_some p s t e ∙ ap (◌++◌ p) eu)
  ],
  λ (t, e). rw (e, strip_prefix-append) (ground arith),
)

append-cons-ne-nil : (s : Text) (c : ℕ) (t : Text) → s ++ c ∷ t ≢ []
append-cons-ne-nil [] c t = cc
append-cons-ne-nil (d ∷ s) c t = cc

join-append :
    (p : Text) (ps : List Text) (q : Text) (qs : List Text)
    → join b'/' ((p ∷ ps) ++ q ∷ qs) ≡ join b'/' (p ∷ ps) ++ b'/' ∷ join b'/' (q ∷ qs)
unfolding join
join-append p [] q qs = refl
join-append p (r ∷ ps) q qs = simp (append_assoc, join-append r ps q qs)

join-injective :
    (ps qs : List Text)
    → All IsSegment ps
    → All IsSegment qs
    → join b'/' ps ≡ join b'/' qs
    → ps ≡ qs
join-injective ps qs hp hq e = sym (scope_path-join ps hp) ∙ ap scope_path e ∙ scope_path-join qs hq

join-ne-nil : (p : Text) (ps : List Text) → p ≢ [] → is_nil (join b'/' (p ∷ ps)) ≡ false
unfolding join
join-ne-nil [] ps h = absurd (h refl)
join-ne-nil (c ∷ p) [] h = refl
join-ne-nil (c ∷ p) (q ∷ ps) h = refl

-- The split at the boundary: what follows is a list of parts.
below_of_boundary :
    (p : Text) (ps qs : List Text) (t : Text)
    → All IsSegment (p ∷ ps)
    → All IsSegment qs
    → join b'/' qs ≡ join b'/' (p ∷ ps) ++ b'/' ∷ t
    → Contained (p ∷ ps) qs
unfolding join
below_of_boundary p ps [] t hp _ e = absurd (append-cons-ne-nil _ _ _ (sym e))
below_of_boundary p ps (q ∷ qs) t hp hq e = (
  split b'/' t,
  sym (split-join b'/' (q ∷ qs) (cc) (Lacks-of (q ∷ qs) hq))
      ∙ ap (split b'/') e
      ∙ split-append_sep b'/' _ t
      ∙ ap (λ ss. ss ++ split b'/' t) (split-join b'/' (p ∷ ps) (cc) (Lacks-of (p ∷ ps) hp)),
)

or_iff : (a b : Bool) → ((a || b) ≡ true) ↔ ((a ≡ true) ⊎ (b ≡ true))
or_iff true b = (λ _. inl refl, λ _. refl)
or_iff false b = (λ h. inr h, elim [ inl h ↦ absurd (ground arith) | inr h ↦ h ])

-- The test for a scope that is not empty, on the texts of two paths.
prefix_test_iff :
    (p : Text) (ps qs : List Text)
    → All IsSegment (p ∷ ps)
    → All IsSegment qs
    → ((text_eq (join b'/' qs) (join b'/' (p ∷ ps))
          || at_boundary (strip_prefix (join b'/' (p ∷ ps)) (join b'/' qs)))
        ≡ true)
      ↔ Contained (p ∷ ps) qs
prefix_test_iff p ps qs hp hq = Iff.trans (or_iff _ _) (
  elim [
    | inl h ↦
        ([], join-injective qs (p ∷ ps) hq hp ((text_eq_iff _ _).0 h) ∙ sym (append-nil (p ∷ ps)))
    | inr h ↦
        let (t, e) = (boundary_iff (join b'/' (p ∷ ps)) (join b'/' qs)).0 h in
        below_of_boundary p ps qs t hp hq e
  ],
  λ (rest, e). extended rest e,
)
  where
    extended :
        (rest : List Text)
        → qs ≡ (p ∷ ps) ++ rest
        → (text_eq (join b'/' qs) (join b'/' (p ∷ ps)) ≡ true)
          ⊎ (at_boundary (strip_prefix (join b'/' (p ∷ ps)) (join b'/' qs)) ≡ true)
    extended [] e = inl ((text_eq_iff _ _).1 (ap (join b'/') (e ∙ append-nil (p ∷ ps))))
    extended (r ∷ rest) e =
        inr
          ((boundary_iff _ _).1 (join b'/' (r ∷ rest), ap (join b'/') e ∙ join-append p ps r rest))

not_both : true ≢ false
not_both e = cc

is_nil-join : (qs : List Text) → All IsSegment qs → (is_nil (join b'/' qs) ≡ true) ↔ (qs ≡ [])
unfolding join
is_nil-join [] _ = (λ _. refl, λ _. refl)
is_nil-join (q ∷ qs) (hq, _) =
    (λ h. absurd (not_both (sym h ∙ join-ne-nil q qs hq.has_text)), λ e. absurd (cc e))

contains_paths :
    (ps qs : List Text)
    → All IsSegment ps
    → All IsSegment qs
    → ((if is_nil (join b'/' ps)
          then is_nil (join b'/' qs)
          else text_eq (join b'/' qs) (join b'/' ps)
            || at_boundary (strip_prefix (join b'/' ps) (join b'/' qs)))
        ≡ true)
      ↔ Contained ps qs
unfolding join
contains_paths [] qs _ hq = is_nil-join qs hq
contains_paths (p ∷ ps) qs hp hq =
    rw (join-ne-nil p ps (hp.0.has_text)) (prefix_test_iff p ps qs hp hq)

-- `contains` on a given candidate: the candidate's path is the scope's path or extends it by whole
-- segments, and the empty scope contains nothing but the empty path.
pub contains_iff :
    (scope candidate : Text)
    → (contains (new scope) (some candidate) ≡ true)
      ↔ Contained (scope_path scope) (scope_path candidate)
unfolding contains new
contains_iff scope candidate =
    rw (normalize_scope-join scope, normalize_scope-join candidate)
      (contains_paths (scope_path scope) (scope_path candidate) (scope_path-IsSegment scope)
        (scope_path-IsSegment candidate))
