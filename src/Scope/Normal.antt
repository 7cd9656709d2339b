-- ===== src/Scope/Normal.antt =====
-- Normalised scopes: `normalize_scope` is the text of `scope_path`, and the two texts of one path
-- are the same.
use rig_memory_policy.Prelude.{
  false, not, List, [], ◌∷◌, map, ◌≡◌, ◌≢◌, ◌∙◌, ap, sym, refl, All, Bool-cases, inl, inr, is_nil,
  filter, ◌↔◌,
}
use rig_memory_policy.Text.{Text, trim, split, join, is_whitespace}
use rig_memory_policy.Text.Trim.{trim_matches_twice, trim_matches-All}
use rig_memory_policy.Text.Split.{Lacks, split-Lacks, split-join}
use rig_memory_policy.Scope.{scope_path, normalize_scope}

-- What a segment of a normalised scope is: not empty, trimmed, and free of slashes.
pub record IsSegment (s : Text) : Type 0 where
  pub has_text : s ≢ []
  pub trimmed : trim s ≡ s
  pub lacks : Lacks b'/' s

trim_twice : (s : Text) → trim (trim s) ≡ trim s
unfolding trim
trim_twice s = trim_matches_twice is_whitespace s

trim-Lacks : (s : Text) → Lacks b'/' s → Lacks b'/' (trim s)
unfolding trim
trim-Lacks s h = trim_matches-All is_whitespace (λ c. c ≢ b'/') s h

ne-nil_of : (s : Text) → is_nil s ≡ false → s ≢ []
ne-nil_of s h e = cc (ap is_nil e)

segments_of :
    (ps : List Text)
    → All (Lacks b'/') ps
    → All IsSegment (filter (λ segment. not (is_nil segment)) (map trim ps))
unfolding filter
segments_of [] _ = tt
segments_of (p ∷ ps) (hp, h) = elim (Bool-cases (is_nil (trim p))) [
  | inl e ↦ rw e (segments_of ps h)
  | inr e ↦ rw e (
    record { has_text = ne-nil_of (trim p) e; trimmed = trim_twice p; lacks = trim-Lacks p hp },
    segments_of ps h,
  )
]

-- Every part of `scope_path` is a segment.
pub scope_path-IsSegment : (s : Text) → All IsSegment (scope_path s)
unfolding scope_path
scope_path-IsSegment s = segments_of (split b'/' s) (split-Lacks b'/' s)

keep_segments :
    (ps : List Text)
    → All IsSegment ps
    → filter (λ segment. not (is_nil segment)) (map trim ps) ≡ ps
unfolding filter
keep_segments [] _ = refl
keep_segments ([] ∷ ps) (hp, h) = absurd (hp.has_text refl)
keep_segments ((c ∷ p) ∷ ps) (hp, h) = rw hp.trimmed (ap (◌∷◌ (c ∷ p)) (keep_segments ps h))

pub Lacks-of : (ps : List Text) → All IsSegment ps → All (Lacks b'/') ps
Lacks-of [] _ = tt
Lacks-of (p ∷ ps) (hp, h) = (hp.lacks, Lacks-of ps h)

-- A text of segments has those segments for its path.
pub scope_path-join : (ps : List Text) → All IsSegment ps → scope_path (join b'/' ps) ≡ ps
unfolding scope_path split join trim filter
scope_path-join [] _ = refl
scope_path-join (p ∷ ps) h =
    rw (split-join b'/' (p ∷ ps) (cc) (Lacks-of (p ∷ ps) h)) (keep_segments (p ∷ ps) h)

pub normalize_scope-join : (s : Text) → normalize_scope s ≡ join b'/' (scope_path s)
unfolding normalize_scope scope_path
normalize_scope-join s = refl

pub scope_path-normalize_scope : (s : Text) → scope_path (normalize_scope s) ≡ scope_path s
scope_path-normalize_scope s =
    rw normalize_scope-join (scope_path-join (scope_path s) (scope_path-IsSegment s))

-- Normalising a second time changes nothing.
pub normalize_scope_twice : (s : Text) → normalize_scope (normalize_scope s) ≡ normalize_scope s
normalize_scope_twice s =
    normalize_scope-join (normalize_scope s)
    ∙ ap (join b'/') (scope_path-normalize_scope s)
    ∙ sym (normalize_scope-join s)

-- Two texts have one normal form exactly when they have one path.
pub normalize_scope-eq_iff :
    (s t : Text) → (normalize_scope s ≡ normalize_scope t) ↔ (scope_path s ≡ scope_path t)
normalize_scope-eq_iff s t = (
  λ e. sym (scope_path-normalize_scope s) ∙ ap scope_path e ∙ scope_path-normalize_scope t,
  λ e. normalize_scope-join s ∙ ap (join b'/') e ∙ sym (normalize_scope-join t),
)
