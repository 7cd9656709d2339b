-- ===== src/Scope/Paths.antt =====
-- What a `Scope` stands for: a list of segments.
use mathlib.Core.Equiv.{Iso, IsEquiv, iso_to_equiv}
use mathlib.Core.HLevel.{Σ_prop_path}
use mathlib.Core.Quot
use mathlib.Core.Quot.{Quot, Quot-set}
use rig_memory_policy.Prelude.{List, ◌≡◌, ◌∙◌, ap, All, sym, [], ◌∷◌, ◌≢◌}
use rig_memory_policy.Text.{Text, join}
use rig_memory_policy.Scope.{Scope, normalize_scope, new, path}
use rig_memory_policy.Scope.Normal.{
  IsSegment, scope_path-IsSegment, scope_path-join, normalize_scope-join,
  scope_path-normalize_scope, normalize_scope_twice,
}

abbrev made : Text → Scope
made s = record { value = s }

abbrev pub SameScope : Text → Text → Type 0
SameScope s t = new s ≡ new t

-- Texts, up to the scope that `new` makes of them.
abbrev pub ScopeText : Type 0
ScopeText = Quot SameScope

abbrev pub Segments : Type 0
Segments = (ps : List Text) × All IsSegment ps

All-prop {ℓ κ} :
    {A : Type ℓ} {P : A → Type κ} → ((x : A) → IsProp (P x)) → (l : List A) → IsProp (All P l)
All-prop h [] = hlevel
All-prop h (x ∷ l) = hlevel (h x, All-prop h l)

IsSegment-prop : (s : Text) → IsProp (IsSegment s)
IsSegment-prop s = hlevel (All-prop {P = λ c. c ≢ b'/'} (λ c. hlevel) s)

pub segments-prop : (ps : List Text) → IsProp (All IsSegment ps)
segments-prop = All-prop IsSegment-prop

pub Segments-set : IsSet Segments
Segments-set = hlevel (segments-prop)

path-new-IsSegment : (s : Text) → All IsSegment (path (new s))
unfolding path
path-new-IsSegment s = scope_path-IsSegment (new s).value

-- The path of the scope that `new` makes of any text of a class.
unfoldable path_of_class : ScopeText → Segments
path_of_class =
    Quot.lift Segments-set (λ s. (path (new s), path-new-IsSegment s))
      (λ s t e. Σ_prop_path segments-prop (ap path e))

path-new-join : (ps : List Text) → All IsSegment ps → path (new (join b'/' ps)) ≡ ps
unfolding path new
path-new-join ps h = scope_path-normalize_scope (join b'/' ps) ∙ scope_path-join ps h

new-join-path : (s : Text) → new (join b'/' (path (new s))) ≡ new s
unfolding path new
new-join-path s =
    ap new (sym (normalize_scope-join (normalize_scope s)) ∙ normalize_scope_twice s)
    ∙ ap made (normalize_scope_twice s)

-- Sending a text to the path of the scope that `new` makes of it is an equivalence between the texts,
-- up to the scope that is made of them, and the lists of segments, which are texts that are not
-- empty, trimmed and without a slash.
path_of_class-IsEquiv : IsEquiv path_of_class
unfolding path_of_class
path_of_class-IsEquiv = (iso_to_equiv between).1
  where
    between : Iso ScopeText Segments
    between = record {
      fun = path_of_class;
      inv = λ (ps, h). Quot.mk (join b'/' ps);
      rinv = λ (ps, h). Σ_prop_path segments-prop (path-new-join ps h);
      linv = Quot.ind (λ c. Quot-set _ _) (λ s. Quot.sound (new-join-path s));
    }
