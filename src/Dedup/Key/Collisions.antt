-- ===== src/Dedup/Key/Collisions.antt =====
-- Which entries share a key: NUL separates the fields only if they hold none.
use mathlib.Core.Path.{ap₂}
use mathlib.Core.List.{flatten}
use rig_memory_policy.Prelude.{
  Bool, true, false, [], ◌∷◌, ◌++◌, Option, none, some, ◌≡◌, ◌≢◌, ◌⊎◌, ◌↔◌, inl, inr, refl, sym, ap,
  ◌∙◌, All, append_assoc, append-nil, Bool-cases,
}
use rig_memory_policy.Text.{Text, text_eq, text_eq_iff}
use rig_memory_policy.Text.Utf8.{
  Bytes, utf8, as_bytes, IsText, as_bytes-injective, as_bytes-Lacks_zero,
}
use rig_memory_policy.Dedup.Hex.{DedupKey}
use rig_memory_policy.Dedup.Key.{Blake3, IsBlake3, scope_text, compute_key}

-- The five fields of an entry.
pub record Entry : Type 0 where
  pub kind : Text
  pub conversation_id : Text
  pub role : Text
  pub scope : Option Text
  pub text : Text

abbrev pub key_of : Blake3 → Entry → DedupKey
key_of b e = compute_key b e.kind e.conversation_id e.role e.scope e.text

-- What is hashed.
abbrev pub preimage : Entry → Bytes
preimage e =
    as_bytes e.kind
    ++ 0
      ∷ (as_bytes e.conversation_id
          ++ 0 ∷ (as_bytes e.role ++ 0 ∷ (as_bytes (scope_text e.scope) ++ 0 ∷ as_bytes e.text)))

-- No field but the text holds NUL.
pub record IsSeparable (e : Entry) : Type 0 where
  pub kind : IsText e.kind × All (λ c. c ≢ 0) e.kind
  pub conversation_id : IsText e.conversation_id × All (λ c. c ≢ 0) e.conversation_id
  pub role : IsText e.role × All (λ c. c ≢ 0) e.role
  pub scope : IsText (scope_text e.scope) × All (λ c. c ≢ 0) (scope_text e.scope)
  pub text : IsText e.text

-- Equal in every field, but that no scope and an empty scope count as equal.
abbrev pub SameFields : Entry → Entry → Type 0
SameFields e e' =
    (e.kind ≡ e'.kind)
    × (e.conversation_id ≡ e'.conversation_id)
    × (e.role ≡ e'.role)
    × (scope_text e.scope ≡ scope_text e'.scope)
    × (e.text ≡ e'.text)

-- What is hashed for two entries differs, and has one hash.
abbrev pub Collide : Blake3 → Entry → Entry → Type 0
Collide b e e' = (preimage e ≢ preimage e') × (b.hash (preimage e) ≡ b.hash (preimage e'))

cut_at_zero :
    (a a' x y : Bytes)
    → All (λ c. c ≢ 0) a
    → All (λ c. c ≢ 0) a'
    → a ++ 0 ∷ x ≡ a' ++ 0 ∷ y
    → (a ≡ a') × (x ≡ y)
cut_at_zero [] [] x y _ _ e = (refl, cc e)
cut_at_zero [] (d ∷ a') x y _ (hd, _) e = absurd (hd (cc e))
cut_at_zero (c ∷ a) [] x y (hc, _) _ e = absurd (hc (cc e))
cut_at_zero (c ∷ a) (d ∷ a') x y (hc, ha) (hd, ha') e =
    let (same, rest) = cut_at_zero a a' x y ha ha' (cc e) in (ap₂ ◌∷◌ (cc e) same, rest)

-- A field in front of a NUL can be read off.
cut_field :
    (s t : Text) (x y : Bytes)
    → IsText s × All (λ c. c ≢ 0) s
    → IsText t × All (λ c. c ≢ 0) t
    → as_bytes s ++ 0 ∷ x ≡ as_bytes t ++ 0 ∷ y
    → (s ≡ t) × (x ≡ y)
cut_field s t x y (is, zs) (it, zt) e =
    let (same, rest) =
      cut_at_zero (as_bytes s) (as_bytes t) x y (as_bytes-Lacks_zero s zs)
        (as_bytes-Lacks_zero t zt) e in
    (as_bytes-injective s t is it same, rest)

preimage-injective :
    (e e' : Entry) → IsSeparable e → IsSeparable e' → preimage e ≡ preimage e' → SameFields e e'
preimage-injective e e' h h' p =
    let (kinds, p₁) = cut_field e.kind e'.kind _ _ h.kind h'.kind p in
    let (ids, p₂) =
      cut_field e.conversation_id e'.conversation_id _ _ h.conversation_id h'.conversation_id p₁ in
    let (roles, p₃) = cut_field e.role e'.role _ _ h.role h'.role p₂ in
    let (scopes, p₄) =
      cut_field (scope_text e.scope) (scope_text e'.scope) _ _ h.scope h'.scope p₃ in
    (kinds, ids, roles, scopes, as_bytes-injective e.text e'.text h.text h'.text p₄)

as_bytes-append_zero : (s t : Text) → as_bytes (s ++ 0 ∷ t) ≡ as_bytes s ++ 0 ∷ as_bytes t
unfolding as_bytes utf8
as_bytes-append_zero [] t = refl
as_bytes-append_zero (c ∷ s) t =
    rw (as_bytes-append_zero s t) (sym (append_assoc (utf8 c) (as_bytes s) (0 ∷ as_bytes t)))

differ : {q : Bool} → q ≡ false → q ≡ true → ⊥
differ q r = cc

module _ (b : Blake3) (h : IsBlake3 b) where
  -- The key is the hash of the fields, joined by NUL.
  compute_key-hash : (e : Entry) → key_of b e ≡ b.hash (preimage e)
  unfolding compute_key flatten
  compute_key-hash e =
      h.incremental (
        as_bytes e.kind
        ∷ (0 ∷ [])
        ∷ as_bytes e.conversation_id
        ∷ (0 ∷ [])
        ∷ as_bytes e.role
        ∷ (0 ∷ [])
        ∷ as_bytes (scope_text e.scope)
        ∷ (0 ∷ [])
        ∷ as_bytes e.text
        ∷ [])
      ∙ rw (append-nil (as_bytes e.text))

  alike_preimage : (e e' : Entry) → SameFields e e' → preimage e ≡ preimage e'
  alike_preimage e e' (kinds, ids, roles, scopes, texts) =
      rw (kinds, ids, roles, scopes, texts) refl

  shared_cases :
      (e e' : Entry)
      → IsSeparable e
      → IsSeparable e'
      → key_of b e ≡ key_of b e'
      → SameFields e e' ⊎ Collide b e e'
  shared_cases e e' s s' p =
      let hashes = sym (compute_key-hash e) ∙ p ∙ compute_key-hash e' in
      elim (Bool-cases (text_eq (preimage e) (preimage e'))) [
        | inl q ↦ inl (preimage-injective e e' s s' ((text_eq_iff _ _).0 q))
        | inr q ↦ inr ((λ r. differ q ((text_eq_iff _ _).1 r)), hashes)
      ]

  -- With a hasher as `IsBlake3` says, two entries without NUL in the first four fields share a key
  -- exactly if they agree in every field, where no scope and an empty scope count as equal, or what is
  -- hashed for the one and for the other differs and is a collision.
  pub compute_key-eq_iff :
      (e e' : Entry)
      → IsSeparable e
      → IsSeparable e'
      → (key_of b e ≡ key_of b e') ↔ (SameFields e e' ⊎ Collide b e e')
  compute_key-eq_iff e e' s s' = (
    shared_cases e e' s s',
    elim [
      | inl alike ↦
          compute_key-hash e ∙ ap b.hash (alike_preimage e e' alike) ∙ sym (compute_key-hash e')
      | inr (_, one_hash) ↦ compute_key-hash e ∙ one_hash ∙ sym (compute_key-hash e')
    ],
  )

  -- With a hasher as `IsBlake3` says, different entries can share a key: a NUL in the kind can stand
  -- for the one behind it, and no scope for an empty one.
  pub compute_key_shared :
      (kind part conversation_id role text : Text) (scope : Option Text)
      → (compute_key b (kind ++ 0 ∷ part) conversation_id role scope text
          ≡ compute_key b kind (part ++ 0 ∷ conversation_id) role scope text)
        × (compute_key b kind conversation_id role none text
            ≡ compute_key b kind conversation_id role (some []) text)
  unfolding compute_key
  compute_key_shared kind part conversation_id role text scope = (
    compute_key-hash (entry (kind ++ 0 ∷ part) conversation_id)
        ∙ ap b.hash (
            rw (as_bytes-append_zero kind part, as_bytes-append_zero part conversation_id)
              (simp append_assoc))
        ∙ sym (compute_key-hash (entry kind (part ++ 0 ∷ conversation_id))),
    refl,
  )
    where
      entry : Text → Text → Entry
      entry k c = record { kind = k; conversation_id = c; role = role; scope = scope; text = text }
