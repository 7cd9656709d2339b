-- ===== src/Reconcile/History.antt =====
-- What an `ExactHashResolver` answers after any sequence of observations.
use rig_memory_policy.Prelude.{
  Bool, ◌||◌, List, [], ◌∷◌, ◌++◌, map, ◌≡◌, refl, ◌∙◌, arith, any, any-append, if◌then◌else◌,
}
use rig_memory_policy.Text.{Text, text_eq, text_eq_iff}
use rig_memory_policy.Text.Utf8.{as_bytes}
use rig_memory_policy.HashSet.{member, member-add, member-collect}
use rig_memory_policy.Dedup.Hex.{DedupKey, IsKey, hex_encode, hex_encode_key}
use rig_memory_policy.Dedup.Hex.RoundTrip.{hex_encode-injective}
use rig_memory_policy.Dedup.Key.{Blake3, IsBlake3}
use rig_memory_policy.Reconcile.{
  ReconcileOp, ExactHashResolver, content_hash, new, observe, exact_hash, reconcile,
}

hex_encode-text_eq :
    (k j : DedupKey) → IsKey k → IsKey j → text_eq (hex_encode k) (hex_encode j) ≡ text_eq k j
hex_encode-text_eq k j hk hj = ground (
  arith,
  text_eq_iff k j,
  text_eq_iff (hex_encode k) (hex_encode j),
  hex_encode-injective k j hk hj,
)

module _ (b : Blake3) where
  -- Observations one after another.
  abbrev pub observe_all : ExactHashResolver → List Text → ExactHashResolver
  observe_all r [] = r
  observe_all r (text ∷ texts) = observe_all (observe b r text) texts

  -- Two texts have one hash.
  abbrev pub same_hash : Text → Text → Bool
  same_hash incoming text = text_eq (b.hash (as_bytes text)) (b.hash (as_bytes incoming))

  member-observe_all :
      (k : Text) (r : ExactHashResolver) (texts : List Text)
      → member k (observe_all r texts).seen
        ≡ (member k r.seen || any (λ t. text_eq (content_hash b t) k) texts)
  unfolding observe
  member-observe_all k r [] = ground arith
  member-observe_all k r (t ∷ texts) =
      ground
        (arith, member-observe_all k (observe b r t) texts, member-add (content_hash b t) k r.seen)

  any-collect :
      (k : Text) (texts : List Text)
      → any (λ j. text_eq j k) (map (content_hash b) texts)
        ≡ any (λ t. text_eq (content_hash b t) k) texts
  any-collect k [] = refl
  any-collect k (t ∷ texts) = ground (arith, any-collect k texts)

module _ (b : Blake3) (h : IsBlake3 b) where
  any-content_hash :
      (incoming : Text) (texts : List Text)
      → any (λ t. text_eq (content_hash b t) (content_hash b incoming)) texts
        ≡ any (same_hash b incoming) texts
  unfolding content_hash hex_encode_key
  any-content_hash incoming [] = refl
  any-content_hash incoming (t ∷ texts) = ground (
    arith,
    any-content_hash incoming texts,
    hex_encode-text_eq (b.hash (as_bytes t)) (b.hash (as_bytes incoming))
        (h.hash-IsKey (as_bytes t)) (h.hash-IsKey (as_bytes incoming)),
  )

  -- With a hasher as `IsBlake3` says, the resolver answers `Noop` if the incoming text has the hash
  -- of a text that it was made with or that it observed later, and `Add` in every other case.
  pub reconcile-observe_all :
      (existing observed : List Text) (incoming : Text)
      → (exact_hash b).reconcile (observe_all b (new b existing) observed) incoming ≡ (
          if any (same_hash b incoming) (existing ++ observed)
          then ReconcileOp.noop
          else ReconcileOp.add)
  unfolding reconcile new
  reconcile-observe_all existing observed incoming =
      let k = content_hash b incoming in
      let held = member-collect k (map (content_hash b) existing) ∙ any-collect b k existing in
      rw
        (
          member-observe_all b k (new b existing) observed,
          held,
          any-content_hash incoming existing,
          any-content_hash incoming observed,
          any-append (same_hash b incoming) existing observed,
        )
        refl
