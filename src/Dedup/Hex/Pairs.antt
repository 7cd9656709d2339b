-- ===== src/Dedup/Hex/Pairs.antt =====
-- The loop of `hex_decode` reads its bytes in pairs.
use rig_memory_policy.Prelude.{
  ℕ, zero, suc, ◌+◌, ◌*◌, List, [], ◌∷◌, ◌++◌, ◌≡◌, refl, sym, ap, ◌∙◌, Option, none, some, arith,
  length, get_elem?, set, replicate, ◌>>=◌, append_assoc, length-append, if◌then◌else◌, ◌==◌,
  Bool-cases, inl, inr, ==_iff,
}
use rig_memory_policy.Text.{Text}
use rig_memory_policy.Text.Utf8.{Bytes, as_bytes}
use rig_memory_policy.Dedup.Hex.{DedupKey, nibble, join_nibbles, decode_from, hex_decode}

-- Two digits make a byte, and so on.
unfoldable pub decode_pairs : Bytes → Option DedupKey
decode_pairs [] = some []
decode_pairs (a ∷ []) = none
decode_pairs (a ∷ b ∷ rest) = do
  hi ← nibble a
  lo ← nibble b
  k ← decode_pairs rest
  some (join_nibbles hi lo ∷ k)

module _ {ℓ} {A : Type ℓ} where
  get_elem?-append :
      (xs : List A) (y : A) (ys : List A) (i : ℕ)
      → length xs ≡ i
      → get_elem? (xs ++ y ∷ ys) i ≡ some y
  get_elem?-append [] y ys zero h = refl
  get_elem?-append [] y ys (suc i) h = absurd (omega arith)
  get_elem?-append (x ∷ xs) y ys zero h = absurd (omega arith)
  get_elem?-append (x ∷ xs) y ys (suc i) h = get_elem?-append xs y ys i (omega arith)

  set-append :
      (xs : List A) (y z : A) (ys : List A) (i : ℕ)
      → length xs ≡ i
      → set (xs ++ y ∷ ys) i z ≡ xs ++ z ∷ ys
  set-append [] y z ys zero h = refl
  set-append [] y z ys (suc i) h = absurd (omega arith)
  set-append (x ∷ xs) y z ys zero h = absurd (omega arith)
  set-append (x ∷ xs) y z ys (suc i) h = ap (◌∷◌ x) (set-append xs y z ys i (omega arith))

-- The three steps of a round, whichever of them fails.
round_steps :
    (done : DedupKey) (first second : Option ℕ) (others : Option DedupKey)
    (after : ℕ → ℕ → Option DedupKey)
    → ((hi lo : ℕ) → after hi lo ≡ (others >>= λ k. some (done ++ join_nibbles hi lo ∷ k)))
    → (first >>= λ hi. second >>= λ lo. after hi lo) ≡ (
        (first >>= λ hi. second >>= λ lo. others >>= λ k. some (join_nibbles hi lo ∷ k)) >>= λ k.
        some (done ++ k))
round_steps done none second others after h = refl
round_steps done (some hi) none others after h = refl
round_steps done (some hi) (some lo) none after h = h hi lo
round_steps done (some hi) (some lo) (some k) after h = h hi lo

next_slots :
    (left i v : ℕ) (done : DedupKey)
    → length done ≡ i
    → set (done ++ replicate (suc left) 0) i v ≡ (done ++ v ∷ []) ++ replicate left 0
next_slots left i v done h =
    set-append done 0 v (replicate left 0) i h ∙ sym (append_assoc done (v ∷ []) (replicate left 0))

-- Some rounds into the loop: the bytes before `i * 2` are read, and the first `i` slots are written.
decode_from-pairs :
    (left i : ℕ) (read rest : Bytes) (done : DedupKey)
    → length read ≡ i * 2
    → length rest ≡ left * 2
    → length done ≡ i
    → decode_from left i (read ++ rest) (done ++ replicate left 0)
      ≡ (decode_pairs rest >>= λ k. some (done ++ k))
unfolding decode_from decode_pairs
decode_from-pairs zero i read [] done hr hl hd = refl
decode_from-pairs zero i read (a ∷ rest) done hr hl hd = absurd (omega arith)
decode_from-pairs (suc left) i read [] done hr hl hd = absurd (omega arith)
decode_from-pairs (suc left) i read (a ∷ []) done hr hl hd = absurd (omega arith)
decode_from-pairs (suc left) i read (a ∷ b ∷ rest) done hr hl hd =
    rw (get_elem?-append read a (b ∷ rest) (i * 2) hr, second)
      (round_steps done (nibble a) (nibble b) (decode_pairs rest) _ λ hi lo.
        later (join_nibbles hi lo) (
          decode_from-pairs left (suc i) (read ++ a ∷ b ∷ []) rest (done ++ join_nibbles hi lo ∷ [])
            (omega (arith, length-append read (a ∷ b ∷ []))) (omega arith)
            (omega (arith, length-append done (join_nibbles hi lo ∷ [])))))
  where
    second : get_elem? (read ++ a ∷ b ∷ rest) (i * 2 + 1) ≡ some b
    second = rw append_assoc at (
        get_elem?-append (read ++ a ∷ []) b rest (i * 2 + 1)
          (omega (arith, length-append read (a ∷ []))))

    later :
        (v : ℕ)
        → decode_from left
            (suc i)
            ((read ++ a ∷ b ∷ []) ++ rest)
            ((done ++ v ∷ []) ++ replicate left 0)
          ≡ (decode_pairs rest >>= λ k. some ((done ++ v ∷ []) ++ k))
        → decode_from left (suc i) (read ++ a ∷ b ∷ rest) (set (done ++ replicate (suc left) 0) i v)
          ≡ (decode_pairs rest >>= λ k. some (done ++ v ∷ k))
    later v ih = rw (next_slots left i v done hd) (simp append_assoc (simp append_assoc at ih))

bind_some {ℓ} : {A : Type ℓ} (o : Option A) → (o >>= λ a. some a) ≡ o
bind_some none = refl
bind_some (some a) = refl

-- `hex_decode` takes 64 bytes, and reads them in pairs.
pub hex_decode_pairs :
    (hex : Text)
    → hex_decode hex ≡ (if length (as_bytes hex) == 64 then decode_pairs (as_bytes hex) else none)
unfolding hex_decode
hex_decode_pairs hex = elim (Bool-cases (length (as_bytes hex) == 64)) [
  | inl e ↦ rw e (
      decode_from-pairs 32 0 [] (as_bytes hex) [] refl ((==_iff _ 64).0 e) refl
      ∙ bind_some (decode_pairs (as_bytes hex)))
  | inr e ↦ rw e
]
