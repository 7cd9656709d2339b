-- ===== src/Text/Utf8.antt =====
-- `str::as_bytes`: the UTF-8 encoding of a text.
use mathlib.Core.Path.{ap₂}
use rig_memory_policy.Prelude.{
  ℕ, ◌+◌, ◌/◌, ◌%◌, ◌<◌, ltb, List, [], ◌∷◌, ◌++◌, ◌≡◌, ◌≢◌, refl, sym, arith, All-append, All,
  if◌then◌else◌,
}
use rig_memory_policy.Text.{Text}

abbrev pub Bytes : Type 0
Bytes = List ℕ

-- The bytes of one scalar value.
unfoldable pub utf8 : ℕ → Bytes
utf8 c =
    if ltb c 0x80
    then c ∷ []
    else if ltb c 0x800
    then (0xc0 + c / 64) ∷ (0x80 + c % 64) ∷ []
    else if ltb c 0x10000
    then (0xe0 + c / 4096) ∷ (0x80 + c / 64 % 64) ∷ (0x80 + c % 64) ∷ []
    else (0xf0 + c / 262144) ∷ (0x80 + c / 4096 % 64) ∷ (0x80 + c / 64 % 64) ∷ (0x80 + c % 64) ∷ []

unfoldable pub as_bytes : Text → Bytes
as_bytes [] = []
as_bytes (c ∷ s) = utf8 c ++ as_bytes s

-- Every character of a `str` is below 0x110000.
abbrev pub IsText : Text → Type 0
IsText = All (λ c. c < 0x110000)

-- The encoding of a character can be told from what follows it.
utf8-prefix :
    (c d : ℕ) (s t : Bytes)
    → c < 0x110000
    → d < 0x110000
    → utf8 c ++ s ≡ utf8 d ++ t
    → (c ≡ d) × (s ≡ t)
unfolding utf8
utf8-prefix c d s t hc hd e = ground arith

utf8-ne-nil : (c : ℕ) (s : Bytes) → utf8 c ++ s ≢ []
unfolding utf8
utf8-ne-nil c s = ground arith

-- Different texts have different bytes.
pub as_bytes-injective : (s t : Text) → IsText s → IsText t → as_bytes s ≡ as_bytes t → s ≡ t
unfolding as_bytes
as_bytes-injective [] [] _ _ e = refl
as_bytes-injective [] (d ∷ t) _ _ e = absurd (utf8-ne-nil d (as_bytes t) (sym e))
as_bytes-injective (c ∷ s) [] _ _ e = absurd (utf8-ne-nil c (as_bytes s) e)
as_bytes-injective (c ∷ s) (d ∷ t) (hc, hs) (hd, ht) e =
    let (same, rest) = utf8-prefix c d (as_bytes s) (as_bytes t) hc hd e in
    ap₂ ◌∷◌ same (as_bytes-injective s t hs ht rest)

-- An ASCII text is its bytes.
pub as_bytes_ascii : (s : Text) → All (λ c. c < 0x80) s → as_bytes s ≡ s
unfolding as_bytes utf8
as_bytes_ascii [] _ = refl
as_bytes_ascii (c ∷ s) (hc, h) = ground (arith, as_bytes_ascii s h)

utf8-head_ascii :
    (c : ℕ) (s : Bytes) → All (λ b. b < 0x80) (utf8 c ++ s) → (c < 0x80) × All (λ b. b < 0x80) s
unfolding utf8
utf8-head_ascii c s h = ground arith

utf8-nonzero : (c : ℕ) → c ≢ 0 → All (λ b. b ≢ 0) (utf8 c)
unfolding utf8
utf8-nonzero c h = ground arith

-- So is one whose bytes are all below 0x80.
pub ascii_of_bytes : (s : Text) → All (λ b. b < 0x80) (as_bytes s) → All (λ c. c < 0x80) s
unfolding as_bytes
ascii_of_bytes [] _ = tt
ascii_of_bytes (c ∷ s) h =
    let (hc, rest) = utf8-head_ascii c (as_bytes s) h in (hc, ascii_of_bytes s rest)

-- No byte is zero unless a character is.
pub as_bytes-Lacks_zero : (s : Text) → All (λ c. c ≢ 0) s → All (λ b. b ≢ 0) (as_bytes s)
unfolding as_bytes
as_bytes-Lacks_zero [] _ = tt
as_bytes-Lacks_zero (c ∷ s) (hc, h) =
    All-append _ (utf8 c) (as_bytes s) (utf8-nonzero c hc) (as_bytes-Lacks_zero s h)
