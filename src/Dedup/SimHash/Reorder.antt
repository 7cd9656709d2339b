-- ===== src/Dedup/SimHash/Reorder.antt =====
-- The majorities over the hashes of the tokens, which do not depend on the order of the tokens.
use native.Mathlib.Nat.{ℕ_set}
use mathlib.Core.Logic.{∥∥₁_elim}
use mathlib.Core.List.{Permᴰ}
use rig_memory_policy.Prelude.{
  ℕ, zero, suc, ◌+◌, List, ◌≡◌, refl, ap, ◌∙◌, arith, if◌then◌else◌, Perm,
}
use rig_memory_policy.Prelude.Members.{length_perm}
use rig_memory_policy.Dedup.SimHash.{has_bit}
use rig_memory_policy.Dedup.SimHash.Columns.{votes}
use rig_memory_policy.Dedup.SimHash.Majority.{majority_word}

votes_permᴰ : (bit : ℕ) {l r : List ℕ} → Permᴰ l r → votes bit l ≡ votes bit r
votes_permᴰ bit Permᴰ.nil = refl
votes_permᴰ bit (Permᴰ.cons {a = a} e p) =
    rw (← e) (ap (λ n. (if has_bit a bit then 1 else 0) + n) (votes_permᴰ bit p))
votes_permᴰ bit (Permᴰ.swap {a = a} {b = b} {l = l} e e') = rw (← e, ← e') (omega arith)
votes_permᴰ bit (Permᴰ.trans p q) = votes_permᴰ bit p ∙ votes_permᴰ bit q

pub votes_perm : (bit : ℕ) (l r : List ℕ) → Perm l r → votes bit l ≡ votes bit r
votes_perm bit l r p = ∥∥₁_elim p (ℕ_set _ _) (votes_permᴰ bit)

pub majority_word_perm :
    (width bit : ℕ) (l r : List ℕ)
    → Perm l r
    → majority_word width bit l ≡ majority_word width bit r
unfolding majority_word
majority_word_perm zero bit l r p = refl
majority_word_perm (suc width) bit l r p =
    rw (votes_perm bit l r p, length_perm l r p, majority_word_perm width (suc bit) l r p) refl
