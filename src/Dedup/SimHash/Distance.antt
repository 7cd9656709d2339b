-- ===== src/Dedup/SimHash/Distance.antt =====
-- The Hamming distance of fingerprints.
use rig_memory_policy.Prelude.{◌+◌, ◌^◌, ◌≤◌, ◌<◌, ◌≡◌, ◌↔◌}
use rig_memory_policy.Bits.{
  count_ones_symm, count_ones-triangle, count_ones_self, count_ones-eq_zero, count_ones-le_width,
}
use rig_memory_policy.Dedup.SimHash.{SimHash, hamming_distance}

-- On fingerprints below 2^64 the Hamming distance is a metric: it is zero exactly between equal ones,
-- the same both ways, and no longer over a third fingerprint; it is at most 64.
pub hamming_distance-metric :
    (s t r : SimHash)
    → s.value < 2 ^ 64
    → t.value < 2 ^ 64
    → ((hamming_distance s t ≡ 0) ↔ (s.value ≡ t.value))
      × (hamming_distance s t ≡ hamming_distance t s)
      × (hamming_distance s r ≤ hamming_distance s t + hamming_distance t r)
      × (hamming_distance s t ≤ 64)
unfolding hamming_distance
hamming_distance-metric s t r hs ht = (
  (count_ones-eq_zero 64 s.value t.value hs ht, λ e. rw e (count_ones_self 64 t.value)),
  count_ones_symm 64 s.value t.value,
  count_ones-triangle 64 s.value t.value r.value,
  count_ones-le_width 64 _,
)
