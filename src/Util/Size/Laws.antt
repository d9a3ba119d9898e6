-- ===== src/Util/Size/Laws.antt =====
-- Rounding up to GB: the least size that covers a request, and what overflow makes of it.
use baiducloud_cce_csi_drive.Base.{ℕ, ◌+◌, ◌-◌, ◌*◌, ◌/◌, ◌≤◌, ◌<◌, ◌^◌, ◌≡◌, arith, ap, ◌∙◌}
use baiducloud_cce_csi_drive.Base.Int.{pos, ltb_ℤ}
use baiducloud_cce_csi_drive.Base.{true}
use baiducloud_cce_csi_drive.Util.Size.{gb, round_up_gb, size_gb_to_bytes}

pub round_up_gb_small : (n : ℕ) → n + gb ≤ 2 ^ 63 → round_up_gb (pos n) ≡ pos ((n + gb - 1) / gb)
unfolding round_up_gb
round_up_gb_small n h = ground arith

pub size_gb_to_bytes_small : (n : ℕ) → n * gb < 2 ^ 63 → size_gb_to_bytes (pos n) ≡ pos (n * gb)
unfolding size_gb_to_bytes
size_gb_to_bytes_small n h = ground arith

-- For a size of at most 2^63 - 2^30 bytes, rounding up gives a number of GB that
-- covers the size and exceeds it by less than one GB, and its size in bytes does not wrap.
pub size_gb_to_bytes-round_up_gb :
    (n : ℕ)
    → n + gb ≤ 2 ^ 63
    → (g : ℕ) × (round_up_gb (pos n) ≡ pos g)
      × (size_gb_to_bytes (round_up_gb (pos n)) ≡ pos (g * gb))
      × (n ≤ g * gb)
      × (g * gb < n + gb)
size_gb_to_bytes-round_up_gb n h = (
  (n + gb - 1) / gb,
  round_up_gb_small n h,
  ap size_gb_to_bytes (round_up_gb_small n h)
      ∙ size_gb_to_bytes_small ((n + gb - 1) / gb) (omega arith),
  omega arith,
  omega arith,
)

-- A size within one GB of the largest `int64` overflows, and rounds up to a negative number.
pub round_up_gb_overflow :
    (n : ℕ) → 2 ^ 63 < n + gb → n < 2 ^ 63 → ltb_ℤ (round_up_gb (pos n)) (pos 0) ≡ true
unfolding round_up_gb
round_up_gb_overflow n lo hi = ground arith
