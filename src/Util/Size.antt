-- ===== src/Util/Size.antt =====
-- pkg/util/util.go: sizes in bytes and in GB, as `int64`.
pub mod Laws
use baiducloud_cce_csi_drive.Base.{ℕ, suc, ◌-◌, ◌*◌}
use baiducloud_cce_csi_drive.Base.Int.{ℤ, pos, negsuc, ◌+ℤ◌, wrap64, quot}

abbrev pub gb : ℕ
gb = 1024 * 1024 * 1024

-- (bytes + unit - 1) / unit, with the sum and the difference wrapped.
pub round_up_size : ℤ → ℕ → ℤ
unfolding wrap64 quot ◌+ℤ◌
round_up_size bytes unit = quot (wrap64 (wrap64 (bytes +ℤ pos unit) +ℤ negsuc 0)) unit

unfoldable pub round_up_gb : ℤ → ℤ
unfolding round_up_size
round_up_gb bytes = round_up_size bytes gb

scale : ℕ → ℤ → ℤ
scale k (pos n) = pos (k * n)
scale k (negsuc n) = negsuc (k * suc n - 1)

unfoldable pub size_gb_to_bytes : ℤ → ℤ
unfolding scale wrap64
size_gb_to_bytes n = wrap64 (scale gb n)
