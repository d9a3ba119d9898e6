-- ===== src/Controller/Capacity.antt =====
-- `getVolumeSizeGB` and `sizeInGBMeetCapRange`.
pub mod Laws
use baiducloud_cce_csi_drive.Base.{
  Bool, true, false, ◌&&◌, not, Option, none, some, Result, ok, err, if◌then◌else◌,
}
use baiducloud_cce_csi_drive.Base.Int.{ℤ, pos, ltb_ℤ, eqb_ℤ}
use baiducloud_cce_csi_drive.Util.Size.{round_up_gb, size_gb_to_bytes}
use baiducloud_cce_csi_drive.Csi.{CapacityRange}

abbrev pub default_volume_size_gb : ℤ
default_volume_size_gb = pos 100

pub data CapacityError : Type 0 where
  limit_below_required default_over_limit rounded_over_limit : CapacityError

unfoldable pub get_volume_size_gb : Option CapacityRange → Result CapacityError ℤ
get_volume_size_gb none = ok default_volume_size_gb
get_volume_size_gb (some r) =
    if ltb_ℤ (pos 0) r.limit_bytes && ltb_ℤ r.limit_bytes r.required_bytes
    then err limit_below_required
    else if eqb_ℤ r.required_bytes (pos 0)
    then (if ltb_ℤ (pos 0) r.limit_bytes
          && ltb_ℤ r.limit_bytes (size_gb_to_bytes default_volume_size_gb)
        then err default_over_limit
        else ok default_volume_size_gb)
    else if ltb_ℤ (pos 0) r.limit_bytes
        && ltb_ℤ r.limit_bytes (size_gb_to_bytes (round_up_gb r.required_bytes))
    then err rounded_over_limit
    else ok (round_up_gb r.required_bytes)

unfoldable pub size_in_gb_meet_cap_range : ℤ → Option CapacityRange → Bool
size_in_gb_meet_cap_range size none = false
size_in_gb_meet_cap_range size (some r) =
    let bytes = size_gb_to_bytes size in
    let limit = if eqb_ℤ r.limit_bytes (pos 0) then bytes else r.limit_bytes in
    not (ltb_ℤ bytes r.required_bytes) && not (ltb_ℤ limit bytes)
