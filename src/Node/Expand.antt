-- ===== src/Node/Expand.antt =====
-- `NodeExpandVolume`.
use baiducloud_cce_csi_drive.Base.{
  String, Bool, false, ◌||◌, Option, none, some, ◌==◌, Exec, ◌>>=◌, ◌>>◌, pure, refuse_if,
  if◌then◌else◌,
}
use baiducloud_cce_csi_drive.Base.Int.{ℤ, pos, ltb_ℤ}
use baiducloud_cce_csi_drive.Csi.{Code, CapacityRange, VolumeCapability, is_block}
use baiducloud_cce_csi_drive.Node.Mounter.{Mounter, internal}

pub record NodeExpandRequest : Type 0 where
  pub volume_id : String
  pub volume_path : String
  pub volume_capability : Option VolumeCapability
  pub capacity_range : Option CapacityRange

-- The device does not meet the range: a limit that is not positive counts as the size itself.
unfoldable pub out_of_range : ℤ → Option CapacityRange → Bool
out_of_range size none = false
out_of_range size (some r) =
    ltb_ℤ (if ltb_ℤ (pos 0) r.limit_bytes then r.limit_bytes else size) size
    || ltb_ℤ size r.required_bytes

module _ {F : Type 0} (m : Mounter F) where
  unfoldable pub expand_path : String → Option CapacityRange → Exec F Code ℤ
  expand_path path range = do
    dev ← internal (m.get_device_name_from_mount path)
    size ← internal (m.get_device_size dev.0)
    refuse_if (out_of_range size range) Code.out_of_range
    internal (m.resize_fs dev.0 path)
    pure size

  -- The answer is the capacity in bytes, 0 where it is left out.
  unfoldable pub node_expand_volume : NodeExpandRequest → Exec F Code ℤ
  node_expand_volume req = do
    refuse_if (req.volume_id == "") Code.invalid_argument
    refuse_if (req.volume_path == "") Code.invalid_argument
    if is_block req.volume_capability
        then pure (pos 0)
        else expand_path req.volume_path req.capacity_range
