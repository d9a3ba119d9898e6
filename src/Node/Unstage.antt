-- ===== src/Node/Unstage.antt =====
-- `NodeUnstageVolume` and `NodeUnpublishVolume`.
use baiducloud_cce_csi_drive.Base.{
  String, Bool, true, false, ◌==◌, Exec, ◌>>=◌, ◌>>◌, pure, refuse_if,
}
use baiducloud_cce_csi_drive.Base.Int.{pos, ltb_ℤ}
use baiducloud_cce_csi_drive.Csi.{Code}
use baiducloud_cce_csi_drive.Node.Mounter.{Mounter, internal}

-- Both requests name a volume and a path.
pub record PathRequest : Type 0 where
  pub volume_id : String
  pub target_path : String

module _ {F : Type 0} (m : Mounter F) where
  -- `if mounted { Unmount(path) }`
  unfoldable pub unmount_if : Bool → String → Exec F Code (Unit {0})
  unmount_if true path = internal (m.unmount path)
  unmount_if false path = pure tt

  -- What is mounted at the path is unmounted, and the path removed.
  unfoldable pub unstage_path : String → Exec F Code (Unit {0})
  unfolding unmount_if
  unstage_path path = do
    dev ← internal (m.get_device_name_from_mount path)
    unmount_if (ltb_ℤ (pos 0) dev.1) path
    internal (m.remove_path path)

  unfoldable pub node_unstage_volume : PathRequest → Exec F Code (Unit {0})
  node_unstage_volume req = do
    refuse_if (req.volume_id == "") Code.invalid_argument
    refuse_if (req.target_path == "") Code.invalid_argument
    exist ← internal (m.path_exists req.target_path)
    elim exist [ false ↦ pure tt | true ↦ unstage_path req.target_path ]

  unfoldable pub unpublish_path : String → Exec F Code (Unit {0})
  unfolding unmount_if
  unpublish_path path = do
    dev ← internal (m.get_device_name_from_mount path)
    elim (dev.0 == "") [ true ↦ pure tt | false ↦ unmount_if true path ]
    internal (m.remove_path path)

  unfoldable pub node_unpublish_volume : PathRequest → Exec F Code (Unit {0})
  node_unpublish_volume req = do
    refuse_if (req.volume_id == "") Code.invalid_argument
    refuse_if (req.target_path == "") Code.invalid_argument
    exist ← internal (m.path_exists req.target_path)
    elim exist [ false ↦ pure tt | true ↦ unpublish_path req.target_path ]
