-- ===== src/Node/Publish.antt =====
-- `NodePublishVolume`, as a block device or as a directory.
use baiducloud_cce_csi_drive.Base.{
  String, Bool, true, false, Option, none, some, List, [], ◌∷◌, ◌++◌, ◌==◌, Exec, ◌>>=◌, ◌>>◌, pure,
  fail, lift, or_fail, refuse_if, if◌then◌else◌,
}
use baiducloud_cce_csi_drive.Util.FilePath.{dir}
use baiducloud_cce_csi_drive.Csi.{Code, block, no_access_type, mount, StringMap, VolumeCapability}
use baiducloud_cce_csi_drive.Controller.Capability.{volume_caps, check_volume_capabilities}
use baiducloud_cce_csi_drive.Node.Mounter.{Mounter, internal, value_of, access_type_of}
use baiducloud_cce_csi_drive.Node.Stage.{ensure_dir}

pub record NodePublishRequest : Type 0 where
  pub volume_id : String
  pub staging_target_path : String
  pub target_path : String
  pub volume_capability : Option VolumeCapability
  pub publish_context : StringMap
  pub readonly : Bool

unfoldable pub bind_options : Bool → List String → List String
bind_options readonly flags = ("bind" ∷ (if readonly then "ro" ∷ [] else [])) ++ flags

module _ {F : Type 0} (m : Mounter F) where
  -- The last part of both: nothing where something is mounted, a bind mount otherwise.
  unfoldable pub bind_mount : String → String → List String → Exec F Code (Unit {0})
  bind_mount source target options = do
    dev ← internal (m.get_device_name_from_mount target)
    if dev.0 == "" then internal (m.mount source target "" options) else pure tt

  -- `if !exist` of the block volume: its directory, and a file to mount on.
  unfoldable pub ensure_file : Bool → String → Exec F Code (Unit {0})
  ensure_file true path = pure tt
  ensure_file false path = do internal (m.mkdir_all (dir path)); internal (m.make_file path)

  unfoldable pub publish_device : String → String → Bool → Exec F Code (Unit {0})
  unfolding ensure_file bind_mount
  publish_device serial target readonly = do
    source ← internal (m.get_dev_path serial)
    exist ← internal (m.path_exists target)
    ensure_file exist target
    bind_mount source target (bind_options readonly [])

  -- nodePublicBlockVolume
  unfoldable pub node_public_block_volume : NodePublishRequest → Exec F Code (Unit {0})
  node_public_block_volume req = do
    refuse_if (req.volume_id == "") Code.invalid_argument
    refuse_if (req.target_path == "") Code.invalid_argument
    context ← (elim req.publish_context [ none ↦ fail Code.invalid_argument | some c ↦ pure c ])
    refuse_if (value_of "serial" context == "") Code.invalid_argument
    publish_device (value_of "serial" context) req.target_path req.readonly

  unfoldable pub publish_dir : String → String → Bool → List String → Exec F Code (Unit {0})
  unfolding ensure_dir bind_mount
  publish_dir source target readonly flags = do
    exist ← internal (m.path_exists target)
    ensure_dir m exist target
    bind_mount source target (bind_options readonly flags)

  unfoldable pub node_publish_mount_volume :
      NodePublishRequest → List String → Exec F Code (Unit {0})
  node_publish_mount_volume req flags = do
    refuse_if (req.volume_id == "") Code.invalid_argument
    refuse_if (req.staging_target_path == "") Code.invalid_argument
    refuse_if (req.target_path == "") Code.invalid_argument
    publish_dir req.staging_target_path req.target_path req.readonly flags

  unfoldable pub node_publish_volume : NodePublishRequest → Exec F Code (Unit {0})
  node_publish_volume req = do
    or_fail (lift (check_volume_capabilities volume_caps (req.volume_capability ∷ [])))
        (λ _. Code.failed_precondition)
    elim (access_type_of req.volume_capability) [
      | block ↦ node_public_block_volume req
      | mount fs_type flags ↦ node_publish_mount_volume req flags
      | no_access_type ↦ fail Code.invalid_argument
    ]
