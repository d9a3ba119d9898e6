-- ===== src/Node/Stage.antt =====
-- `NodeStageVolume`.
use baiducloud_cce_csi_drive.Base.{
  String, Bool, true, false, not, Option, none, some, List, [], ◌∷◌, ◌==◌, ok, Exec, ◌>>=◌, ◌>>◌,
  pure, fail, lift, or_fail, refuse_if, finally, if◌then◌else◌,
}
use baiducloud_cce_csi_drive.Util.KeyMutex.{try_lock, unlock}
use baiducloud_cce_csi_drive.Csi.{Code, block, no_access_type, mount, StringMap, VolumeCapability}
use baiducloud_cce_csi_drive.Controller.Capability.{volume_caps, check_volume_capabilities}
use baiducloud_cce_csi_drive.Node.Mounter.{
  Mounter, NodeServer, internal, on_node, default_fs_type, value_of, access_type_of,
}

pub record StageRequest : Type 0 where
  pub volume_id : String
  pub staging_target_path : String
  pub volume_capability : Option VolumeCapability
  pub publish_context : StringMap

module _ {F : Type 0} (m : Mounter F) where
  -- `if !exist { MkdirAll(path) }`
  unfoldable pub ensure_dir : Bool → String → Exec F Code (Unit {0})
  ensure_dir true path = pure tt
  ensure_dir false path = internal (m.mkdir_all path)

  -- Nothing where the device is mounted at the path already; step 3 otherwise.
  unfoldable pub mount_at : String → String → String → List String → Exec F Code (Unit {0})
  mount_at source target fs_type flags = do
    dev ← internal (m.get_device_name_from_mount target)
    if dev.0 == source then pure tt else internal (m.format_and_mount source target fs_type flags)

  -- Steps 2 and 3, while the request is locked.
  unfoldable pub stage_device : String → String → String → List String → Exec F Code (Unit {0})
  stage_device serial target fs_type flags = do
    source ← internal (m.get_dev_path serial)
    exist ← internal (m.path_exists target)
    ensure_dir exist target
    mount_at source target fs_type flags

  -- The checks of the publish context, and the lock of the request under `key`.
  unfoldable pub stage_mount :
      String → StageRequest → String → List String → Exec (NodeServer F) Code (Unit {0})
  stage_mount key req fs_type flags = do
    context ← (elim req.publish_context [ none ↦ fail Code.invalid_argument | some c ↦ pure c ])
    refuse_if (value_of "serial" context == "") Code.invalid_argument
    locked ← (λ s.
        let (b, mutex) = try_lock key s.in_process_requests in
        (ok b, record s { in_process_requests = mutex }))
    refuse_if (not locked) Code.aborted
    finally
        (on_node (
          stage_device (value_of "serial" context) req.staging_target_path
            (if fs_type == "" then default_fs_type else fs_type) flags))
        (λ s. record s { in_process_requests = unlock key s.in_process_requests })

  unfoldable pub node_stage_volume : String → StageRequest → Exec (NodeServer F) Code (Unit {0})
  node_stage_volume key req = do
    refuse_if (req.volume_id == "") Code.invalid_argument
    refuse_if (req.staging_target_path == "") Code.invalid_argument
    or_fail (lift (check_volume_capabilities volume_caps (req.volume_capability ∷ [])))
        (λ _. Code.failed_precondition)
    elim (access_type_of req.volume_capability) [
      | block ↦ pure tt
      | no_access_type ↦ fail Code.invalid_argument
      | mount fs_type flags ↦ stage_mount key req fs_type flags
    ]
