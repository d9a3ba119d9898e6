-- ===== src/Node/Staged/Handler.antt =====
-- The whole of `NodeStageVolume`.
use baiducloud_cce_csi_drive.Base.{
  String, some, List, [], ◌∷◌, ◌==◌, ◌≡◌, arith, ok, inl, inr, if◌then◌else◌, Result-cases,
  Bool-cases,
}
use baiducloud_cce_csi_drive.Util.KeyMutex.{try_lock}
use baiducloud_cce_csi_drive.Csi.{mount}
use baiducloud_cce_csi_drive.Controller.Capability.{volume_caps, check_volume_capabilities}
use baiducloud_cce_csi_drive.Node.Mounter.{
  Mounter, NodeServer, default_fs_type, value_of, access_type_of,
}
use baiducloud_cce_csi_drive.Node.Mounts.{View, IsMounter}
use baiducloud_cce_csi_drive.Node.Stage.{StageRequest, stage_device, stage_mount, node_stage_volume}
use baiducloud_cce_csi_drive.Node.Staged.{IsStaged, stage_device_ok}

module _ {F : Type 0} (m : Mounter F) (v : View F) (L : IsMounter m v) where
  stage_mount_ok :
      (key : String) (req : StageRequest) (fs_type : String) (flags : List String)
      (context : List (String × String)) (s : NodeServer F)
      → req.publish_context ≡ some context
      → (stage_mount m key req fs_type flags s).0 ≡ ok tt
      → IsStaged m v L
          (value_of "serial" context)
          req.staging_target_path
          (stage_mount m key req fs_type flags s).1.node
  unfolding stage_mount
  stage_mount_ok key req fs_type flags context s c h =
      let serial = value_of "serial" context in
      let fs = if fs_type == "" then default_fs_type else fs_type in
      elim (Bool-cases (serial == "")) [
        | inl d ↦ absurd (ground (arith, c, d))
        | inr d ↦ elim (Bool-cases (try_lock key s.in_process_requests).0) [
          | inr l ↦ absurd (ground (arith, c, d, l))
          | inl l ↦
              let run : (stage_mount m key req fs_type flags s).0
                  ≡ (stage_device m serial req.staging_target_path fs flags s.node).0 =
                ground (arith, c, d, l) in
              let after : (stage_mount m key req fs_type flags s).1.node
                  ≡ (stage_device m serial req.staging_target_path fs flags s.node).1 =
                ground (arith, c, d, l) in
              rw after
                (stage_device_ok m v L serial req.staging_target_path fs flags s.node (rw run at h))
        ]
      ]

  -- Over a mounter that acts as `IsMounter` says, after a volume with a file system is staged
  -- successfully, the device with the serial of the publish context is mounted at the staging path
  -- of the request, which exists.
  pub node_stage_volume_ok :
      (key : String) (req : StageRequest) (fs_type : String) (flags : List String)
      (context : List (String × String)) (s : NodeServer F)
      → access_type_of req.volume_capability ≡ mount fs_type flags
      → req.publish_context ≡ some context
      → (node_stage_volume m key req s).0 ≡ ok tt
      → IsStaged m v L
          (value_of "serial" context)
          req.staging_target_path
          (node_stage_volume m key req s).1.node
  unfolding node_stage_volume
  node_stage_volume_ok key req fs_type flags context s a c h =
      elim (Bool-cases (req.volume_id == "")) [
        | inl d ↦ absurd (ground (arith, d))
        | inr d ↦ elim (Bool-cases (req.staging_target_path == "")) [
          | inl e ↦ absurd (ground (arith, d, e))
          | inr e ↦
              elim (Result-cases
                (check_volume_capabilities volume_caps (req.volume_capability ∷ []))) [
                  | inr (x, f) ↦ absurd (ground (arith, d, e, f))
                  | inl (_, f) ↦
                      let run : node_stage_volume m key req s
                          ≡ stage_mount m key req fs_type flags s =
                        ground (arith, d, e, f, a) in
                      rw run (stage_mount_ok key req fs_type flags context s c (rw run at h))
                ]
        ]
      ]
