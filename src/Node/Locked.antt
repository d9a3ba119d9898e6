-- ===== src/Node/Locked.antt =====
-- The locks of the node server while it stages volumes.
use baiducloud_cce_csi_drive.Base.{
  String, List, ◌≡◌, ◌⊎◌, refl, arith, inl, inr, Bool-cases, contains,
}
use baiducloud_cce_csi_drive.Util.KeyMutex.{try_lock}
use baiducloud_cce_csi_drive.Util.KeyMutex.Locks.{unlock-try_lock}
use baiducloud_cce_csi_drive.Csi.{AccessType, block, no_access_type, mount}
use baiducloud_cce_csi_drive.Node.Mounter.{Mounter, NodeServer, access_type_of}
use baiducloud_cce_csi_drive.Node.Stage.{StageRequest, stage_mount, node_stage_volume}

AccessType-cases :
    (t : AccessType)
    → (t ≡ block)
      ⊎ (t ≡ no_access_type)
      ⊎ ((fs_type : String) × (flags : List String) × (t ≡ mount fs_type flags))
AccessType-cases block = inl refl
AccessType-cases no_access_type = inr (inl refl)
AccessType-cases (mount fs_type flags) = inr (inr (fs_type, flags, refl))

module _ {F : Type 0} (m : Mounter F) where
  in_process-stage_mount :
      (key : String) (req : StageRequest) (fs_type : String) (flags : List String)
      (s : NodeServer F)
      → (stage_mount m key req fs_type flags s).1.in_process_requests ≡ s.in_process_requests
  unfolding stage_mount try_lock
  in_process-stage_mount key req fs_type flags s =
      elim (Bool-cases (contains key s.in_process_requests.kv)) [
        | inl e ↦ ground (arith, e)
        | inr e ↦ ground (arith, e, unlock-try_lock key s.in_process_requests e)
      ]

  -- A request to stage a volume leaves the locks as it found them, whatever its outcome.
  pub in_process-node_stage_volume :
      (key : String) (req : StageRequest) (s : NodeServer F)
      → (node_stage_volume m key req s).1.in_process_requests ≡ s.in_process_requests
  unfolding node_stage_volume
  in_process-node_stage_volume key req s =
      elim (AccessType-cases (access_type_of req.volume_capability)) [
        | inl e ↦ ground (arith, e)
        | inr (inl e) ↦ ground (arith, e)
        | inr (inr (fs_type, flags, e)) ↦
            ground (arith, e, in_process-stage_mount key req fs_type flags s)
      ]
