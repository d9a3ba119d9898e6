-- ===== src/Node/Published/Handler.antt =====
-- The whole of `NodePublishVolume`.
use baiducloud_cce_csi_drive.Base.{
  String, List, [], ◌∷◌, ◌==◌, ◌≡◌, refl, arith, ok, inl, inr, ◌⊎◌, Result-cases, Bool-cases,
  Option-cases,
}
use baiducloud_cce_csi_drive.Csi.{AccessType, block, no_access_type, mount}
use baiducloud_cce_csi_drive.Controller.Capability.{volume_caps, check_volume_capabilities}
use baiducloud_cce_csi_drive.Node.Mounter.{Mounter, value_of, access_type_of}
use baiducloud_cce_csi_drive.Node.Mounts.{View, IsMounter}
use baiducloud_cce_csi_drive.Node.Publish.{
  NodePublishRequest, publish_device, publish_dir, node_public_block_volume,
  node_publish_mount_volume, node_publish_volume,
}
use baiducloud_cce_csi_drive.Node.Published.{IsMounted, publish_device_ok, publish_dir_ok}

AccessType-cases :
    (a : AccessType)
    → (a ≡ block)
      ⊎ (a ≡ no_access_type)
      ⊎ ((fs_type : String) × (flags : List String) × (a ≡ mount fs_type flags))
AccessType-cases block = inl refl
AccessType-cases no_access_type = inr (inl refl)
AccessType-cases (mount fs_type flags) = inr (inr (fs_type, flags, refl))

module _ {F : Type 0} (m : Mounter F) (v : View F) (L : IsMounter m v) where
  block_ok :
      (req : NodePublishRequest) (s : F)
      → (node_public_block_volume m req s).0 ≡ ok tt
      → IsMounted m v L req.target_path (node_public_block_volume m req s).1
  unfolding node_public_block_volume
  block_ok req s h = elim (Bool-cases (req.volume_id == "")) [
    | inl a ↦ absurd (ground (arith, a))
    | inr a ↦ elim (Bool-cases (req.target_path == "")) [
      | inl b ↦ absurd (ground (arith, a, b))
      | inr b ↦ elim (Option-cases req.publish_context) [
        | inl c ↦ absurd (ground (arith, a, b, c))
        | inr (context, c) ↦ elim (Bool-cases (value_of "serial" context == "")) [
          | inl d ↦ absurd (ground (arith, a, b, c, d))
          | inr d ↦
              let run : node_public_block_volume m req s
                  ≡ publish_device m (value_of "serial" context) req.target_path req.readonly s =
                ground (arith, a, b, c, d) in
              rw run (
                publish_device_ok m v L (value_of "serial" context) req.target_path req.readonly s
                  (rw run at h))
        ]
      ]
    ]
  ]

  mount_ok :
      (req : NodePublishRequest) (flags : List String) (s : F)
      → (node_publish_mount_volume m req flags s).0 ≡ ok tt
      → IsMounted m v L req.target_path (node_publish_mount_volume m req flags s).1
  unfolding node_publish_mount_volume
  mount_ok req flags s h = elim (Bool-cases (req.volume_id == "")) [
    | inl a ↦ absurd (ground (arith, a))
    | inr a ↦ elim (Bool-cases (req.staging_target_path == "")) [
      | inl b ↦ absurd (ground (arith, a, b))
      | inr b ↦ elim (Bool-cases (req.target_path == "")) [
        | inl c ↦ absurd (ground (arith, a, b, c))
        | inr c ↦
            let run : node_publish_mount_volume m req flags s
                ≡ publish_dir m req.staging_target_path req.target_path req.readonly flags s =
              ground (arith, a, b, c) in
            rw run (
              publish_dir_ok m v L req.staging_target_path req.target_path req.readonly flags s
                (rw run at h))
      ]
    ]
  ]

  -- Over a mounter that acts as `IsMounter` says, after a successful publishing, as a block device
  -- or as a directory, the target path of the request exists, with something mounted over it.
  pub node_publish_volume_ok :
      (req : NodePublishRequest) (s : F)
      → (node_publish_volume m req s).0 ≡ ok tt
      → IsMounted m v L req.target_path (node_publish_volume m req s).1
  unfolding node_publish_volume
  node_publish_volume_ok req s h =
      elim (Result-cases (check_volume_capabilities volume_caps (req.volume_capability ∷ []))) [
        | inr (x, e) ↦ absurd (ground (arith, e))
        | inl (_, e) ↦ elim (AccessType-cases (access_type_of req.volume_capability)) [
          | inr (inl a) ↦ absurd (ground (arith, e, a))
          | inl a ↦
              let run : node_publish_volume m req s ≡ node_public_block_volume m req s =
                ground (arith, e, a) in
              rw run (block_ok req s (rw run at h))
          | inr (inr (fs_type, flags, a)) ↦
              let run : node_publish_volume m req s ≡ node_publish_mount_volume m req flags s =
                ground (arith, e, a) in
              rw run (mount_ok req flags s (rw run at h))
        ]
      ]
