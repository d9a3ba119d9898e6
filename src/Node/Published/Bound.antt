-- ===== src/Node/Published/Bound.antt =====
-- Publishing a staged volume: the device that the target path shows.
use baiducloud_cce_csi_drive.Base.{
  String, Bool, true, false, some, List, [], ◌∷◌, ◌++◌, ◌==◌, ◌≡◌, ◌≢◌, ◌∙◌, refl, sym, arith, ok,
  inl, inr, eq_iff, if◌then◌else◌, Result-cases, Bool-cases,
}
use baiducloud_cce_csi_drive.Csi.{mount}
use baiducloud_cce_csi_drive.Controller.Capability.{volume_caps, check_volume_capabilities}
use baiducloud_cce_csi_drive.Node.Mounter.{Mounter, access_type_of}
use baiducloud_cce_csi_drive.Node.Mounts.{View, IsMounter}
use baiducloud_cce_csi_drive.Node.Stage.{ensure_dir}
use baiducloud_cce_csi_drive.Node.Publish.{
  NodePublishRequest, bind_options, bind_mount, publish_dir, node_publish_mount_volume,
  node_publish_volume,
}

-- What is relied on of a bind mount: the path shows the device of its source; and a device that has
-- a serial has a name.
pub record IsBinder {F : Type 0} (m : Mounter F) (v : View F) : Type 0 where
  pub bind_device :
      (source p : String) (options : List String) (s : F)
      → v.device s source ≢ ""
      → (m.mount source p "" ("bind" ∷ options) s).0 ≡ ok tt
      → v.device (m.mount source p "" ("bind" ∷ options) s).1 p ≡ v.device s source
  pub serial_named : (serial d : String) (s : F) → v.by_serial s serial ≡ some d → d ≢ ""

module _ {F : Type 0} (m : Mounter F) (v : View F) (L : IsMounter m v) (B : IsBinder m v) where
  ensure_dir-device :
      (b : Bool) (target p : String) (s : F) → v.device (ensure_dir m b target s).1 p ≡ v.device s p
  unfolding ensure_dir
  ensure_dir-device true target p s = refl
  ensure_dir-device false target p s = L.mkdir_device target p s

  bind_mount_bound :
      (source target : String) (readonly : Bool) (flags : List String) (s : F)
      → v.device s source ≢ ""
      → v.device s target ≡ ""
      → (bind_mount m source target (bind_options readonly flags) s).0 ≡ ok tt
      → v.device (bind_mount m source target (bind_options readonly flags) s).1 target
        ≡ v.device s source
  unfolding bind_mount bind_options
  bind_mount_bound source target readonly flags s named free h =
      let same = L.device_name_state target s in
      let options = (if readonly then "ro" ∷ [] else []) ++ flags in
      elim (Result-cases (m.get_device_name_from_mount target s).0) [
        | inr (x, e) ↦ absurd (ground (arith, e))
        | inl ((d, refs), e) ↦ ground (
          arith,
          e,
          same,
          eq_iff d "",
          L.device_name_ok target s d refs e,
          B.bind_device source target options s named,
        )
      ]

  publish_dir_bound :
      (source target : String) (readonly : Bool) (flags : List String) (s : F)
      → v.device s source ≢ ""
      → v.device s target ≡ ""
      → (publish_dir m source target readonly flags s).0 ≡ ok tt
      → v.device (publish_dir m source target readonly flags s).1 target ≡ v.device s source
  unfolding publish_dir
  publish_dir_bound source target readonly flags s named free h =
      let same = L.path_exists_state target s in
      elim (Result-cases (m.path_exists target s).0) [
        | inr (x, e) ↦ absurd (ground (arith, e))
        | inl (b, e) ↦ elim (Result-cases (ensure_dir m b target s).0) [
          | inr (x, f) ↦ absurd (ground (arith, e, same, f))
          | inl (_, f) ↦
              let t = (ensure_dir m b target s).1 in
              let kept = ensure_dir-device b target source s in
              let run : publish_dir m source target readonly flags s
                  ≡ bind_mount m source target (bind_options readonly flags) t =
                ground (arith, e, same, f) in
              rw run (
                bind_mount_bound source target readonly flags t (λ n. named (sym kept ∙ n))
                  (ensure_dir-device b target target s ∙ free) (rw run at h)
                ∙ kept)
        ]
      ]

  -- Over a mounter that acts as `IsMounter` and `IsBinder` say, after a successful publishing as a
  -- directory, at a target path where nothing was mounted, this path shows the device of the
  -- staging path.
  pub node_publish_volume_bound :
      (req : NodePublishRequest) (fs_type : String) (flags : List String) (s : F)
      → access_type_of req.volume_capability ≡ mount fs_type flags
      → v.device s req.staging_target_path ≢ ""
      → v.device s req.target_path ≡ ""
      → (node_publish_volume m req s).0 ≡ ok tt
      → v.device (node_publish_volume m req s).1 req.target_path
        ≡ v.device s req.staging_target_path
  unfolding node_publish_volume node_publish_mount_volume
  node_publish_volume_bound req fs_type flags s a named free h =
      elim (Result-cases (check_volume_capabilities volume_caps (req.volume_capability ∷ []))) [
        | inr (x, e) ↦ absurd (ground (arith, e))
        | inl (_, e) ↦ elim (Bool-cases (req.volume_id == "")) [
          | inl b ↦ absurd (ground (arith, e, a, b))
          | inr b ↦ elim (Bool-cases (req.staging_target_path == "")) [
            | inl c ↦ absurd (ground (arith, e, a, b, c))
            | inr c ↦ elim (Bool-cases (req.target_path == "")) [
              | inl d ↦ absurd (ground (arith, e, a, b, c, d))
              | inr d ↦
                  let run : node_publish_volume m req s
                      ≡ publish_dir m req.staging_target_path req.target_path req.readonly flags s =
                    ground (arith, e, a, b, c, d) in
                  rw run (
                    publish_dir_bound req.staging_target_path req.target_path req.readonly flags s
                      named free (rw run at h))
            ]
          ]
        ]
      ]
