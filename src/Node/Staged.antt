-- ===== src/Node/Staged.antt =====
-- Staging a volume, and staging it again.
pub mod Handler
use baiducloud_cce_csi_drive.Base.{
  String, Bool, true, false, some, List, ◌≡◌, ◌∙◌, sym, refl, arith, ok, inl, inr, Result-cases,
  eq_iff,
}
use baiducloud_cce_csi_drive.Node.Mounter.{Mounter}
use baiducloud_cce_csi_drive.Node.Mounts.{View, IsMounter}
use baiducloud_cce_csi_drive.Node.Stage.{ensure_dir, mount_at, stage_device}

module _ {F : Type 0} (m : Mounter F) (v : View F) (L : IsMounter m v) where
  -- The device with the serial is mounted at the path, and the path exists.
  pub record IsStaged (serial target : String) (s : F) : Type 0 where
    pub at_target : v.by_serial s serial ≡ some (v.device s target)
    pub target_exists : v.exists s target ≡ true

  pub ensure_dir_ok :
      (target : String) (b : Bool) (s : F)
      → b ≡ v.exists s target
      → (ensure_dir m b target s).0 ≡ ok tt
      → v.exists (ensure_dir m b target s).1 target ≡ true
  unfolding ensure_dir
  ensure_dir_ok target true s e h = sym e
  ensure_dir_ok target false s e h = L.mkdir_exists target s (ground (arith, h))

  ensure_dir_keeps :
      (target : String) (b : Bool) (s : F) (serial : String)
      → v.by_serial (ensure_dir m b target s).1 serial ≡ v.by_serial s serial
  unfolding ensure_dir
  ensure_dir_keeps target true s serial = refl
  ensure_dir_keeps target false s serial = L.mkdir_serial target serial s

  mount_at_ok :
      (source serial target fs_type : String) (flags : List String) (s : F)
      → v.by_serial s serial ≡ some source
      → v.exists s target ≡ true
      → (mount_at m source target fs_type flags s).0 ≡ ok tt
      → IsStaged serial target (mount_at m source target fs_type flags s).1
  unfolding mount_at
  mount_at_ok source serial target fs_type flags s known there h =
      let same = L.device_name_state target s in
      elim (Result-cases (m.get_device_name_from_mount target s).0) [
        | inr (x, e) ↦ absurd (ground (arith, e))
        | inl ((d, refs), e) ↦ ground (
          arith,
          e,
          same,
          eq_iff d source,
          L.device_name_ok target s d refs e,
          L.format_device source target fs_type flags s,
          L.format_exists source target target fs_type flags s,
          L.format_serial source target fs_type serial flags s,
        )
      ]

  -- Over a mounter that acts as `IsMounter` says, after steps 2 and 3 of a staging succeed the
  -- device with the serial is mounted at the target path, which exists.
  pub stage_device_ok :
      (serial target fs_type : String) (flags : List String) (s : F)
      → (stage_device m serial target fs_type flags s).0 ≡ ok tt
      → IsStaged serial target (stage_device m serial target fs_type flags s).1
  unfolding stage_device
  stage_device_ok serial target fs_type flags s h =
      let same = L.dev_path_state serial s in
      let same' = L.path_exists_state target s in
      elim (Result-cases (m.get_dev_path serial s).0) [
        | inr (x, e) ↦ absurd (ground (arith, e))
        | inl (source, e) ↦ elim (Result-cases (m.path_exists target s).0) [
          | inr (x, f) ↦ absurd (ground (arith, e, same, f))
          | inl (b, f) ↦ elim (Result-cases (ensure_dir m b target s).0) [
            | inr (x, g) ↦ absurd (ground (arith, e, same, f, same', g))
            | inl (_, g) ↦
                let t = (ensure_dir m b target s).1 in
                let run : stage_device m serial target fs_type flags s
                    ≡ mount_at m source target fs_type flags t =
                  ground (arith, e, same, f, same', g) in
                rw run (
                  mount_at_ok source serial target fs_type flags t
                    (ensure_dir_keeps target b s serial ∙ L.dev_path_ok serial s source e)
                    (ensure_dir_ok target b s (L.path_exists_ok target s b f) g) (rw run at h))
          ]
        ]
      ]

  -- Over a mounter that acts as `IsMounter` says, where the device with the serial is mounted at the
  -- target path already, staging changes nothing, whatever its result.
  pub stage_device_again :
      (serial target fs_type : String) (flags : List String) (s : F)
      → IsStaged serial target s
      → (stage_device m serial target fs_type flags s).1 ≡ s
  unfolding stage_device mount_at ensure_dir
  stage_device_again serial target fs_type flags s h =
      let same = L.dev_path_state serial s in
      let same' = L.path_exists_state target s in
      let same'' = L.device_name_state target s in
      elim (Result-cases (m.get_dev_path serial s).0) [
        | inr (x, e) ↦ ground (arith, e, same)
        | inl (source, e) ↦ elim (Result-cases (m.path_exists target s).0) [
          | inr (x, f) ↦ ground (arith, e, same, f, same')
          | inl (b, f) ↦ elim (Result-cases (m.get_device_name_from_mount target s).0) [
            | inr (x, g) ↦ ground (
              arith,
              e,
              same,
              f,
              same',
              g,
              same'',
              h.target_exists,
              L.path_exists_ok target s b f,
            )
            | inl ((d, refs), g) ↦ ground (
              arith,
              e,
              same,
              f,
              same',
              g,
              same'',
              h.target_exists,
              h.at_target,
              eq_iff d source,
              L.path_exists_ok target s b f,
              L.dev_path_ok serial s source e,
              L.device_name_ok target s d refs g,
            )
          ]
        ]
      ]
