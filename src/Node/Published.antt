-- ===== src/Node/Published.antt =====
-- Publishing a volume, publishing it again, and the size of the device of an expanded volume.
pub mod Handler
pub mod Bound
use baiducloud_cce_csi_drive.Base.{
  String, Bool, true, false, some, Option, List, [], ◌≡◌, ◌≢◌, sym, arith, ok, inl, inr,
  Result-cases, Bool-cases, eq_iff,
}
use baiducloud_cce_csi_drive.Base.Int.{ℤ, pos, ltb_ℤ}
use baiducloud_cce_csi_drive.Util.FilePath.{dir}
use baiducloud_cce_csi_drive.Csi.{CapacityRange, is_block}
use baiducloud_cce_csi_drive.Node.Mounter.{Mounter}
use baiducloud_cce_csi_drive.Node.Mounts.{View, IsMounter}
use baiducloud_cce_csi_drive.Node.Stage.{ensure_dir}
use baiducloud_cce_csi_drive.Node.Staged.{ensure_dir_ok}
use baiducloud_cce_csi_drive.Node.Publish.{
  bind_options, bind_mount, ensure_file, publish_device, publish_dir,
}
use baiducloud_cce_csi_drive.Node.Expand.{
  NodeExpandRequest, out_of_range, expand_path, node_expand_volume,
}

module _ {F : Type 0} (m : Mounter F) (v : View F) (L : IsMounter m v) where
  -- Something is mounted at the path, and the path exists.
  pub record IsMounted (target : String) (s : F) : Type 0 where
    pub covered : v.device s target ≢ ""
    pub target_exists : v.exists s target ≡ true

  bind_mount_ok :
      (source target : String) (options : List String) (s : F)
      → v.exists s target ≡ true
      → (bind_mount m source target options s).0 ≡ ok tt
      → IsMounted target (bind_mount m source target options s).1
  unfolding bind_mount
  bind_mount_ok source target options s there h =
      let same = L.device_name_state target s in
      elim (Result-cases (m.get_device_name_from_mount target s).0) [
        | inr (x, e) ↦ absurd (ground (arith, e))
        | inl ((d, refs), e) ↦ ground (
          arith,
          e,
          same,
          eq_iff d "",
          L.device_name_ok target s d refs e,
          L.mount_device source target "" options s,
          L.mount_exists source target target "" options s,
        )
      ]

  bind_mount_again :
      (source target : String) (options : List String) (s : F)
      → v.device s target ≢ ""
      → (bind_mount m source target options s).1 ≡ s
  unfolding bind_mount
  bind_mount_again source target options s there =
      let same = L.device_name_state target s in
      elim (Result-cases (m.get_device_name_from_mount target s).0) [
        | inr (x, e) ↦ ground (arith, e, same)
        | inl ((d, refs), e) ↦
            ground (arith, e, same, eq_iff d "", L.device_name_ok target s d refs e)
      ]

  ensure_file_ok :
      (target : String) (b : Bool) (s : F)
      → b ≡ v.exists s target
      → (ensure_file m b target s).0 ≡ ok tt
      → v.exists (ensure_file m b target s).1 target ≡ true
  unfolding ensure_file
  ensure_file_ok target true s e h = sym e
  ensure_file_ok target false s e h =
      ground (arith, h, L.make_file_exists target (m.mkdir_all (dir target) s).1)

  -- Over a mounter that acts as `IsMounter` says, after a directory was published the target path
  -- exists, with something mounted over it.
  pub publish_dir_ok :
      (source target : String) (readonly : Bool) (flags : List String) (s : F)
      → (publish_dir m source target readonly flags s).0 ≡ ok tt
      → IsMounted target (publish_dir m source target readonly flags s).1
  unfolding publish_dir
  publish_dir_ok source target readonly flags s h =
      let same = L.path_exists_state target s in
      elim (Result-cases (m.path_exists target s).0) [
        | inr (x, e) ↦ absurd (ground (arith, e))
        | inl (b, e) ↦ elim (Result-cases (ensure_dir m b target s).0) [
          | inr (x, g) ↦ absurd (ground (arith, e, same, g))
          | inl (_, g) ↦
              let t = (ensure_dir m b target s).1 in
              let options = bind_options readonly flags in
              let run : publish_dir m source target readonly flags s
                  ≡ bind_mount m source target options t =
                ground (arith, e, same, g) in
              rw run (
                bind_mount_ok source target options t
                  (ensure_dir_ok m v L target b s (L.path_exists_ok target s b e) g) (rw run at h))
        ]
      ]

  -- Over a mounter that acts as `IsMounter` says, after a block volume was published the target path
  -- exists, with something mounted over it.
  pub publish_device_ok :
      (serial target : String) (readonly : Bool) (s : F)
      → (publish_device m serial target readonly s).0 ≡ ok tt
      → IsMounted target (publish_device m serial target readonly s).1
  unfolding publish_device
  publish_device_ok serial target readonly s h =
      let same = L.dev_path_state serial s in
      let same' = L.path_exists_state target s in
      elim (Result-cases (m.get_dev_path serial s).0) [
        | inr (x, e) ↦ absurd (ground (arith, e))
        | inl (source, e) ↦ elim (Result-cases (m.path_exists target s).0) [
          | inr (x, f) ↦ absurd (ground (arith, e, same, f))
          | inl (b, f) ↦ elim (Result-cases (ensure_file m b target s).0) [
            | inr (x, g) ↦ absurd (ground (arith, e, same, f, same', g))
            | inl (_, g) ↦
                let t = (ensure_file m b target s).1 in
                let options = bind_options readonly [] in
                let run : publish_device m serial target readonly s
                    ≡ bind_mount m source target options t =
                  ground (arith, e, same, f, same', g) in
                rw run (
                  bind_mount_ok source target options t
                    (ensure_file_ok target b s (L.path_exists_ok target s b f) g) (rw run at h))
          ]
        ]
      ]

  -- Over a mounter that acts as `IsMounter` says, where something is mounted at the target path, which
  -- exists, publishing a directory changes nothing, whatever its result.
  pub publish_dir_again :
      (source target : String) (readonly : Bool) (flags : List String) (s : F)
      → IsMounted target s
      → (publish_dir m source target readonly flags s).1 ≡ s
  unfolding publish_dir ensure_dir
  publish_dir_again source target readonly flags s h =
      let same = L.path_exists_state target s in
      let again = bind_mount_again source target (bind_options readonly flags) s h.covered in
      elim (Result-cases (m.path_exists target s).0) [
        | inr (x, e) ↦ ground (arith, e, same)
        | inl (b, e) ↦
            ground (arith, e, same, again, h.target_exists, L.path_exists_ok target s b e)
      ]

-- The two tests against a range say what they are for.
out_of_range_not :
    (size : ℤ) (r : CapacityRange)
    → out_of_range size (some r) ≡ false
    → (ltb_ℤ size r.required_bytes ≡ false)
      × (ltb_ℤ (pos 0) r.limit_bytes ≡ true → ltb_ℤ r.limit_bytes size ≡ false)
unfolding out_of_range
out_of_range_not size r h = ground arith

module _ {F : Type 0} (m : Mounter F) where
  expand_path_ok :
      (path : String) (range : Option CapacityRange) (s : F) (size : ℤ)
      → (expand_path m path range s).0 ≡ ok size
      → out_of_range size range ≡ false
  unfolding expand_path
  expand_path_ok path range s size h = elim (Result-cases (m.get_device_name_from_mount path s).0) [
    | inr (x, f) ↦ absurd (ground (arith, f))
    | inl (d, f) ↦
        elim (Result-cases (m.get_device_size d.0 (m.get_device_name_from_mount path s).1).0) [
          | inr (x, g) ↦ absurd (ground (arith, f, g))
          | inl (z, g) ↦ elim (Bool-cases (out_of_range z range)) [
            | inl far ↦ absurd (ground (arith, f, g, far))
            | inr near ↦ ground (arith, f, g, near)
          ]
        ]
  ]

  -- Where the expansion of a volume that is no block volume succeeds for a capacity range, the size of
  -- the device that it answers with is not below what the range requires, and not above its limit where
  -- that is positive.
  pub node_expand_volume_ok :
      (req : NodeExpandRequest) (s : F) (size : ℤ) (r : CapacityRange)
      → (node_expand_volume m req s).0 ≡ ok size
      → req.capacity_range ≡ some r
      → is_block req.volume_capability ≡ false
      → (ltb_ℤ size r.required_bytes ≡ false)
        × (ltb_ℤ (pos 0) r.limit_bytes ≡ true → ltb_ℤ r.limit_bytes size ≡ false)
  unfolding node_expand_volume
  node_expand_volume_ok req s size r h e file =
      let ran : (expand_path m req.volume_path req.capacity_range s).0 ≡ ok size =
        ground (arith, h, file) in
      let near = expand_path_ok req.volume_path req.capacity_range s size ran in
      out_of_range_not size r (rw e at near)
