-- ===== src/Node/Unstaged.antt =====
-- Unstaging a volume and unpublishing it.
use baiducloud_cce_csi_drive.Base.{
  String, true, false, ◌≡◌, arith, ok, inl, inr, Result-cases, eq_iff,
}
use baiducloud_cce_csi_drive.Node.Mounter.{Mounter}
use baiducloud_cce_csi_drive.Node.Mounts.{View, IsMounter}
use baiducloud_cce_csi_drive.Node.Unstage.{
  PathRequest, unstage_path, unpublish_path, node_unstage_volume, node_unpublish_volume,
}

module _ {F : Type 0} (m : Mounter F) (v : View F) (L : IsMounter m v) where
  unstage_path_ok :
      (path : String) (s : F)
      → (unstage_path m path s).0 ≡ ok tt
      → (v.exists (unstage_path m path s).1 path ≡ false)
        × (v.device (unstage_path m path s).1 path ≡ "")
  unfolding unstage_path
  unstage_path_ok path s h =
      let same = L.device_name_state path s in
      let t = (m.unmount path s).1 in
      elim (Result-cases (m.get_device_name_from_mount path s).0) [
        | inr (x, e) ↦ absurd (ground (arith, e))
        | inl ((d, refs), e) ↦ ground (
          arith,
          e,
          same,
          eq_iff d "",
          L.device_name_ok path s d refs e,
          L.unmount_device path s,
          L.remove_exists path s,
          L.remove_device path path s,
          L.remove_exists path t,
          L.remove_device path path t,
        )
      ]

  unpublish_path_ok :
      (path : String) (s : F)
      → (unpublish_path m path s).0 ≡ ok tt
      → (v.exists (unpublish_path m path s).1 path ≡ false)
        × (v.device (unpublish_path m path s).1 path ≡ "")
  unfolding unpublish_path
  unpublish_path_ok path s h =
      let same = L.device_name_state path s in
      let t = (m.unmount path s).1 in
      elim (Result-cases (m.get_device_name_from_mount path s).0) [
        | inr (x, e) ↦ absurd (ground (arith, e))
        | inl ((d, refs), e) ↦ ground (
          arith,
          e,
          same,
          eq_iff d "",
          L.device_name_ok path s d refs e,
          L.unmount_device path s,
          L.remove_exists path s,
          L.remove_device path path s,
          L.remove_exists path t,
          L.remove_device path path t,
        )
      ]

  -- Over a mounter that acts as `IsMounter` says, after a successful unstaging the path is gone, and
  -- nothing is mounted there if it existed.
  pub node_unstage_volume_ok :
      (req : PathRequest) (s : F)
      → (node_unstage_volume m req s).0 ≡ ok tt
      → (v.exists (node_unstage_volume m req s).1 req.target_path ≡ false)
        × (v.exists s req.target_path ≡ true
            → v.device (node_unstage_volume m req s).1 req.target_path ≡ "")
  unfolding node_unstage_volume
  node_unstage_volume_ok req s h =
      let path = req.target_path in
      let same = L.path_exists_state path s in
      elim (Result-cases (m.path_exists path s).0) [
        | inr (x, e) ↦ absurd (ground (arith, e))
        | inl (b, e) ↦ ground (arith, e, same, L.path_exists_ok path s b e, unstage_path_ok path s)
      ]

  -- Over a mounter that acts as `IsMounter` says, after a successful unpublishing the path is gone, and
  -- nothing is mounted there if it existed.
  pub node_unpublish_volume_ok :
      (req : PathRequest) (s : F)
      → (node_unpublish_volume m req s).0 ≡ ok tt
      → (v.exists (node_unpublish_volume m req s).1 req.target_path ≡ false)
        × (v.exists s req.target_path ≡ true
            → v.device (node_unpublish_volume m req s).1 req.target_path ≡ "")
  unfolding node_unpublish_volume
  node_unpublish_volume_ok req s h =
      let path = req.target_path in
      let same = L.path_exists_state path s in
      elim (Result-cases (m.path_exists path s).0) [
        | inr (x, e) ↦ absurd (ground (arith, e))
        | inl (b, e) ↦
            ground (arith, e, same, L.path_exists_ok path s b e, unpublish_path_ok path s)
      ]
