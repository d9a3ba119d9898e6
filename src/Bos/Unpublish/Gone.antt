-- ===== src/Bos/Unpublish/Gone.antt =====
-- What unpublishing a bucket leaves behind.
use baiducloud_cce_csi_drive.Base.{
  String, Bool, true, false, ◌≡◌, ◌∙◌, ap, arith, ok, inl, inr, Result-cases,
}
use baiducloud_cce_csi_drive.Util.FilePath.{dir}
use baiducloud_cce_csi_drive.Node.Mounter.{FileSystem}
use baiducloud_cce_csi_drive.Bos.Engine.{get_credentials_file_path}
use baiducloud_cce_csi_drive.Bos.Publish.{BosMounter}
use baiducloud_cce_csi_drive.Bos.Unpublish.{
  exists_or_not_connected, target_exists, remove_target, remove_credentials, bos_unpublish_volume,
}

-- What is relied on of the file system, for the paths that exist: looking at a path changes nothing and
-- an answer is right; a path that was removed does not exist, and removing brings no path back.
pub record IsFileSystem {F : Type 0} (fs : FileSystem F) (exists : F → String → Bool) : Type 0 where
  pub look_state : (p : String) (s : F) → (fs.path_exists p s).1 ≡ s
  pub look_ok : (p : String) (s : F) (b : Bool) → (fs.path_exists p s).0 ≡ ok b → b ≡ exists s p
  pub remove_gone :
      (p : String) (s : F)
      → (fs.remove_path p s).0 ≡ ok tt
      → exists (fs.remove_path p s).1 p ≡ false
  pub remove_all_gone :
      (p : String) (s : F) → (fs.remove_all p s).0 ≡ ok tt → exists (fs.remove_all p s).1 p ≡ false
  pub remove_all_keeps :
      (p q : String) (s : F) → exists s q ≡ false → exists (fs.remove_all p s).1 q ≡ false

module _ {F : Type 0} (m : BosMounter F) (md5 : String → String) (exists : F → String → Bool)
    (L : IsFileSystem m.fs exists) where
  remove_target_gone :
      (path : String) (b : Bool) (s : F)
      → (b ≡ false → exists s path ≡ false)
      → (remove_target m md5 b path s).0 ≡ ok tt
      → exists (remove_target m md5 b path s).1 path ≡ false
  unfolding remove_target
  remove_target_gone path true s h e =
      ground (arith, e, L.remove_gone path (m.unmount_from_bosfs path s).1)
  remove_target_gone path false s h e = ground (arith, h)

  remove_credentials_gone :
      (p q : String) (s : F)
      → exists s q ≡ false
      → (remove_credentials m md5 p s).0 ≡ ok tt
      → (exists (remove_credentials m md5 p s).1 p ≡ false)
        × (exists (remove_credentials m md5 p s).1 q ≡ false)
  unfolding remove_credentials
  remove_credentials_gone p q s h e =
      let same = L.look_state p s in
      elim (Result-cases (m.path_exists p s).0) [
        | inr (x, f) ↦ absurd (ground (arith, f))
        | inl (b, f) ↦
            ground
              (arith, f, same, L.look_ok p s b f, L.remove_all_gone p s, L.remove_all_keeps p q s)
      ]

  target_missing :
      (path : String) (s : F)
      → exists_or_not_connected (m.path_exists path s).0 ≡ ok false
      → exists s path ≡ false
  unfolding exists_or_not_connected
  target_missing path s h = elim (Result-cases (m.path_exists path s).0) [
    | inr (x, f) ↦ ground (arith, f)
    | inl (b, f) ↦ ground (arith, f, L.look_ok path s b f)
  ]

  -- Over a file system that acts as `IsFileSystem` says, after a successful unpublishing neither
  -- the target path nor the directory of its credentials exists, also where the target path was
  -- found not to be connected.
  pub bos_unpublish_volume_ok :
      (path : String) (s : F)
      → (bos_unpublish_volume m md5 path s).0 ≡ ok tt
      → (exists (bos_unpublish_volume m md5 path s).1 (dir (get_credentials_file_path md5 path))
          ≡ false)
        × (exists (bos_unpublish_volume m md5 path s).1 path ≡ false)
  unfolding bos_unpublish_volume target_exists
  bos_unpublish_volume_ok path s e =
      let same = L.look_state path s in
      let credentials = dir (get_credentials_file_path md5 path) in
      elim (Result-cases (exists_or_not_connected (m.path_exists path s).0)) [
        | inr (x, f) ↦ absurd (ground (arith, f))
        | inl (b, f) ↦ elim (Result-cases (remove_target m md5 b path s).0) [
          | inr (x, g) ↦ absurd (ground (arith, f, same, g))
          | inl (_, g) ↦
              let t = (remove_target m md5 b path s).1 in
              let gone = remove_target_gone path b s (λ z. target_missing path s (f ∙ ap ok z)) g in
              let run : bos_unpublish_volume m md5 path s ≡ remove_credentials m md5 credentials t =
                ground (arith, f, same, g, e) in
              rw run (remove_credentials_gone credentials path t gone (rw run at e))
        ]
      ]
