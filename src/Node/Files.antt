-- ===== src/Node/Files.antt =====
-- pkg/driver/common/filesystem.go and the constructors of the two mounters: how the interfaces of the
-- node servers are filled. Go's os, Kubernetes' mount utilities and the commands are parameters.
use baiducloud_cce_csi_drive.Base.{
  String, Bool, true, false, List, ◌≡◌, ok, err, Exec, ◌>>=◌, pure, fail, attempt, or_fail,
  convert_ok, arith, inl, inr, Result-cases,
}
use baiducloud_cce_csi_drive.Base.Int.{ℤ}
use baiducloud_cce_csi_drive.Util.Os.{OsError, is_exist}
use baiducloud_cce_csi_drive.Node.Mounter.{FileSystem, Mounter}
use baiducloud_cce_csi_drive.Node.Device.{DeviceError, get_dev_path, get_device_size}
use baiducloud_cce_csi_drive.Bos.Unpublish.Gone.{IsFileSystem}

-- What is called of Go's os, with `H` for an open file, and `mount.PathExists`.
pub record OsFiles (F H : Type 0) : Type 0 where
  pub path_exists : String → Exec F String Bool
  pub mkdir_all : String → Exec F OsError (Unit {0})
  pub open_create : String → Exec F OsError H
  pub close : H → Exec F OsError (Unit {0})
  pub write_file : (path content : String) → Exec F OsError (Unit {0})
  pub remove : String → Exec F OsError (Unit {0})
  pub remove_all : String → Exec F OsError (Unit {0})

module _ {F H : Type 0} (os : OsFiles F H) (describe : OsError → String) where
  -- An error is no failure where the path is there already.
  unfoldable pub mkdir_all : String → Exec F String (Unit {0})
  mkdir_all path =
      attempt (os.mkdir_all path)
      >>= (λ r. elim r [ ok _ ↦ pure tt | err is_exist ↦ pure tt | err e ↦ fail (describe e) ])

  unfoldable pub make_file : String → Exec F String (Unit {0})
  make_file path = attempt (os.open_create path) >>= (λ r. elim r [
    | ok file ↦ or_fail (os.close file) describe
    | err is_exist ↦ pure tt
    | err e ↦ fail (describe e)
  ])

  abbrev pub new_fs : FileSystem F
  new_fs = record {
    path_exists = os.path_exists;
    mkdir_all = mkdir_all;
    make_file = make_file;
    write_file = λ path content. or_fail (os.write_file path content) describe;
    remove_path = λ path. or_fail (os.remove path) describe;
    remove_all = λ path. or_fail (os.remove_all path) describe;
  }

  -- What is called of Kubernetes' mount utilities.
  pub record MountUtils : Type 0 where
    pub resize_fs : (dev_path path : String) → Exec F String (Unit {0})
    pub get_device_name_from_mount : (path : String) → Exec F String (String × ℤ)
    pub format_and_mount :
        (source target fs_type : String) (options : List String) → Exec F String (Unit {0})
    pub mount : (source target fs_type : String) (options : List String) → Exec F String (Unit {0})
    pub unmount : (target : String) → Exec F String (Unit {0})

  -- `newMounter` of pkg/driver/cds/mount.go.
  abbrev pub new_mounter :
      MountUtils
      → (grep_serials : Exec F DeviceError String) → (blockdev : String → Exec F DeviceError String)
      → (describe_device : DeviceError → String) → Mounter F
  new_mounter utils grep_serials blockdev describe_device = record {
    fs = new_fs;
    get_dev_path = λ serial. or_fail (get_dev_path grep_serials serial) describe_device;
    get_device_size = λ dev_path. or_fail (get_device_size blockdev dev_path) describe_device;
    resize_fs = utils.resize_fs;
    get_device_name_from_mount = utils.get_device_name_from_mount;
    format_and_mount = utils.format_and_mount;
    mount = utils.mount;
    unmount = utils.unmount;
  }

  -- How Go's os acts, by its documentation.
  pub record IsOsFiles (exists : F → String → Bool) : Type 0 where
    pub look_state : (p : String) (s : F) → (os.path_exists p s).1 ≡ s
    pub look_ok : (p : String) (s : F) (b : Bool) → (os.path_exists p s).0 ≡ ok b → b ≡ exists s p
    pub remove_gone :
        (p : String) (s : F) → (os.remove p s).0 ≡ ok tt → exists (os.remove p s).1 p ≡ false
    pub remove_all_gone :
        (p : String) (s : F)
        → (os.remove_all p s).0 ≡ ok tt
        → exists (os.remove_all p s).1 p ≡ false
    pub remove_all_keeps :
        (p q : String) (s : F) → exists s q ≡ false → exists (os.remove_all p s).1 q ≡ false
    pub mkdir_made :
        (p : String) (s : F) → (os.mkdir_all p s).0 ≡ ok tt → exists (os.mkdir_all p s).1 p ≡ true
    pub mkdir_there :
        (p : String) (s : F)
        → (os.mkdir_all p s).0 ≡ err is_exist
        → exists (os.mkdir_all p s).1 p ≡ true

  -- The implementation is a file system as unpublishing relies on one.
  pub new_fs-IsFileSystem :
      {exists : F → String → Bool} → IsOsFiles exists → IsFileSystem new_fs exists
  new_fs-IsFileSystem L = record {
    look_state = L.look_state;
    look_ok = L.look_ok;
    remove_gone = λ p s h. L.remove_gone p s (convert_ok describe (os.remove p s).0 h);
    remove_all_gone = λ p s h. L.remove_all_gone p s (convert_ok describe (os.remove_all p s).0 h);
    remove_all_keeps = L.remove_all_keeps;
  }

  -- A directory that is made without an error is there, also where it was there before.
  pub mkdir_all_exists :
      {exists : F → String → Bool}
      → IsOsFiles exists
      → (p : String) (s : F) → (mkdir_all p s).0 ≡ ok tt
      → exists (mkdir_all p s).1 p ≡ true
  unfolding mkdir_all
  mkdir_all_exists L p s h = elim (Result-cases (os.mkdir_all p s).0) [
    | inl (_, e) ↦ ground (arith, e, L.mkdir_made p s e)
    | inr (is_exist, e) ↦ ground (arith, e, L.mkdir_there p s e)
    | inr (x, e) ↦ absurd (ground (arith, e, h))
  ]
