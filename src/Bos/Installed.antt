-- ===== src/Bos/Installed.antt =====
-- `newBOSFSMounter` of pkg/driver/bos/mount.go: the mounter of the driver, on the file system of the
-- node and the container engine.
use baiducloud_cce_csi_drive.Base.{ℕ, String, Bool, false, ◌≡◌, ok}
use baiducloud_cce_csi_drive.Util.Os.{OsError}
use baiducloud_cce_csi_drive.Util.FilePath.{dir}
use baiducloud_cce_csi_drive.Node.Files.{OsFiles, IsOsFiles, new_fs, new_fs-IsFileSystem}
use baiducloud_cce_csi_drive.Bos.Engine.{Engine, get_credentials_file_path}
use baiducloud_cce_csi_drive.Bos.Container.{mount_by_bosfs, unmount_from_bosfs}
use baiducloud_cce_csi_drive.Bos.Publish.{BosMounter}
use baiducloud_cce_csi_drive.Bos.Unpublish.{bos_unpublish_volume}
use baiducloud_cce_csi_drive.Bos.Unpublish.Gone.{bos_unpublish_volume_ok}

module _ {F H : Type 0} (os : OsFiles F H) (describe : OsError → String) (engine : Engine F)
    (md5 : String → String) (image : String) (fuel : ℕ) where
  abbrev pub new_bosfs_mounter : BosMounter F
  new_bosfs_mounter = record {
    fs = new_fs os describe;
    mount_by_bosfs = mount_by_bosfs engine md5 image fuel;
    unmount_from_bosfs = unmount_from_bosfs engine md5 image;
  }

  -- Over an operating system that acts as IsOsFiles says, and any container engine, after a
  -- successful unpublishing neither the target path nor the directory of its credentials exists.
  pub bos_unpublish_installed :
      (exists : F → String → Bool)
      → IsOsFiles os describe exists
      → (path : String) (s : F) → (bos_unpublish_volume new_bosfs_mounter md5 path s).0 ≡ ok tt
      → (exists
            (bos_unpublish_volume new_bosfs_mounter md5 path s).1
            (dir (get_credentials_file_path md5 path))
          ≡ false)
        × (exists (bos_unpublish_volume new_bosfs_mounter md5 path s).1 path ≡ false)
  bos_unpublish_installed exists L path s h =
      bos_unpublish_volume_ok new_bosfs_mounter md5 exists (new_fs-IsFileSystem os describe L) path
        s h
