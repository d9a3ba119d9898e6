-- ===== src/Node/Mounts.antt =====
-- What the node server relies on of a mounter: it acts on the paths that exist, on the device that
-- each path is mounted from, and on the serials of the devices. Nothing is said of failed calls but
-- for those that only read.
use baiducloud_cce_csi_drive.Base.{
  String, Bool, true, false, Option, some, List, ◌≡◌, ◌≢◌, ok, ◌==◌, if◌then◌else◌,
}
use baiducloud_cce_csi_drive.Base.Int.{ℤ, pos, ltb_ℤ}
use baiducloud_cce_csi_drive.Node.Mounter.{Mounter}

-- A node as one sees it: whether a path exists, the device that is mounted there (the empty text if
-- none is), and the device that has a serial.
pub record View (F : Type 0) : Type 0 where
  pub exists : F → String → Bool
  pub device : F → String → String
  pub by_serial : F → String → Option String

pub record IsMounter {F : Type 0} (m : Mounter F) (v : View F) : Type 0 where
  pub path_exists_state : (p : String) (s : F) → (m.path_exists p s).1 ≡ s
  pub path_exists_ok :
      (p : String) (s : F) (b : Bool) → (m.path_exists p s).0 ≡ ok b → b ≡ v.exists s p
  pub dev_path_state : (serial : String) (s : F) → (m.get_dev_path serial s).1 ≡ s
  pub dev_path_ok :
      (serial : String) (s : F) (d : String)
      → (m.get_dev_path serial s).0 ≡ ok d
      → v.by_serial s serial ≡ some d
  pub device_name_state : (p : String) (s : F) → (m.get_device_name_from_mount p s).1 ≡ s
  pub device_name_ok :
      (p : String) (s : F) (d : String) (refs : ℤ)
      → (m.get_device_name_from_mount p s).0 ≡ ok (d, refs)
      → (d ≡ v.device s p) × (ltb_ℤ (pos 0) refs ≡ (if d == "" then false else true))
  -- A new directory and a new file: no mount changes.
  pub mkdir_exists :
      (p : String) (s : F) → (m.mkdir_all p s).0 ≡ ok tt → v.exists (m.mkdir_all p s).1 p ≡ true
  pub mkdir_device : (p q : String) (s : F) → v.device (m.mkdir_all p s).1 q ≡ v.device s q
  pub mkdir_serial :
      (p serial : String) (s : F) → v.by_serial (m.mkdir_all p s).1 serial ≡ v.by_serial s serial
  pub make_file_exists :
      (p : String) (s : F) → (m.make_file p s).0 ≡ ok tt → v.exists (m.make_file p s).1 p ≡ true
  -- A mount covers an existing path with the device.
  pub format_device :
      (source p fs : String) (options : List String) (s : F)
      → (m.format_and_mount source p fs options s).0 ≡ ok tt
      → v.device (m.format_and_mount source p fs options s).1 p ≡ source
  pub format_exists :
      (source p q fs : String) (options : List String) (s : F)
      → v.exists (m.format_and_mount source p fs options s).1 q ≡ v.exists s q
  pub format_serial :
      (source p fs serial : String) (options : List String) (s : F)
      → v.by_serial (m.format_and_mount source p fs options s).1 serial ≡ v.by_serial s serial
  pub mount_device :
      (source p fs : String) (options : List String) (s : F)
      → (m.mount source p fs options s).0 ≡ ok tt
      → v.device (m.mount source p fs options s).1 p ≢ ""
  pub mount_exists :
      (source p q fs : String) (options : List String) (s : F)
      → v.exists (m.mount source p fs options s).1 q ≡ v.exists s q
  -- One unmount uncovers a path, and leaves it there.
  pub unmount_device :
      (p : String) (s : F) → (m.unmount p s).0 ≡ ok tt → v.device (m.unmount p s).1 p ≡ ""
  -- Only the path that is removed goes, and its mount stays as it is.
  pub remove_exists :
      (p : String) (s : F)
      → (m.remove_path p s).0 ≡ ok tt
      → v.exists (m.remove_path p s).1 p ≡ false
  pub remove_device : (p q : String) (s : F) → v.device (m.remove_path p s).1 q ≡ v.device s q
