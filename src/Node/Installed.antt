-- ===== src/Node/Installed.antt =====
-- The mounter of the driver, `newMounter` of pkg/driver/cds/mount.go, is one that the node server can
-- rely on, where Go's os, Kubernetes' mount utilities and the command that lists the serials act as
-- they are documented.
pub mod Bound
use Prim.Native.String.{◌++◌ as ◌<>◌}
use text.Mathlib.TextLemmas.{cons-append}
use baiducloud_cce_csi_drive.Base.{
  String, Bool, true, false, Option, none, some, List, [], ◌∷◌, ◌==◌, ◌≡◌, ◌≢◌, sym, ap, ◌∙◌, inl,
  inr, arith, eq_iff, Result, ok, err, Exec, convert_ok, if◌then◌else◌, Result-cases, Bool-cases,
}
use baiducloud_cce_csi_drive.Base.Int.{ℤ, pos, ltb_ℤ}
use baiducloud_cce_csi_drive.Util.Os.{OsError, is_exist}
use baiducloud_cce_csi_drive.Node.Device.{DeviceError, get_dev_path}
use baiducloud_cce_csi_drive.Node.Device.Found.{
  BlockDevice, AllPlain, printed, device_of, located_ok, get_dev_path_lem,
}
use baiducloud_cce_csi_drive.Node.Published.Bound.{IsBinder}
use baiducloud_cce_csi_drive.Node.Mounts.{View, IsMounter}
use baiducloud_cce_csi_drive.Node.Files.{
  OsFiles, IsOsFiles, MountUtils, mkdir_all, make_file, new_mounter, mkdir_all_exists,
}

abbrev pub found_device : Result DeviceError String → Option String
found_device (ok d) = some d
found_device (err e) = none

-- A node: the paths that exist, the device that is mounted at a path, and its block devices.
abbrev pub view_of :
    {F : Type 0} → (F → String → Bool) → (F → String → String) → (F → List BlockDevice) → View F
view_of exists device devices = record {
  exists = exists;
  device = device;
  by_serial = λ s serial. found_device (device_of serial (devices s));
}

-- What Go's os does to mounts and devices: nothing. A file that is opened with `O_CREATE` is there,
-- and closing it changes no path.
pub record IsQuietOs {F H : Type 0} (os : OsFiles F H) (exists : F → String → Bool)
    (device : F → String → String) (devices : F → List BlockDevice) : Type 0 where
  pub mkdir_device : (p q : String) (s : F) → device (os.mkdir_all p s).1 q ≡ device s q
  pub mkdir_devices : (p : String) (s : F) → devices (os.mkdir_all p s).1 ≡ devices s
  pub open_made :
      (p : String) (s : F) (h : H)
      → (os.open_create p s).0 ≡ ok h
      → exists (os.open_create p s).1 p ≡ true
  pub open_there :
      (p : String) (s : F)
      → (os.open_create p s).0 ≡ err is_exist
      → exists (os.open_create p s).1 p ≡ true
  pub close_exists : (h : H) (p : String) (s : F) → exists (os.close h s).1 p ≡ exists s p
  pub remove_device : (p q : String) (s : F) → device (os.remove p s).1 q ≡ device s q

-- The command prints the block devices, whose names and serials have no separators in them, and
-- changes nothing.
pub record IsGrep {F : Type 0} (grep_serials : Exec F DeviceError String)
    (devices : F → List BlockDevice) : Type 0 where
  pub plain : (s : F) → AllPlain (devices s)
  pub grep_state : (s : F) → (grep_serials s).1 ≡ s
  pub grep_ok :
      (s : F) (output : String) → (grep_serials s).0 ≡ ok output → output ≡ printed (devices s)

-- The mount utilities: looking at a mount changes nothing; a mount covers an existing path, and
-- unmounting uncovers it.
pub record IsMountUtils {F H : Type 0} {os : OsFiles F H} {describe : OsError → String}
    (utils : MountUtils os describe) (exists : F → String → Bool) (device : F → String → String)
    (devices : F → List BlockDevice) : Type 0 where
  pub name_state : (p : String) (s : F) → (utils.get_device_name_from_mount p s).1 ≡ s
  pub name_ok :
      (p : String) (s : F) (d : String) (refs : ℤ)
      → (utils.get_device_name_from_mount p s).0 ≡ ok (d, refs)
      → (d ≡ device s p) × (ltb_ℤ (pos 0) refs ≡ (if d == "" then false else true))
  pub format_device :
      (source p fs : String) (options : List String) (s : F)
      → (utils.format_and_mount source p fs options s).0 ≡ ok tt
      → device (utils.format_and_mount source p fs options s).1 p ≡ source
  pub format_exists :
      (source p q fs : String) (options : List String) (s : F)
      → exists (utils.format_and_mount source p fs options s).1 q ≡ exists s q
  pub format_devices :
      (source p fs : String) (options : List String) (s : F)
      → devices (utils.format_and_mount source p fs options s).1 ≡ devices s
  pub mount_device :
      (source p fs : String) (options : List String) (s : F)
      → (utils.mount source p fs options s).0 ≡ ok tt
      → device (utils.mount source p fs options s).1 p ≢ ""
  pub mount_exists :
      (source p q fs : String) (options : List String) (s : F)
      → exists (utils.mount source p fs options s).1 q ≡ exists s q
  pub unmount_device :
      (p : String) (s : F) → (utils.unmount p s).0 ≡ ok tt → device (utils.unmount p s).1 p ≡ ""

module _ {F H : Type 0} (os : OsFiles F H) (describe : OsError → String) where
  mkdir_all-state : (p : String) (s : F) → (mkdir_all os describe p s).1 ≡ (os.mkdir_all p s).1
  unfolding mkdir_all
  mkdir_all-state p s = elim (Result-cases (os.mkdir_all p s).0) [
    | inl (_, e) ↦ ground (arith, e)
    | inr (is_exist, e) ↦ ground (arith, e)
    | inr (OsError.is_not_exist, e) ↦ ground (arith, e)
    | inr (OsError.other message, e) ↦ ground (arith, e)
  ]

module _ {F H : Type 0} (os : OsFiles F H) (describe : OsError → String)
    {exists : F → String → Bool} {device : F → String → String} {devices : F → List BlockDevice}
    (Q : IsQuietOs os exists device devices) where
  make_file_made :
      (p : String) (s : F)
      → (make_file os describe p s).0 ≡ ok tt
      → exists (make_file os describe p s).1 p ≡ true
  unfolding make_file
  make_file_made p s h = elim (Result-cases (os.open_create p s).0) [
    | inl (file, e) ↦
        ground (arith, e, Q.open_made p s file e, Q.close_exists file p (os.open_create p s).1)
    | inr (is_exist, e) ↦ ground (arith, e, Q.open_there p s e)
    | inr (OsError.is_not_exist, e) ↦ absurd (ground (arith, e, h))
    | inr (OsError.other message, e) ↦ absurd (ground (arith, e, h))
  ]

module _ {F : Type 0} {grep_serials : Exec F DeviceError String} {devices : F → List BlockDevice}
    (K : IsGrep grep_serials devices) where
  get_dev_path_state : (serial : String) (s : F) → (get_dev_path grep_serials serial s).1 ≡ s
  unfolding get_dev_path
  get_dev_path_state serial s = elim (Bool-cases (serial == "")) [
    | inl e ↦ ground (arith, e)
    | inr e ↦ elim (Result-cases (grep_serials s).0) [
      | inl (output, f) ↦ ground (arith, e, f, K.grep_state s)
      | inr (x, f) ↦ ground (arith, e, f, K.grep_state s)
    ]
  ]

  get_dev_path_found :
      (serial : String) (s : F) {d : String}
      → (get_dev_path grep_serials serial s).0 ≡ ok d
      → found_device (device_of serial (devices s)) ≡ some d
  unfolding get_dev_path
  get_dev_path_found serial s {d} h = elim (Bool-cases (serial == "")) [
    | inl e ↦ absurd (ground (arith, e, h))
    | inr e ↦ elim (Result-cases (grep_serials s).0) [
      | inr (x, f) ↦ absurd (ground (arith, e, f, h))
      | inl (output, f) ↦
          let all : grep_serials s ≡ (ok (printed (devices s)), s) =
            ground (arith, f, K.grep_ok s output f, K.grep_state s) in
          let l =
            get_dev_path_lem grep_serials serial (devices s) s (ground (arith, e, eq_iff serial ""))
              (K.plain s) all in
          ap found_device (located_ok serial (devices s) (ap (λ x. x.0) (sym l) ∙ h))
    ]
  ]

-- The driver's mounter is one that the node server can rely on, where Go's os acts as it is documented
-- and changes no mount, the command prints the node's block devices, and the mount utilities mount and
-- unmount: the device of a serial is the first block device that has it.
pub new_mounter-IsMounter :
    {F H : Type 0} (os : OsFiles F H) (describe : OsError → String) (utils : MountUtils os describe)
    (grep_serials : Exec F DeviceError String) (blockdev : String → Exec F DeviceError String)
    (describe_device : DeviceError → String) (exists : F → String → Bool)
    (device : F → String → String) (devices : F → List BlockDevice)
    → IsOsFiles os describe exists
    → IsQuietOs os exists device devices
    → IsGrep grep_serials devices
    → IsMountUtils utils exists device devices
    → IsMounter
        (new_mounter os describe utils grep_serials blockdev describe_device)
        (view_of exists device devices)
new_mounter-IsMounter os describe utils grep_serials blockdev describe_device exists device devices
      O Q K U =
    let made = mkdir_all-state os describe in
    record {
      path_exists_state = O.look_state;
      path_exists_ok = O.look_ok;
      dev_path_state = λ serial s. get_dev_path_state K serial s;
      dev_path_ok = λ serial s d h.
          get_dev_path_found K serial s
            (convert_ok describe_device (get_dev_path grep_serials serial s).0 h);
      device_name_state = U.name_state;
      device_name_ok = U.name_ok;
      mkdir_exists = mkdir_all_exists os describe O;
      mkdir_device = λ p q s. ap (λ t. device t q) (made p s) ∙ Q.mkdir_device p q s;
      mkdir_serial = λ p serial s.
          ap (λ l. found_device (device_of serial l)) (ap devices (made p s) ∙ Q.mkdir_devices p s);
      make_file_exists = make_file_made os describe Q;
      format_device = U.format_device;
      format_exists = U.format_exists;
      format_serial = λ source p fs serial options s.
          ap (λ l. found_device (device_of serial l)) (U.format_devices source p fs options s);
      mount_device = U.mount_device;
      mount_exists = U.mount_exists;
      unmount_device = U.unmount_device;
      remove_exists = λ p s h. O.remove_gone p s (convert_ok describe (os.remove p s).0 h);
      remove_device = Q.remove_device;
    }
