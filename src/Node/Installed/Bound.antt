-- ===== src/Node/Installed/Bound.antt =====
-- Bind mounts of the driver's mounter, `newMounter` of pkg/driver/cds/mount.go.
use Prim.Native.String.{◌++◌ as ◌<>◌}
use text.Mathlib.TextLemmas.{cons-append}
use baiducloud_cce_csi_drive.Base.{
  String, Bool, some, List, [], ◌∷◌, ◌==◌, ◌≡◌, ◌≢◌, sym, ap, ◌∙◌, inl, inr, arith, ok, Exec,
  if◌then◌else◌, Bool-cases,
}
use baiducloud_cce_csi_drive.Util.Os.{OsError}
use baiducloud_cce_csi_drive.Node.Device.{DeviceError}
use baiducloud_cce_csi_drive.Node.Device.Found.{BlockDevice, device_of}
use baiducloud_cce_csi_drive.Node.Published.Bound.{IsBinder}
use baiducloud_cce_csi_drive.Node.Files.{OsFiles, MountUtils, new_mounter}
use baiducloud_cce_csi_drive.Node.Installed.{view_of, found_device}

-- A mount with the option `bind` shows at the target what its source shows.
pub record IsBindUtils {F H : Type 0} {os : OsFiles F H} {describe : OsError → String}
    (utils : MountUtils os describe) (device : F → String → String) : Type 0 where
  pub bind_device :
      (source p : String) (options : List String) (s : F)
      → device s source ≢ ""
      → (utils.mount source p "" ("bind" ∷ options) s).0 ≡ ok tt
      → device (utils.mount source p "" ("bind" ∷ options) s).1 p ≡ device s source

device_of_named :
    (serial : String) (ds : List BlockDevice) {d : String}
    → found_device (device_of serial ds) ≡ some d
    → d ≢ ""
unfolding device_of
device_of_named serial [] h = absurd cc
device_of_named serial (x ∷ ds) {d} h = elim (Bool-cases (x.serial == serial)) [
  | inl e ↦
      let is_path : ("/dev/" <> x.name) ≡ d = ground (arith, e, h) in
      let named : ◌≢◌ {A = String} ("/dev/" <> x.name) "" = rw cons-append (λ f. cc) in
      λ f. named (is_path ∙ f)
  | inr e ↦ device_of_named serial ds (
      ap (λ b. found_device (if b then ok ("/dev/" <> x.name) else device_of serial ds)) (sym e)
      ∙ h)
]

-- The driver's mounter shows a volume at the path of a pod, where the mount utilities bind.
pub new_mounter-IsBinder :
    {F H : Type 0} (os : OsFiles F H) (describe : OsError → String) (utils : MountUtils os describe)
    (grep_serials : Exec F DeviceError String) (blockdev : String → Exec F DeviceError String)
    (describe_device : DeviceError → String) (exists : F → String → Bool)
    (device : F → String → String) (devices : F → List BlockDevice)
    → IsBindUtils utils device
    → IsBinder
        (new_mounter os describe utils grep_serials blockdev describe_device)
        (view_of exists device devices)
new_mounter-IsBinder os describe utils grep_serials blockdev describe_device exists device devices
      B =
    record {
      bind_device = B.bind_device;
      serial_named = λ serial d s h. device_of_named serial (devices s) h;
    }
