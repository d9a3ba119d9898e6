-- ===== src/Node/Device.antt =====
-- `GetDevPath` and `GetDeviceSize` of pkg/driver/cds/mount.go, over the output of the commands that
-- they run.
pub mod Found
use Prim.Native.String.{◌++◌ as ◌<>◌}
use baiducloud_cce_csi_drive.Base.{
  String, Option, none, some, List, [], ◌∷◌, ◌==◌, Result, ok, err, Exec, ◌>>=◌, ◌>>◌, pure, fail,
  refuse_if, if◌then◌else◌,
}
use baiducloud_cce_csi_drive.Util.Text.{split, trim_space}
use baiducloud_cce_csi_drive.Util.Number.{parse_int}
use baiducloud_cce_csi_drive.Base.Int.{ℤ}

pub data DeviceError : Type 0 where
  empty_serial command_failed unexpected_name serial_not_found bad_size : DeviceError

-- The test on the five parts of `/sys/block/vda/serial`.
unfoldable pub device_name : List String → Result DeviceError String
device_name (a ∷ b ∷ c ∷ name ∷ e ∷ []) = ok ("/dev/" <> name)
device_name _ = err unexpected_name

-- `strings.Split(dev, ":")` where it has two parts.
unfoldable pub key_value : List String → Option (String × String)
key_value (k ∷ v ∷ []) = some (k, v)
key_value _ = none

abbrev try_line :
    String → Option (String × String) → Result DeviceError String → Result DeviceError String
try_line serial none later = later
try_line serial (some (k, v)) later = if v == serial then device_name (split b'/' k) else later

-- The loop over the lines.
unfoldable pub find_serial : String → List String → Result DeviceError String
unfolding device_name key_value
find_serial serial [] = err serial_not_found
find_serial serial (line ∷ lines) =
    let later = find_serial serial lines in
    if line == "" then later else try_line serial (key_value (split b':' line)) later

module _ {F : Type 0} (grep_serials : Exec F DeviceError String) where
  unfoldable pub get_dev_path : String → Exec F DeviceError String
  unfolding find_serial
  get_dev_path serial = do
    refuse_if (serial == "") empty_serial
    output ← grep_serials
    λ s. (find_serial serial (split b'\n' output), s)

module _ {F : Type 0} (blockdev : (device_path : String) → Exec F DeviceError String) where
  unfoldable pub get_device_size : String → Exec F DeviceError ℤ
  get_device_size device_path = do
    output ← blockdev device_path
    elim (parse_int (trim_space output)) [ some size ↦ pure size | none ↦ fail bad_size ]
