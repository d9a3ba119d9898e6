-- ===== src/Tests/Installed.antt =====
-- The mounter of the driver over a small operating system, and a node with two block devices.
use baiducloud_cce_csi_drive.Base.{
  String, List, [], ◌∷◌, ◌≡◌, ◌≢◌, some, Exec, refl, arith, ok, err, lookup, contains,
  contains-remove, remove,
}
use baiducloud_cce_csi_drive.Util.KeyMutex.{try_lock, unlock}
use baiducloud_cce_csi_drive.Cloud.Auth.{choose_auth}
use baiducloud_cce_csi_drive.Cloud.Volume.{Volume, Attachment}
use baiducloud_cce_csi_drive.Csi.{get_mode}
use baiducloud_cce_csi_drive.Controller.Capability.{check_volume_capabilities}
use baiducloud_cce_csi_drive.Controller.Publish.{
  context_map, attachment_to, check_publish, publish_to, controller_publish_volume,
}
use baiducloud_cce_csi_drive.Controller.Calls.Attaching.{Fetched}
use baiducloud_cce_csi_drive.Node.Stage.{
  ensure_dir, mount_at, stage_device, stage_mount, node_stage_volume,
}
use baiducloud_cce_csi_drive.Node.Publish.{
  bind_options, bind_mount, publish_dir, node_publish_mount_volume, node_publish_volume,
}
use baiducloud_cce_csi_drive.Tests.Clouds.{config, any_node, server_on}
use baiducloud_cce_csi_drive.Handover.Installed.{published_by_driver}
use baiducloud_cce_csi_drive.Node.Installed.Bound.{IsBindUtils}
use baiducloud_cce_csi_drive.Tests.Handed.{
  attached, request, answer, stage, pod, node, machine-IsBinder,
}
use baiducloud_cce_csi_drive.Util.Text.{split}
use baiducloud_cce_csi_drive.Node.Mounter.{Mounter}
use baiducloud_cce_csi_drive.Util.Os.{OsError}
use baiducloud_cce_csi_drive.Node.Mounts.{IsMounter}
use baiducloud_cce_csi_drive.Node.Device.{
  device_name, key_value, find_serial, DeviceError, serial_not_found, get_dev_path,
}
use baiducloud_cce_csi_drive.Node.Device.Found.{
  BlockDevice, IsPlain, AllPlain, lacks, printed, device_of, get_dev_path_lem,
}
use baiducloud_cce_csi_drive.Node.Files.{mkdir_all, OsFiles, IsOsFiles, MountUtils, new_mounter}
use baiducloud_cce_csi_drive.Node.Installed.{
  view_of, IsQuietOs, IsGrep, IsMountUtils, new_mounter-IsMounter,
}
use baiducloud_cce_csi_drive.Tests.Nodes.{Machine, machine, view, machine-IsMounter}

abbrev vda : BlockDevice
vda = record { name = "vda"; serial = "s-0" }

abbrev vdb : BlockDevice
vdb = record { name = "vdb"; serial = "s-1" }

vda-IsPlain : IsPlain vda
unfolding lacks
vda-IsPlain = record {
  name_slash = refl;
  name_colon = refl;
  name_line = refl;
  serial_colon = refl;
  serial_line = refl;
}

vdb-IsPlain : IsPlain vdb
unfolding lacks
vdb-IsPlain = record {
  name_slash = refl;
  name_colon = refl;
  name_line = refl;
  serial_colon = refl;
  serial_line = refl;
}

abbrev two_devices : List BlockDevice
two_devices = vda ∷ vdb ∷ []

two_devices-AllPlain : AllPlain two_devices
two_devices-AllPlain = (vda-IsPlain, (vdb-IsPlain, tt))

abbrev grep : List BlockDevice → Exec Machine DeviceError String
grep ds s = (ok (printed ds), s)

abbrev start : Machine
start = record { paths = []; mounts = [] }

some_serial : ◌≢◌ {A = String} "s-1" ""
some_serial = λ e. cc

get_dev_path_lem_example : get_dev_path (grep two_devices) "s-1" start ≡ (ok "/dev/vdb", start)
unfolding device_of
get_dev_path_lem_example =
    get_dev_path_lem (grep two_devices) "s-1" two_devices start some_serial two_devices-AllPlain
      refl

-- The node has the device alone, and the driver does not find it.
one_device_is_missed : get_dev_path (grep (vdb ∷ [])) "s-1" start ≡ (err serial_not_found, start)
one_device_is_missed =
    get_dev_path_lem (grep (vdb ∷ [])) "s-1" (vdb ∷ []) start some_serial (vdb-IsPlain, tt) refl

abbrev small_os : OsFiles Machine (Unit {0})
small_os = record {
  path_exists = λ p s. (ok (contains p s.paths), s);
  mkdir_all = λ p s. (ok tt, record s { paths = p ∷ s.paths });
  open_create = λ p s. (ok tt, record s { paths = p ∷ s.paths });
  close = λ h s. (ok tt, s);
  write_file = λ p content s. (ok tt, record s { paths = p ∷ s.paths });
  remove = λ p s. (ok tt, record s { paths = remove p s.paths });
  remove_all = λ p s. (ok tt, record s { paths = remove p s.paths });
}

abbrev words : OsError → String
words e = "failed"

abbrev device_words : DeviceError → String
device_words e = "no device"

abbrev small_utils : MountUtils small_os words
small_utils = record {
  resize_fs = machine.resize_fs;
  get_device_name_from_mount = machine.get_device_name_from_mount;
  format_and_mount = machine.format_and_mount;
  mount = machine.mount;
  unmount = machine.unmount;
}

abbrev there : Machine → List BlockDevice
there s = two_devices

small_os-IsOsFiles : IsOsFiles small_os words view.exists
small_os-IsOsFiles = record {
  look_state = λ p s. refl;
  look_ok = machine-IsMounter.path_exists_ok;
  remove_gone = λ p s h. machine-IsMounter.remove_exists p s refl;
  remove_all_gone = λ p s h. machine-IsMounter.remove_exists p s refl;
  remove_all_keeps = λ p q s h. ground (arith, h, contains-remove p q s.paths);
  mkdir_made = λ p s h. machine-IsMounter.mkdir_exists p s refl;
  mkdir_there = λ p s h. absurd cc;
}

small_os-IsQuietOs : IsQuietOs small_os view.exists view.device there
small_os-IsQuietOs = record {
  mkdir_device = λ p q s. refl;
  mkdir_devices = λ p s. refl;
  open_made = λ p s h e. machine-IsMounter.mkdir_exists p s refl;
  open_there = λ p s e. absurd cc;
  close_exists = λ h p s. refl;
  remove_device = λ p q s. refl;
}

grep-IsGrep : IsGrep (grep two_devices) there
grep-IsGrep = record {
  plain = λ s. two_devices-AllPlain;
  grep_state = λ s. refl;
  grep_ok = λ s output h. ground (arith, h);
}

small_utils-IsMountUtils : IsMountUtils small_utils view.exists view.device there
small_utils-IsMountUtils = record {
  name_state = machine-IsMounter.device_name_state;
  name_ok = machine-IsMounter.device_name_ok;
  format_device = machine-IsMounter.format_device;
  format_exists = machine-IsMounter.format_exists;
  format_devices = λ source p type options s. refl;
  mount_device = machine-IsMounter.mount_device;
  mount_exists = machine-IsMounter.mount_exists;
  unmount_device = machine-IsMounter.unmount_device;
}

abbrev no_size : String → Exec Machine DeviceError String
no_size p s = (err serial_not_found, s)

new_mounter-IsMounter_example :
    IsMounter
      (new_mounter small_os words small_utils (grep two_devices) no_size device_words)
      (view_of view.exists view.device there)
new_mounter-IsMounter_example =
    new_mounter-IsMounter small_os words small_utils (grep two_devices) no_size device_words
      view.exists view.device there small_os-IsOsFiles small_os-IsQuietOs grep-IsGrep
      small_utils-IsMountUtils

small_utils-IsBindUtils : IsBindUtils small_utils view.device
small_utils-IsBindUtils = record { bind_device = machine-IsBinder.bind_device }

abbrev driver_mounter : Mounter Machine
driver_mounter = new_mounter small_os words small_utils (grep two_devices) no_size device_words

published_by_driver_example :
    (v : Volume) × (a : Attachment) × Fetched attached any_node config "v-1" v
    × (attachment_to "i-1" v.model.attachments ≡ some a)
    × (a.instance_id ≡ "i-1")
    × (device_of a.serial two_devices
        ≡ ok (
            view.device
              (node_publish_volume driver_mounter pod
                (node_stage_volume driver_mounter "k" stage node).1.node).1
              "/pod"))
unfolding node_stage_volume stage_mount stage_device ensure_dir mount_at contains lookup
    check_volume_capabilities get_mode context_map try_lock unlock node_publish_volume
    node_publish_mount_volume publish_dir bind_mount bind_options controller_publish_volume
    check_publish choose_auth publish_to attachment_to mkdir_all get_dev_path find_serial
    device_name key_value split
published_by_driver_example =
    published_by_driver attached any_node config small_os words small_utils (grep two_devices)
      no_size device_words view.exists view.device there small_os-IsOsFiles small_os-IsQuietOs
      grep-IsGrep small_utils-IsMountUtils small_utils-IsBindUtils request (server_on tt)
      {r = answer} refl "k" stage node refl refl refl pod refl refl refl refl
