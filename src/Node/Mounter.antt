-- ===== src/Node/Mounter.antt =====
-- The interface `Mounter` of pkg/driver/cds/mount.go, with `FileSystem` of
-- pkg/driver/common/filesystem.go, over an unknown state `F` of the node, and what the handlers of
-- the node server share. An error is its text.
use baiducloud_cce_csi_drive.Base.{String, Bool, List, Exec, or_fail, Option, none, some, lookup}
use baiducloud_cce_csi_drive.Base.Int.{ℤ}
use baiducloud_cce_csi_drive.Util.KeyMutex.{KeyMutex}
use baiducloud_cce_csi_drive.Csi.{Code, AccessType, no_access_type, VolumeCapability}

pub record FileSystem (F : Type 0) : Type 0 where
  pub path_exists : String → Exec F String Bool
  pub mkdir_all : String → Exec F String (Unit {0})
  pub make_file : String → Exec F String (Unit {0})
  pub write_file : (path content : String) → Exec F String (Unit {0})
  pub remove_path : String → Exec F String (Unit {0})
  pub remove_all : String → Exec F String (Unit {0})

pub record Mounter (F : Type 0) : Type 0 where
  pub fs : FileSystem F
  pub open fs use *
  pub get_dev_path : (serial : String) → Exec F String String
  pub get_device_size : (dev_path : String) → Exec F String ℤ
  pub resize_fs : (dev_path path : String) → Exec F String (Unit {0})
  pub get_device_name_from_mount : (path : String) → Exec F String (String × ℤ)
  pub format_and_mount :
      (source target fs_type : String) (options : List String) → Exec F String (Unit {0})
  pub mount : (source target fs_type : String) (options : List String) → Exec F String (Unit {0})
  pub unmount : (target : String) → Exec F String (Unit {0})

-- `nodeServer`: the node, and the requests in process.
pub record NodeServer (F : Type 0) : Type 0 where
  pub node : F
  pub in_process_requests : KeyMutex

-- `if err := m; err != nil { return status.Errorf(codes.Internal, …) }`
abbrev pub internal : {F A : Type 0} → Exec F String A → Exec F Code A
internal m = or_fail m (λ _. Code.internal)

-- A part of a handler that acts on the node alone.
abbrev pub on_node : {F A : Type 0} → Exec F Code A → Exec (NodeServer F) Code A
on_node m s = ((m s.node).0, record s { node = (m s.node).1 })

abbrev pub default_fs_type : String
default_fs_type = "ext4"

-- A read of a Go map: the empty text where the key is missing.
abbrev pub value_of : String → List (String × String) → String
value_of key m = elim (lookup key m) [ some v ↦ v | none ↦ "" ]

-- `volumeCap.GetAccessType()`
abbrev pub access_type_of : Option VolumeCapability → AccessType
access_type_of none = no_access_type
access_type_of (some c) = c.access_type
