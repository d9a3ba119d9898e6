-- ===== src/Csi.antt =====
-- The messages of the CSI specification that the driver reads and returns, without fields that it
-- never touches. The generated Go code is not part of the repository: a getter gives the zero value
-- of its type where a message on its way is nil, so what may be nil is an `Option`.
use baiducloud_cce_csi_drive.Base.{ℕ, String, Bool, true, false, Option, none, some, List}
use baiducloud_cce_csi_drive.Base.Int.{ℤ}

-- google.golang.org/grpc/codes, those that the drivers return; no error is `codes.OK`.
pub data Code : Type 0 where
  invalid_argument not_found already_exists failed_precondition aborted out_of_range internal
        unavailable :
      Code

-- The numbers of the enum `VolumeCapability_AccessMode_Mode`.
abbrev pub AccessMode : Type 0
AccessMode = ℕ

abbrev pub unknown : AccessMode
unknown = 0

abbrev pub single_node_writer : AccessMode
single_node_writer = 1

-- The oneof `access_type`.
pub data AccessType : Type 0 where
  no_access_type : AccessType
  block : AccessType
  mount : (fs_type : String) (mount_flags : List String) → AccessType

pub record VolumeCapability : Type 0 where
  pub access_mode : Option AccessMode
  pub access_type : AccessType

pub record CapacityRange : Type 0 where
  pub required_bytes : ℤ
  pub limit_bytes : ℤ

-- The segments of a topology, a Go map.
abbrev pub Topology : Type 0
Topology = List (String × String)

pub record TopologyRequirement : Type 0 where
  pub requisite : List Topology
  pub preferred : List Topology

-- A Go `map[string]string` that may be nil.
abbrev pub StringMap : Type 0
StringMap = Option (List (String × String))

-- `requiredCap.GetAccessMode().GetMode()`
unfoldable pub get_mode : Option VolumeCapability → AccessMode
get_mode none = unknown
get_mode (some c) = elim c.access_mode [ none ↦ unknown | some m ↦ m ]

-- `volumeCap.GetBlock() != nil`
unfoldable pub is_block : Option VolumeCapability → Bool
is_block none = false
is_block (some c) = elim c.access_type [ block ↦ true | _ ↦ false ]
