-- ===== src/Driver/Options.antt =====
-- pkg/driver/common/options.go: the options of a driver, and the functions that set them.
use baiducloud_cce_csi_drive.Base.{String, Bool, false, List, [], ◌∷◌}
use baiducloud_cce_csi_drive.Base.Int.{ℤ, pos}

abbrev pub driver_mode_controller : String
driver_mode_controller = "controller"

abbrev pub driver_mode_node : String
driver_mode_node = "node"

abbrev pub driver_mode_all : String
driver_mode_all = "all"

pub record ControllerOptions : Type 0 where
  pub cluster_id : String

pub record NodeOptions : Type 0 where
  pub node_id : String
  pub zone : String
  pub max_volumes_per_node : ℤ

pub record EndpointOptions : Type 0 where
  pub bcc_endpoint : String
  pub cds_endpoint : String
  pub bos_endpoint : String

pub record ImageOptions : Type 0 where
  pub bosfs_image : String

-- The types `DriverMode`, `AuthMode` and `TopologyMode` are texts.
pub record DriverOptions : Type 0 where
  pub controller_options : ControllerOptions
  pub node_options : NodeOptions
  pub endpoint_options : EndpointOptions
  pub image_options : ImageOptions
  pub override_driver_name : String
  pub driver_version : String
  pub mode : String
  pub auth_mode : String
  pub region : String
  pub topology_mode : String
  pub enable_online_expansion : Bool

-- `var options common.DriverOptions`
abbrev pub zero_options : DriverOptions
zero_options = record {
  controller_options = record { cluster_id = "" };
  node_options = record { node_id = ""; zone = ""; max_volumes_per_node = pos 0 };
  endpoint_options = record { bcc_endpoint = ""; cds_endpoint = ""; bos_endpoint = "" };
  image_options = record { bosfs_image = "" };
  override_driver_name = "";
  driver_version = "";
  mode = "";
  auth_mode = "";
  region = "";
  topology_mode = "";
  enable_online_expansion = false;
}

abbrev pub SetOption : Type 0
SetOption = DriverOptions → DriverOptions

abbrev pub with_version : String → SetOption
with_version version o = record o { driver_version = version }

abbrev pub with_mode : String → SetOption
with_mode mode o = record o { mode = mode }

abbrev pub with_region : String → SetOption
with_region region o = record o { region = region }

abbrev pub with_cluster_id : String → SetOption
with_cluster_id cluster_id o = record o { controller_options = record { cluster_id = cluster_id } }

abbrev pub with_auth_mode : String → SetOption
with_auth_mode mode o = record o { auth_mode = mode }

abbrev pub with_node_id : String → SetOption
with_node_id node_id o = record o { node_options = record o.node_options { node_id = node_id } }

abbrev pub with_zone : String → SetOption
with_zone zone o = record o { node_options = record o.node_options { zone = zone } }

abbrev pub with_max_volumes_per_node : ℤ → SetOption
with_max_volumes_per_node n o = record o {
  node_options = record o.node_options { max_volumes_per_node = n };
}

abbrev pub with_bcc_endpoint : String → SetOption
with_bcc_endpoint endpoint o = record o {
  endpoint_options = record o.endpoint_options { bcc_endpoint = endpoint };
}

abbrev pub with_cds_endpoint : String → SetOption
with_cds_endpoint endpoint o = record o {
  endpoint_options = record o.endpoint_options { cds_endpoint = endpoint };
}

abbrev pub with_bos_endpoint : String → SetOption
with_bos_endpoint endpoint o = record o {
  endpoint_options = record o.endpoint_options { bos_endpoint = endpoint };
}

abbrev pub with_bosfs_image : String → SetOption
with_bosfs_image image o = record o { image_options = record { bosfs_image = image } }

abbrev pub with_topology_mode : String → SetOption
with_topology_mode mode o = record o { topology_mode = mode }

abbrev pub with_override_driver_name : String → SetOption
with_override_driver_name name o = record o { override_driver_name = name }

abbrev pub with_enable_online_expansion : Bool → SetOption
with_enable_online_expansion enable o = record o { enable_online_expansion = enable }

-- `for _, setOption := range setOptions { setOption(&options) }`
abbrev pub set_all : List SetOption → SetOption
set_all [] o = o
set_all (f ∷ fs) o = set_all fs (f o)
