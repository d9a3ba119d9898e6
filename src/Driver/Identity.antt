-- ===== src/Driver/Identity.antt =====
-- The identity services of both drivers (pkg/driver/cds/identity.go, pkg/driver/bos/identity.go),
-- the lists of their servers' capabilities, and `NodeGetInfo`.
use baiducloud_cce_csi_drive.Base.{String, List, [], ◌∷◌, ◌==◌, if◌then◌else◌}
use baiducloud_cce_csi_drive.Base.Int.{ℤ, pos, ltb_ℤ}
use baiducloud_cce_csi_drive.Csi.{Topology}
use baiducloud_cce_csi_drive.Driver.Options.{NodeOptions, DriverOptions}

abbrev pub cds_driver_name : String
cds_driver_name = "cds.csi.baidubce.com"

abbrev pub bos_driver_name : String
bos_driver_name = "bos.csi.baidubce.com"

pub record PluginInfo : Type 0 where
  pub name : String
  pub vendor_version : String

unfoldable pub cds_get_plugin_info : DriverOptions → PluginInfo
cds_get_plugin_info options = record {
  name =
      if options.override_driver_name == "" then cds_driver_name else options.override_driver_name;
  vendor_version = options.driver_version;
}

unfoldable pub bos_get_plugin_info : DriverOptions → PluginInfo
bos_get_plugin_info options = record {
  name =
      if options.override_driver_name == "" then bos_driver_name else options.override_driver_name;
  vendor_version = options.driver_version;
}

-- The values of the CSI enums that the drivers answer with.
pub data PluginCapability : Type 0 where
  controller_service volume_accessibility_constraints offline_expansion online_expansion :
      PluginCapability

pub data ControllerRpc : Type 0 where
  create_delete_volume publish_unpublish_volume controller_expand : ControllerRpc

pub data NodeRpc : Type 0 where
  unknown_rpc stage_unstage_volume get_volume_stats node_expand : NodeRpc

unfoldable pub cds_get_plugin_capabilities : DriverOptions → List PluginCapability
cds_get_plugin_capabilities options =
    controller_service
    ∷ volume_accessibility_constraints
    ∷ (if options.enable_online_expansion then online_expansion else offline_expansion)
    ∷ []

unfoldable pub bos_get_plugin_capabilities : DriverOptions → List PluginCapability
bos_get_plugin_capabilities options = []

abbrev pub controller_caps : List ControllerRpc
controller_caps = create_delete_volume ∷ publish_unpublish_volume ∷ controller_expand ∷ []

abbrev pub cds_node_caps : List NodeRpc
cds_node_caps = stage_unstage_volume ∷ get_volume_stats ∷ node_expand ∷ []

abbrev pub bos_node_caps : List NodeRpc
bos_node_caps = unknown_rpc ∷ []

-- The response of `NodeGetInfo`; a topology of `none` entries is nil. Zero volumes mean no limit.
pub record NodeInfo : Type 0 where
  pub node_id : String
  pub max_volumes_per_node : ℤ
  pub accessible_topology : Topology

-- `if server.options.MaxVolumesPerNode > 0`
abbrev pub volume_limit : ℤ → ℤ
volume_limit n = if ltb_ℤ (pos 0) n then n else pos 0

unfoldable pub cds_node_get_info :
    (label_failure_domain_beta_zone : String) → NodeOptions → NodeInfo
cds_node_get_info label options = record {
  node_id = options.node_id;
  max_volumes_per_node = volume_limit options.max_volumes_per_node;
  accessible_topology = (label, options.zone) ∷ [];
}

unfoldable pub bos_node_get_info : NodeOptions → NodeInfo
bos_node_get_info options = record {
  node_id = options.node_id;
  max_volumes_per_node = volume_limit options.max_volumes_per_node;
  accessible_topology = [];
}

-- `ControllerGetCapabilities` and `NodeGetCapabilities`, which copy the lists.
unfoldable pub controller_get_capabilities : List ControllerRpc
controller_get_capabilities = controller_caps

unfoldable pub cds_node_get_capabilities : List NodeRpc
cds_node_get_capabilities = cds_node_caps

unfoldable pub bos_node_get_capabilities : List NodeRpc
bos_node_get_capabilities = bos_node_caps
