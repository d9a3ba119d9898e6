-- ===== src/Driver/Cds.antt =====
-- pkg/driver/cds/driver.go: the driver of cloud disks, with `NewCDSService` and `NewBCCService` of
-- pkg/cloud and `newControllerServer` and `newNodeServer`. The SDK's client of an endpoint and a
-- region is a parameter, with the fuel of its listings.
pub mod Located
pub mod Built
pub mod Reported
use baiducloud_cce_csi_drive.Base.{
  ℕ, String, ◌&&◌, ◌||◌, Option, none, some, List, [], ◌==◌, Result, ok, err, Exec, ◌>>=◌, pure,
  lift, or_fail, if◌then◌else◌,
}
use baiducloud_cce_csi_drive.Util.KeyMutex.{new_key_mutex}
use baiducloud_cce_csi_drive.Cloud.Auth.{auth_mode_cce_gateway, choose_auth}
use baiducloud_cce_csi_drive.Cloud.Service.{VolumeService, NodeService}
use baiducloud_cce_csi_drive.Cloud.Sdk.{Client}
use baiducloud_cce_csi_drive.Cloud.Cds.{cds_service, bcc_service}
use baiducloud_cce_csi_drive.Cloud.Metadata.{HttpClient}
use baiducloud_cce_csi_drive.Controller.Server.{Server, Config}
use baiducloud_cce_csi_drive.Node.Mounter.{NodeServer}
use baiducloud_cce_csi_drive.Driver.Topology.{
  Kubernetes, NodeError, TopologyError, get_cce_cluster_id_from_node_labels, get_node_topology,
}
use baiducloud_cce_csi_drive.Driver.Options.{
  driver_mode_controller, driver_mode_node, driver_mode_all, NodeOptions, DriverOptions, SetOption,
  zero_options, set_all, with_node_id, with_zone, with_cluster_id,
}

pub data DriverError : Type 0 where
  empty_endpoint : DriverError
  no_cluster_id : NodeError → DriverError
  no_topology : TopologyError → DriverError
  controller_not_supported : DriverError
  no_docker_client : (message : String) → DriverError

-- The endpoints and regions are those of the SDK's client.
abbrev pub ClientOf : Type 0 → Type 0
ClientOf W = (endpoint region : String) → Client W

unfoldable pub new_cds_service :
    {W : Type 0}
    → ClientOf W
    → ℕ
    → (endpoint region : String) → Result DriverError (VolumeService W)
new_cds_service client fuel endpoint region =
    if endpoint == "" then err empty_endpoint else ok (cds_service (client endpoint region) fuel)

unfoldable pub new_bcc_service :
    {W : Type 0} → ClientOf W → (endpoint region : String) → Result DriverError (NodeService W)
new_bcc_service client endpoint region =
    if endpoint == "" then err empty_endpoint else ok (bcc_service (client endpoint region))

-- `controllerServer`: its services, its configuration, and the state that it starts with.
pub record Controller (W : Type 0) : Type 0 where
  pub volume_service : VolumeService W
  pub node_service : NodeService W
  pub config : Config
  pub server : W → Server W

-- `newControllerServer`; the labels are constants of `k8s.io/api`.
unfoldable pub new_controller_server :
    {W : Type 0}
    → (label_zone_failure_domain label_failure_domain_beta_zone : String) → VolumeService W
    → NodeService W
    → DriverOptions
    → Controller W
new_controller_server label beta_label volume_service node_service o = record {
  volume_service = volume_service;
  node_service = node_service;
  config = record {
    cluster_id = o.controller_options.cluster_id;
    get_auth = choose_auth o.auth_mode o.region o.controller_options.cluster_id;
    enable_online_expansion = o.enable_online_expansion;
    label_zone_failure_domain = label;
    label_failure_domain_beta_zone = beta_label;
  };
  server =
      λ w. record { cloud = w; creating_volume_cache = []; in_process_requests = new_key_mutex };
}

-- `newNodeServer`, on the node whose state it starts with.
unfoldable pub new_node_server : {F : Type 0} → F → NodeServer F
new_node_server node = record { node = node; in_process_requests = new_key_mutex }

-- `Driver`: a server that does not run is nil. The node's server is told by its options.
pub record Driver (W : Type 0) : Type 0 where
  pub controller_server : Option (Controller W)
  pub node_server : Option NodeOptions
  pub options : DriverOptions

module _ {N C K : Type 0} (k8s : Kubernetes N C K) where
  -- `controllerOptions.ClusterID`, looked up for the gateway where it is empty.
  unfoldable pub locate_cluster : DriverOptions → Exec N DriverError DriverOptions
  locate_cluster o =
      if (o.auth_mode == auth_mode_cce_gateway) && (o.controller_options.cluster_id == "")
      then (do
        cluster_id ← or_fail (get_cce_cluster_id_from_node_labels k8s) no_cluster_id
        pure (with_cluster_id cluster_id o))
      else pure o

module _ {N C K B : Type 0} (k8s : Kubernetes N C K) (http : HttpClient N B) where
  -- The options of the node's server, looked up where one of them is empty; both drivers have it.
  unfoldable pub locate_node : DriverOptions → Exec N DriverError DriverOptions
  locate_node o =
      if o.node_options.node_id == "" || o.node_options.zone == ""
      then (do
        found ← or_fail (get_node_topology k8s http o.topology_mode) no_topology
        pure (with_zone found.1 (with_node_id found.0 o)))
      else pure o

  -- The part for the node.
  unfoldable pub build_node :
      DriverOptions → Exec N DriverError (Option NodeOptions × DriverOptions)
  build_node o =
      if o.mode == driver_mode_node || o.mode == driver_mode_all
      then (do located ← locate_node o; pure (some located.node_options, located))
      else pure (none, o)

  module _ {W : Type 0} (client : ClientOf W) (fuel : ℕ) (label_zone_failure_domain : String) where
    -- The part of `NewDriver` for the controller, with the options as it leaves them.
    unfoldable pub build_controller :
        DriverOptions → Exec N DriverError (Option (Controller W) × DriverOptions)
    build_controller o =
        if o.mode == driver_mode_controller || o.mode == driver_mode_all
        then (do
          cds ← lift (new_cds_service client fuel o.endpoint_options.cds_endpoint o.region)
          bcc ← lift (new_bcc_service client o.endpoint_options.bcc_endpoint o.region)
          located ← locate_cluster k8s o
          pure (
            some (
                new_controller_server label_zone_failure_domain k8s.label_failure_domain_beta_zone
                  cds bcc located),
            located,
          ))
        else pure (none, o)

    unfoldable pub new_driver : List SetOption → Exec N DriverError (Driver W)
    new_driver set_options = do
      controller ← build_controller (set_all set_options zero_options)
      node ← build_node controller.1
      pure (record { controller_server = controller.0; node_server = node.0; options = node.1 })
