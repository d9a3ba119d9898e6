-- ===== src/Driver/Bos.antt =====
-- pkg/driver/bos/driver.go: the driver of buckets, with `NewBOSService` of pkg/cloud/bos.go. Making
-- a client of Docker from the environment is a parameter.
pub mod Built
use baiducloud_cce_csi_drive.Base.{
  String, ◌||◌, Option, none, some, List, ◌==◌, Exec, ◌>>=◌, ◌>>◌, pure, fail, or_fail, lift,
  Result, ok, err, if◌then◌else◌,
}
use baiducloud_cce_csi_drive.Cloud.Metadata.{HttpClient}
use baiducloud_cce_csi_drive.Driver.Topology.{Kubernetes}
use baiducloud_cce_csi_drive.Driver.Options.{
  driver_mode_controller, driver_mode_node, driver_mode_all, DriverOptions, SetOption, zero_options,
  set_all,
}
use baiducloud_cce_csi_drive.Driver.Cds.{
  DriverError, empty_endpoint, controller_not_supported, no_docker_client, locate_node,
}

-- `nodeServer`, told by the endpoint of its service, the image of its mounter and its options.
pub record BosNode : Type 0 where
  pub endpoint : String
  pub image : String
  pub node_options : DriverOptions

-- `Driver`
pub record BosDriver : Type 0 where
  pub node_server : Option BosNode
  pub options : DriverOptions

-- `NewBOSService`, told by the endpoint of its clients.
unfoldable pub new_bos_service : (endpoint : String) → Result DriverError String
new_bos_service endpoint = if endpoint == "" then err empty_endpoint else ok endpoint

module _ {N C K B : Type 0} (k8s : Kubernetes N C K) (http : HttpClient N B)
    (new_docker_client : Exec N String (Unit {0})) where
  unfoldable pub build_bos_node : DriverOptions → Exec N DriverError BosDriver
  build_bos_node o = do
    located ← locate_node k8s http o
    endpoint ← lift (new_bos_service located.endpoint_options.bos_endpoint)
    or_fail new_docker_client no_docker_client
    pure (record {
      node_server = some (record {
        endpoint = located.endpoint_options.bos_endpoint;
        image = located.image_options.bosfs_image;
        node_options = located;
      });
      options = located;
    })

  unfoldable pub new_bos_driver : List SetOption → Exec N DriverError BosDriver
  new_bos_driver set_options =
      let o = set_all set_options zero_options in
      if o.mode == driver_mode_controller
      then fail controller_not_supported
      else if o.mode == driver_mode_node || o.mode == driver_mode_all
      then build_bos_node o
      else pure (record { node_server = none; options = o })
