-- ===== src/Tests/Programs.antt =====
-- The program over small nodes and clouds: the topology, the command line, the driver and its server.
use baiducloud_cce_csi_drive.Base.{
  ◌++◌, Option, none, String, true, false, some, List, [], ◌∷◌, ◌≡◌, ◌≢◌, refl, arith, ok, err,
  contains, contains-remove, eq_refl, remove, lookup, if◌then◌else◌,
}
use baiducloud_cce_csi_drive.Base.Int.{pos, neg_part}
use baiducloud_cce_csi_drive.Util.Os.{is_not_exist}
use baiducloud_cce_csi_drive.Util.Text.{to_lower, split_first, strip_prefix}
use baiducloud_cce_csi_drive.Util.FilePath.{dir}
use baiducloud_cce_csi_drive.Util.Endpoint.{parse_grpc_endpoint}
use baiducloud_cce_csi_drive.Cloud.Sdk.{Client, client_error}
use baiducloud_cce_csi_drive.Cloud.Metadata.{HttpClient, read_endpoint, new_meta_data_service}
use baiducloud_cce_csi_drive.Controller.Zone.{get_volume_zone}
use baiducloud_cce_csi_drive.Driver.Topology.{
  Kubernetes, get_self_node, read_node, get_node_topology_from_k8s_node,
  get_node_topology_from_meta_service, auto_topology, get_node_topology,
}
use baiducloud_cce_csi_drive.Driver.Topology.Found.{Origin, get_node_topology_ok}
use baiducloud_cce_csi_drive.Driver.Options.{
  NodeOptions, SetOption, set_all, zero_options, with_mode, with_topology_mode,
  with_max_volumes_per_node, with_node_id, with_zone,
}
use baiducloud_cce_csi_drive.Driver.Cds.{
  Driver, locate_node, build_controller, build_node, new_driver,
}
use baiducloud_cce_csi_drive.Driver.Bos.{new_bos_service, build_bos_node, new_bos_driver}
use baiducloud_cce_csi_drive.Driver.Run.{cds_run}
use baiducloud_cce_csi_drive.Driver.Run.Served.{cds_run_ok}
use baiducloud_cce_csi_drive.Driver.Identity.{cds_node_get_info}
use baiducloud_cce_csi_drive.Driver.Cds.Reported.{cds_node_get_info-get_volume_zone}
use baiducloud_cce_csi_drive.Driver.Serve.{
  Os, identity, node, listen_address, prepare_socket, registered, serve,
}
use baiducloud_cce_csi_drive.Driver.Serve.Listening.{IsOs, Listened}
use baiducloud_cce_csi_drive.Command.Flags.{
  Flags, default_flags, common_options, parse_cds_driver_flags, endpoint_or, bos_driver_mode,
  bos_auth_mode, parse_bos_driver_flags, parse_options, parse_flags,
}
use baiducloud_cce_csi_drive.Command.Flags.Accepted.{Tells, parse_cds_driver_flags-Tells}
use baiducloud_cce_csi_drive.Command.Program.{
  Run, unsupported_driver_type, bos_running, start, main,
}
use baiducloud_cce_csi_drive.Command.Program.Ran.{IsRun, main-IsRun}

-- A node without a metadata service, whose object in Kubernetes has a provider's identifier.
abbrev k8s : Kubernetes (Unit {0}) (Unit {0}) (Unit {0})
k8s = record {
  getenv = λ key w. "node-1";
  in_cluster_config = λ w. (ok tt, w);
  new_for_config = λ config w. (ok tt, w);
  get_node = λ client name w.
      (ok (record { provider_id = "cce://i-1"; labels = ("beta", "zoneA") ∷ [] }), w);
  label_failure_domain_beta_zone = "beta";
}

abbrev no_http : HttpClient (Unit {0}) (Unit {0})
no_http = record { get = λ url w. (err "timeout", w); read_all = λ body w. (ok "", w) }

found_in_kubernetes :
    Origin k8s no_http "auto" "i-1" "zoneA" tt
    × ◌≢◌ {A = String} "i-1" ""
    × ◌≢◌ {A = String} "zoneA" ""
unfolding get_node_topology auto_topology get_node_topology_from_meta_service new_meta_data_service
    read_endpoint get_node_topology_from_k8s_node get_self_node read_node lookup strip_prefix
found_in_kubernetes = get_node_topology_ok k8s no_http "auto" tt refl

abbrev flags : Flags
flags = record default_flags {
  driver_type = "cds";
  csi_endpoint = "unix://csi.sock";
  region = "gz";
}

flags_told :
    Tells flags (common_options flags) (parse_cds_driver_flags flags (common_options flags))
flags_told = parse_cds_driver_flags-Tells flags (common_options flags)

-- A client of a cloud that refuses everything.
abbrev no_client : (endpoint region : String) → Client (Unit {0})
no_client endpoint region = record {
  payment_timing_pre_paid = "Prepaid";
  create_cds_volume = λ auth args w. (err client_error, w);
  get_cds_volume_detail = λ auth id w. (err client_error, w);
  list_cds_volume = λ auth max_keys marker w. (err client_error, w);
  delete_cds_volume = λ auth id w. (err client_error, w);
  attach_cds_volume = λ auth id instance_id w. (err client_error, w);
  detach_cds_volume = λ auth id instance_id w. (err client_error, w);
  resize_cds_volume = λ auth id size type w. (err client_error, w);
  get_instance_detail = λ auth id w. (err client_error, w);
}

abbrev bucket_flags : Flags
bucket_flags = record flags { driver_type = "bos"; mode = "node"; bosfs_image = "bosfs:1" }

abbrev unknown_flags : Flags
unknown_flags = record flags { driver_type = "pfs" }

-- The endpoint and the image of a driver of buckets, and the socket that it is served at.
abbrev buckets_at : {W : Type 0} → Run W → Option (String × String × String)
buckets_at (bos_running d socket) = elim d.node_server [
  | none ↦ none
  | some n ↦ some (n.endpoint, n.image, socket)
]
buckets_at _ = none

-- The program serves buckets at its socket, at the endpoint of the region.
bucket_started :
    buckets_at (main k8s no_http (λ w. (ok tt, w)) no_client 10 "zone" bucket_flags "1.0" tt).0
    ≡ some ("gz.bcebos.com", "bosfs:1", "unix://csi.sock")
unfolding main start parse_flags parse_options common_options parse_bos_driver_flags bos_driver_mode
    bos_auth_mode endpoint_or new_bos_driver build_bos_node new_bos_service locate_node
    get_node_topology auto_topology get_node_topology_from_meta_service new_meta_data_service
    read_endpoint get_node_topology_from_k8s_node get_self_node read_node lookup strip_prefix
bucket_started = refl

-- The type that is reported is not the one that was asked for.
unknown_type_reported :
    (main k8s no_http (λ w. (ok tt, w)) no_client 10 "zone" unknown_flags "1.0" tt).0
    ≡ unsupported_driver_type ""
unfolding main start parse_flags parse_options common_options
unknown_type_reported = refl

main-IsRun_example :
    IsRun k8s no_http
      (λ w. (ok tt, w))
      bucket_flags
      (main k8s no_http (λ w. (ok tt, w)) no_client 10 "zone" bucket_flags "1.0" tt).0
main-IsRun_example =
    main-IsRun k8s no_http (λ w. (ok tt, w)) no_client 10 "zone" bucket_flags "1.0" tt

abbrev set_options : List SetOption
set_options = with_mode "node" ∷ with_topology_mode "auto" ∷ with_max_volumes_per_node (pos 5) ∷ []

-- The node is looked up in Kubernetes, and its server built.
abbrev node_driver : Driver (Unit {0})
node_driver = record {
  controller_server = none;
  node_server = some (record { node_id = "i-1"; zone = "zoneA"; max_volumes_per_node = pos 5 });
  options = set_all (set_options ++ (with_node_id "i-1" ∷ with_zone "zoneA" ∷ [])) zero_options;
}

node_driver_built : (new_driver k8s no_http no_client 10 "beta" set_options tt).0 ≡ ok node_driver
unfolding new_driver build_controller build_node locate_node get_node_topology auto_topology
    get_node_topology_from_meta_service new_meta_data_service read_endpoint
    get_node_topology_from_k8s_node get_self_node read_node lookup strip_prefix
node_driver_built = refl

cds_node_get_info-get_volume_zone_example :
    let n : NodeOptions = record {
      node_id = "i-1";
      zone = "zoneA";
      max_volumes_per_node = pos 5;
    } in
    let info = cds_node_get_info "beta" n in
    (info.node_id ≢ "")
    × (neg_part info.max_volumes_per_node ≡ 0)
    × (get_volume_zone "beta"
          (some (record { requisite = []; preferred = info.accessible_topology ∷ [] }))
        ≡ n.zone)
    × (n.zone ≢ "")
cds_node_get_info-get_volume_zone_example =
    cds_node_get_info-get_volume_zone k8s no_http no_client 10 "beta" set_options tt [] [] refl
      node_driver_built refl

-- An operating system as the list of its paths.
abbrev machine : Os (List String)
machine = record {
  mkdir_all = λ p s. (ok tt, p ∷ s);
  remove = λ p s. ((if contains p s then ok tt else err is_not_exist), remove p s);
  listen = λ proto addr s. (ok tt, addr ∷ s);
}

machine-IsOs : IsOs machine (λ s p. contains p s)
unfolding contains
machine-IsOs = record {
  made = λ p s h. ground (arith, eq_refl p);
  there = λ p s h. ground (arith, eq_refl p);
  removed = λ p s h. ground (arith, contains-remove p p s, eq_refl p);
  missing = λ p s h. ground (arith, contains-remove p p s, eq_refl p);
}

cds_run_ok_example :
    Listened machine (λ s p. contains p s) machine-IsOs "unix://csi.sock"
    × (identity ∷ node ∷ [] ≡ registered true false true)
unfolding cds_run serve parse_grpc_endpoint to_lower split_first strip_prefix prepare_socket
    listen_address registered dir contains remove
cds_run_ok_example =
    cds_run_ok k8s no_http no_client 10 "beta" machine (λ s p. contains p s) machine-IsOs
      set_options tt "unix://csi.sock" [] node_driver_built refl
