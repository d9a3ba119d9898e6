-- ===== src/Command/Program.antt =====
-- `main` of cmd/main.go: the driver that the flags name.
pub mod Started
pub mod Ran
use baiducloud_cce_csi_drive.Base.{
  ℕ, String, Option, none, some, List, [], ◌∷◌, ◌==◌, Result, ok, err, Exec, if◌then◌else◌,
}
use baiducloud_cce_csi_drive.Cloud.Metadata.{HttpClient}
use baiducloud_cce_csi_drive.Driver.Topology.{Kubernetes}
use baiducloud_cce_csi_drive.Driver.Options.{
  SetOption, with_version, with_mode, with_region, with_cluster_id, with_auth_mode,
  with_bcc_endpoint, with_cds_endpoint, with_bos_endpoint, with_max_volumes_per_node,
  with_bosfs_image, with_topology_mode, with_override_driver_name, with_enable_online_expansion,
}
use baiducloud_cce_csi_drive.Driver.Cds.{DriverError, ClientOf, Driver, new_driver}
use baiducloud_cce_csi_drive.Driver.Bos.{BosDriver, new_bos_driver}
use baiducloud_cce_csi_drive.Command.Flags.{
  driver_type_cds, driver_type_bos, Flags, Options, FlagError, parse_flags,
}

-- What becomes of the program. A driver that runs is told by itself and the endpoint that it serves.
pub data Run (W : Type 0) : Type 0 where
  version_shown : Run W
  invalid_options : FlagError → Run W
  init_failed : DriverError → Run W
  unsupported_driver_type : (driver_type : String) → Run W
  cds_running : Driver W → (endpoint : String) → Run W
  bos_running : BosDriver → (endpoint : String) → Run W

-- The options that `main` passes to the constructor of the driver.
abbrev pub cds_set_options : String → Options → List SetOption
cds_set_options version o =
    with_version version
    ∷ with_mode o.mode
    ∷ with_region o.region
    ∷ with_cluster_id o.cluster_id
    ∷ with_auth_mode o.auth_mode
    ∷ with_bcc_endpoint o.bcc_endpoint
    ∷ with_cds_endpoint o.cds_endpoint
    ∷ with_max_volumes_per_node o.max_volumes_per_node
    ∷ with_topology_mode o.topology_mode
    ∷ with_override_driver_name o.override_driver_name
    ∷ with_enable_online_expansion o.enable_online_expansion
    ∷ []

abbrev pub bos_set_options : String → Options → List SetOption
bos_set_options version o =
    with_version version
    ∷ with_mode o.mode
    ∷ with_region o.region
    ∷ with_cluster_id o.cluster_id
    ∷ with_auth_mode o.auth_mode
    ∷ with_bos_endpoint o.bos_endpoint
    ∷ with_max_volumes_per_node o.max_volumes_per_node
    ∷ with_bosfs_image o.bosfs_image
    ∷ with_topology_mode o.topology_mode
    ∷ with_override_driver_name o.override_driver_name
    ∷ []

-- `if err != nil { … os.Exit(1) }`, and `driver.Run` otherwise.
abbrev started : {W A N : Type 0} → (A → Run W) → Result DriverError A × N → Run W × N
started run (ok driver, s) = (run driver, s)
started run (err e, s) = (init_failed e, s)

module _ {N C K B W : Type 0} (k8s : Kubernetes N C K) (http : HttpClient N B)
    (new_docker_client : Exec N String (Unit {0})) (client : ClientOf W) (fuel : ℕ)
    (label_zone_failure_domain : String) where
  -- The `switch` of `main`.
  unfoldable pub start : (version : String) → Options → N → Run W × N
  start version o s =
      if o.driver_type == driver_type_cds
      then started (λ d. cds_running d o.csi_endpoint)
          (new_driver k8s http client fuel label_zone_failure_domain (cds_set_options version o) s)
      else if o.driver_type == driver_type_bos
      then started (λ d. bos_running d o.csi_endpoint)
          (new_bos_driver k8s http new_docker_client (bos_set_options version o) s)
      else (unsupported_driver_type o.driver_type, s)

  abbrev run_parsed : Option (Result FlagError Options × String) → N → Run W × N
  run_parsed none s = (version_shown, s)
  run_parsed (some (err e, version)) s = (invalid_options e, s)
  run_parsed (some (ok o, version)) s = start version o s

  unfoldable pub main : Flags → (driver_version : String) → N → Run W × N
  main flags driver_version s = run_parsed (parse_flags flags driver_version) s
