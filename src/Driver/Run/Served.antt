-- ===== src/Driver/Run/Served.antt =====
-- What a driver of cloud disks serves.
use baiducloud_cce_csi_drive.Base.{
  ℕ, String, Bool, true, ◌||◌, Option, none, some, List, ◌==◌, ◌≡◌, ap, ◌∙◌, arith, eq_iff, ok,
  is_some,
}
use baiducloud_cce_csi_drive.Base.Int.{ℤ}
use baiducloud_cce_csi_drive.Cloud.Metadata.{HttpClient}
use baiducloud_cce_csi_drive.Driver.Topology.{Kubernetes}
use baiducloud_cce_csi_drive.Driver.Options.{
  driver_mode_controller, driver_mode_node, driver_mode_all, NodeOptions, DriverOptions, SetOption,
  zero_options, set_all,
}
use baiducloud_cce_csi_drive.Driver.Cds.{ClientOf, Controller, Driver, new_driver}
use baiducloud_cce_csi_drive.Driver.Cds.Located.{IsNode}
use baiducloud_cce_csi_drive.Driver.Cds.Built.{IsController, new_driver_ok}
use baiducloud_cce_csi_drive.Driver.Serve.{Os, Service, registered}
use baiducloud_cce_csi_drive.Driver.Serve.Listening.{IsOs, Listened, serve_ok}
use baiducloud_cce_csi_drive.Driver.Run.{cds_run}

controller_of_mode :
    {W : Type 0} (o : DriverOptions) (c : Option (Controller W))
    → IsController o c
    → is_some c ≡ (o.mode == driver_mode_controller || o.mode == driver_mode_all)
controller_of_mode o none h =
    ground (arith, h, eq_iff o.mode driver_mode_controller, eq_iff o.mode driver_mode_all)
controller_of_mode o (some c) h =
    ground (arith, h.0, eq_iff o.mode driver_mode_controller, eq_iff o.mode driver_mode_all)

node_of_mode :
    (mode : String) (limit : ℤ) (n : Option NodeOptions)
    → IsNode mode limit n
    → is_some n ≡ (mode == driver_mode_node || mode == driver_mode_all)
node_of_mode mode limit none h =
    ground (arith, h, eq_iff mode driver_mode_node, eq_iff mode driver_mode_all)
node_of_mode mode limit (some n) h =
    ground (arith, h.0, eq_iff mode driver_mode_node, eq_iff mode driver_mode_all)

module _ {N C K B W F : Type 0} (k8s : Kubernetes N C K) (http : HttpClient N B)
    (client : ClientOf W) (fuel : ℕ) (label : String) (os : Os F) (exists : F → String → Bool)
    (L : IsOs os exists) where
  -- Over an operating system that acts as `IsOs` says, a driver of cloud disks that was built and goes
  -- on to serve has registered the identity, the controller in the modes `controller` and `all`, and
  -- the node's server in the modes `node` and `all`, and its listener was opened for the endpoint:
  -- for a Unix socket at an absolute path, in a directory that was there, and from which an old
  -- socket had been removed.
  pub cds_run_ok :
      (set_options : List SetOption) (s : N) (endpoint : String) (t : F) {d : Driver W}
      {services : List Service}
      → (new_driver k8s http client fuel label set_options s).0 ≡ ok d
      → (cds_run os d endpoint t).0 ≡ ok services
      → let mode = (set_all set_options zero_options).mode in
        Listened os exists L endpoint
        × (services
            ≡ registered true
                (mode == driver_mode_controller || mode == driver_mode_all)
                (mode == driver_mode_node || mode == driver_mode_all))
  unfolding cds_run
  cds_run_ok set_options s endpoint t {d} h e =
      let o = set_all set_options zero_options in
      let built = new_driver_ok k8s http client fuel label set_options s h in
      let (listened, services) =
        serve_ok os exists L endpoint true (is_some d.controller_server) (is_some d.node_server) t
          e in
      (
        listened,
        services
            ∙ ap (λ c. registered true c (is_some d.node_server))
                (controller_of_mode o d.controller_server built.controller_built)
            ∙ ap (registered true (o.mode == driver_mode_controller || o.mode == driver_mode_all)) (
                node_of_mode o.mode o.node_options.max_volumes_per_node d.node_server
                  built.node_built),
      )
