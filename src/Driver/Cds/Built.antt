-- ===== src/Driver/Cds/Built.antt =====
-- What a driver of cloud disks is made of.
use baiducloud_cce_csi_drive.Base.{
  ℕ, String, ◌||◌, Option, none, some, List, ◌==◌, ◌≡◌, ◌≢◌, subst, ◌⊎◌, refl, inl, inr, arith,
  eq_iff, ok, err, Result-cases, Bool-cases,
}
use baiducloud_cce_csi_drive.Cloud.Auth.{choose_auth, auth_mode_cce_gateway}
use baiducloud_cce_csi_drive.Cloud.Metadata.{HttpClient}
use baiducloud_cce_csi_drive.Cloud.Cds.{cds_service, bcc_service}
use baiducloud_cce_csi_drive.Driver.Topology.{
  Kubernetes, NodeError, TopologyError, get_cce_cluster_id_from_node_labels, get_node_topology,
}
use baiducloud_cce_csi_drive.Driver.Options.{
  driver_mode_controller, driver_mode_all, DriverOptions, SetOption, zero_options, set_all,
}
use baiducloud_cce_csi_drive.Driver.Cds.{
  DriverError, no_cluster_id, no_topology, ClientOf, new_cds_service, new_bcc_service, Controller,
  new_controller_server, Driver, locate_cluster, build_controller, build_node, new_driver,
}
use baiducloud_cce_csi_drive.Driver.Cds.Located.{
  IsNode, SameBut, build_node_ok, build_node_err, locate_cluster_ok, locate_cluster_err,
}

-- The controller is built for the options: its authorisation follows the mode, the region and the
-- cluster of its own, which is that of the options where they have one.
abbrev pub IsController : {W : Type 0} → DriverOptions → Option (Controller W) → Type 0
IsController o none = (o.mode ≢ driver_mode_controller) × (o.mode ≢ driver_mode_all)
IsController o (some c) =
    ((o.mode ≡ driver_mode_controller) ⊎ (o.mode ≡ driver_mode_all))
    × (c.config.get_auth ≡ choose_auth o.auth_mode o.region c.config.cluster_id)
    × ((c.config.cluster_id ≡ o.controller_options.cluster_id)
        ⊎ ((o.auth_mode ≡ auth_mode_cce_gateway) × (o.controller_options.cluster_id ≡ "")))

-- The driver has the servers of its mode.
pub record IsBuilt {W : Type 0} (o : DriverOptions) (d : Driver W) : Type 0 where
  pub controller_built : IsController o d.controller_server
  pub node_built : IsNode o.mode o.node_options.max_volumes_per_node d.node_server

module _ {N C K B : Type 0} (k8s : Kubernetes N C K) (http : HttpClient N B) where
  module _ {W : Type 0} (client : ClientOf W) (fuel : ℕ) (label : String) where
    build_controller_ok :
        (o : DriverOptions) (s : N) {c : Option (Controller W)} {p : DriverOptions}
        → (build_controller k8s http client fuel label o s).0 ≡ ok (c, p)
        → IsController o c × SameBut o p
    unfolding build_controller new_cds_service new_bcc_service new_controller_server
    build_controller_ok o s {c} {p} h =
        elim (Bool-cases (o.mode == driver_mode_controller || o.mode == driver_mode_all)) [
          | inr a ↦
              let none_built : c ≡ none = ground (arith, a, h) in
              let same : p ≡ o = ground (arith, a, h) in
              rw (none_built, same)
                (
                  (
                    ground (arith, a, eq_iff o.mode driver_mode_controller),
                    ground (arith, a, eq_iff o.mode driver_mode_all),
                  ),
                  (refl, refl, refl, refl, refl),
                )
          | inl a ↦ elim (Bool-cases (o.endpoint_options.cds_endpoint == "")) [
            | inl b ↦ absurd (ground (arith, a, b))
            | inr b ↦ elim (Bool-cases (o.endpoint_options.bcc_endpoint == "")) [
              | inl d ↦ absurd (ground (arith, a, b, d))
              | inr d ↦ elim (Result-cases (locate_cluster k8s o s).0) [
                | inr (x, f) ↦ absurd (ground (arith, a, b, d, f))
                | inl (q, f) ↦
                    let made =
                      new_controller_server label k8s.label_failure_domain_beta_zone
                        (cds_service (client o.endpoint_options.cds_endpoint o.region) fuel)
                        (bcc_service (client o.endpoint_options.bcc_endpoint o.region)) q in
                    let built : c ≡ some made = ground (arith, a, b, d, f, h) in
                    let same : p ≡ q = ground (arith, a, b, d, f, h) in
                    let ((m, auth, region, node, topology), cluster) =
                      locate_cluster_ok k8s http o s f in
                    rw (built, same)
                      (
                        (
                          ground (
                            arith,
                            a,
                            eq_iff o.mode driver_mode_controller,
                            eq_iff o.mode driver_mode_all,
                          ),
                          rw (auth, region) refl,
                          cluster,
                        ),
                        (m, auth, region, node, topology),
                      )
              ]
            ]
          ]
        ]

    build_controller_err :
        (o : DriverOptions) (s : N) {e : DriverError}
        → o.endpoint_options.cds_endpoint ≢ ""
        → o.endpoint_options.bcc_endpoint ≢ ""
        → (build_controller k8s http client fuel label o s).0 ≡ err e
        → ((x : NodeError) × (e ≡ no_cluster_id x)
            × ((get_cce_cluster_id_from_node_labels k8s s).0 ≡ err x))
          × (o.auth_mode ≡ auth_mode_cce_gateway)
          × (o.controller_options.cluster_id ≡ "")
    unfolding build_controller new_cds_service new_bcc_service
    build_controller_err o s {e} n m h =
        elim (Bool-cases (o.mode == driver_mode_controller || o.mode == driver_mode_all)) [
          | inr a ↦ absurd (ground (arith, a, h))
          | inl a ↦ elim (Result-cases (locate_cluster k8s o s).0) [
            | inl (q, f) ↦ absurd (
                ground (
                  arith,
                  a,
                  f,
                  h,
                  n,
                  m,
                  eq_iff o.endpoint_options.cds_endpoint "",
                  eq_iff o.endpoint_options.bcc_endpoint "",
                ))
            | inr (x, f) ↦
                let l = locate_cluster_err k8s http o s f in
                let same : e ≡ x = ground (
                  arith,
                  a,
                  f,
                  h,
                  n,
                  m,
                  eq_iff o.endpoint_options.cds_endpoint "",
                  eq_iff o.endpoint_options.bcc_endpoint "",
                ) in
                rw same l
          ]
        ]

    pub new_driver_ok :
        (set_options : List SetOption) (s : N) {d : Driver W}
        → (new_driver k8s http client fuel label set_options s).0 ≡ ok d
        → IsBuilt (set_all set_options zero_options) d
    unfolding new_driver
    new_driver_ok set_options s {d} h =
        let o = set_all set_options zero_options in
        let b = build_controller k8s http client fuel label o s in
        elim (Result-cases b.0) [
          | inr (x, e) ↦ absurd (ground (arith, e))
          | inl ((c, p), e) ↦ elim (Result-cases (build_node k8s http p b.1).0) [
            | inr (x, f) ↦ absurd (ground (arith, e, f))
            | inl ((n, q), f) ↦
                let (control, (m, _, _, kept, _)) = build_controller_ok o s e in
                let node : IsNode o.mode o.node_options.max_volumes_per_node n =
                  subst (λ x. IsNode x o.node_options.max_volumes_per_node n) m
                    (subst (λ x. IsNode p.mode x.max_volumes_per_node n) kept
                      (build_node_ok k8s http p b.1 f)) in
                let built : d ≡ record { controller_server = c; node_server = n; options = q } =
                  ground (arith, e, f, h) in
                rw built (record { controller_built = control; node_built = node })
          ]
        ]

    pub new_driver_err :
        (set_options : List SetOption) (s : N) {e : DriverError}
        → (set_all set_options zero_options).endpoint_options.cds_endpoint ≢ ""
        → (set_all set_options zero_options).endpoint_options.bcc_endpoint ≢ ""
        → (new_driver k8s http client fuel label set_options s).0 ≡ err e
        → (((x : NodeError) × (e ≡ no_cluster_id x)
              × ((get_cce_cluster_id_from_node_labels k8s s).0 ≡ err x))
            × ((set_all set_options zero_options).auth_mode ≡ auth_mode_cce_gateway)
            × ((set_all set_options zero_options).controller_options.cluster_id ≡ ""))
          ⊎ ((x : TopologyError) × (e ≡ no_topology x)
              × ((t : N) × ((get_node_topology k8s http
                      (set_all set_options zero_options).topology_mode
                      t).0
                    ≡ err x)))
    unfolding new_driver
    new_driver_err set_options s {e} n m h =
        let o = set_all set_options zero_options in
        let b = build_controller k8s http client fuel label o s in
        elim (Result-cases b.0) [
          | inr (x, f) ↦
              let same : e ≡ x = ground (arith, f, h) in
              rw same (inl (build_controller_err o s n m f))
          | inl ((c, p), f) ↦ elim (Result-cases (build_node k8s http p b.1).0) [
            | inl (q, g) ↦ absurd (ground (arith, f, g, h))
            | inr (x, g) ↦
                let same : e ≡ x = ground (arith, f, g, h) in
                let (_, (_, _, _, _, topology)) = build_controller_ok o s f in
                let (y, q, sought) = build_node_err k8s http p b.1 g in
                rw same (
                  inr (
                    y,
                    q,
                    (
                      b.1,
                      subst (λ m. (get_node_topology k8s http m b.1).0 ≡ err y) topology sought,
                    ),
                  ))
          ]
        ]
