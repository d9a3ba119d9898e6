-- ===== src/Driver/Bos/Built.antt =====
-- What a driver of buckets is made of.
use baiducloud_cce_csi_drive.Base.{
  String, ◌||◌, Option, none, some, List, ◌==◌, ◌≡◌, ◌≢◌, ◌⊎◌, refl, inl, inr, arith, eq_iff, ok,
  err, sym, ap, ◌∙◌, Exec, Bool-cases, Result-cases,
}
use baiducloud_cce_csi_drive.Cloud.Metadata.{HttpClient}
use baiducloud_cce_csi_drive.Driver.Topology.{Kubernetes, TopologyError, get_node_topology}
use baiducloud_cce_csi_drive.Driver.Options.{
  driver_mode_node, driver_mode_all, DriverOptions, SetOption, zero_options, set_all, with_node_id,
  with_zone,
}
use baiducloud_cce_csi_drive.Driver.Cds.{DriverError, no_topology, no_docker_client, locate_node}
use baiducloud_cce_csi_drive.Driver.Cds.Located.{locate_node_ok, locate_node_err}
use baiducloud_cce_csi_drive.Driver.Bos.{
  BosNode, BosDriver, new_bos_service, build_bos_node, new_bos_driver,
}

-- The node's server runs at the endpoint and with the image of the options, and knows its node.
abbrev pub IsBosNode : DriverOptions → Option BosNode → Type 0
IsBosNode o none = ⊥
IsBosNode o (some n) =
    (n.endpoint ≡ o.endpoint_options.bos_endpoint)
    × (n.image ≡ o.image_options.bosfs_image)
    × (n.node_options.node_options.node_id ≢ "")
    × (n.node_options.node_options.zone ≢ "")

module _ {N C K B : Type 0} (k8s : Kubernetes N C K) (http : HttpClient N B) where
  locate_node_rest :
      (o : DriverOptions) (s : N) {p : DriverOptions}
      → (locate_node k8s http o s).0 ≡ ok p
      → (p.endpoint_options ≡ o.endpoint_options) × (p.image_options ≡ o.image_options)
  unfolding locate_node
  locate_node_rest o s {p} h =
      elim (Bool-cases (o.node_options.node_id == "" || o.node_options.zone == "")) [
        | inr e ↦ let same : p ≡ o = ground (arith, e, h) in rw same (refl, refl)
        | inl e ↦ elim (Result-cases (get_node_topology k8s http o.topology_mode s).0) [
          | inr (x, f) ↦ absurd (ground (arith, e, f))
          | inl ((id, zone), f) ↦
              let same : p ≡ with_zone zone (with_node_id id o) = ground (arith, e, f, h) in
              rw same (refl, refl)
        ]
      ]

  module _ (new_docker_client : Exec N String (Unit {0})) where
    build_bos_node_ok :
        (o : DriverOptions) (s : N) {d : BosDriver}
        → (build_bos_node k8s http new_docker_client o s).0 ≡ ok d
        → IsBosNode o d.node_server
    unfolding build_bos_node new_bos_service
    build_bos_node_ok o s {d} h =
        let l = locate_node k8s http o s in
        elim (Result-cases l.0) [
          | inr (x, e) ↦ absurd (ground (arith, e, h))
          | inl (q, e) ↦ elim (Bool-cases (q.endpoint_options.bos_endpoint == "")) [
            | inl f ↦ absurd (ground (arith, e, f, h))
            | inr f ↦ elim (Result-cases (new_docker_client l.1).0) [
              | inr (x, g) ↦ absurd (ground (arith, e, f, g, h))
              | inl (u, g) ↦
                  let (id, zone, _) = locate_node_ok k8s http o s e in
                  let (endpoint, image) = locate_node_rest o s e in
                  let built : d ≡ record {
                    node_server = some (record {
                      endpoint = q.endpoint_options.bos_endpoint;
                      image = q.image_options.bosfs_image;
                      node_options = q;
                    });
                    options = q;
                  } =
                    ground (arith, e, f, g, h) in
                  rw built (rw endpoint refl, rw image refl, id, zone)
            ]
          ]
        ]

    build_bos_node_err :
        (o : DriverOptions) (s : N) {e : DriverError}
        → o.endpoint_options.bos_endpoint ≢ ""
        → (build_bos_node k8s http new_docker_client o s).0 ≡ err e
        → ((x : TopologyError) × (e ≡ no_topology x)
            × ((get_node_topology k8s http o.topology_mode s).0 ≡ err x))
          ⊎ ((message : String) × (e ≡ no_docker_client message)
              × ((t : N) × ((new_docker_client t).0 ≡ err message)))
    unfolding build_bos_node new_bos_service
    build_bos_node_err o s {e} n h =
        let l = locate_node k8s http o s in
        elim (Result-cases l.0) [
          | inr (x, f) ↦
              let same : e ≡ x = ground (arith, f, h) in
              rw same (inl (locate_node_err k8s http o s f))
          | inl (q, f) ↦
              let (endpoint, _) = locate_node_rest o s f in
              elim (Bool-cases (q.endpoint_options.bos_endpoint == "")) [
                | inl g ↦
                    absurd (n (rw (sym endpoint) ((eq_iff q.endpoint_options.bos_endpoint "").0 g)))
                | inr g ↦ elim (Result-cases (new_docker_client l.1).0) [
                  | inr (x, k) ↦ inr (x, ground (arith, f, g, k, h), (l.1, k))
                  | inl (u, k) ↦ absurd (ground (arith, f, g, k, h))
                ]
              ]
        ]

    -- A driver that is not in the mode of a controller, but in that of a node.
    new_bos_driver_node :
        (set_options : List SetOption) (s : N)
        → ((set_all set_options zero_options).mode ≡ driver_mode_node)
          ⊎ ((set_all set_options zero_options).mode ≡ driver_mode_all)
        → new_bos_driver k8s http new_docker_client set_options s
          ≡ build_bos_node k8s http new_docker_client (set_all set_options zero_options) s
    unfolding new_bos_driver
    new_bos_driver_node set_options s (inl e) = rw e refl
    new_bos_driver_node set_options s (inr e) = rw e refl

    pub new_bos_driver_ok :
        (set_options : List SetOption) (s : N) {d : BosDriver}
        → ((set_all set_options zero_options).mode ≡ driver_mode_node)
          ⊎ ((set_all set_options zero_options).mode ≡ driver_mode_all)
        → (new_bos_driver k8s http new_docker_client set_options s).0 ≡ ok d
        → IsBosNode (set_all set_options zero_options) d.node_server
    new_bos_driver_ok set_options s m h =
        build_bos_node_ok (set_all set_options zero_options) s
          (ap (λ x. x.0) (sym (new_bos_driver_node set_options s m)) ∙ h)

    pub new_bos_driver_err :
        (set_options : List SetOption) (s : N) {e : DriverError}
        → ((set_all set_options zero_options).mode ≡ driver_mode_node)
          ⊎ ((set_all set_options zero_options).mode ≡ driver_mode_all)
        → (set_all set_options zero_options).endpoint_options.bos_endpoint ≢ ""
        → (new_bos_driver k8s http new_docker_client set_options s).0 ≡ err e
        → ((x : TopologyError) × (e ≡ no_topology x)
            × ((get_node_topology k8s http (set_all set_options zero_options).topology_mode s).0
                ≡ err x))
          ⊎ ((message : String) × (e ≡ no_docker_client message)
              × ((t : N) × ((new_docker_client t).0 ≡ err message)))
    new_bos_driver_err set_options s m n h =
        build_bos_node_err (set_all set_options zero_options) s n
          (ap (λ x. x.0) (sym (new_bos_driver_node set_options s m)) ∙ h)
