-- ===== src/Driver/Cds/Located.antt =====
-- The node and the cluster that a driver of cloud disks looks up.
use baiducloud_cce_csi_drive.Base.{
  String, ◌||◌, ◌&&◌, Option, none, some, ◌==◌, ◌≡◌, ◌≢◌, ◌⊎◌, refl, inl, inr, arith, eq_iff, ok,
  err, Result-cases, Bool-cases,
}
use baiducloud_cce_csi_drive.Base.Int.{ℤ}
use baiducloud_cce_csi_drive.Cloud.Auth.{auth_mode_cce_gateway}
use baiducloud_cce_csi_drive.Cloud.Metadata.{HttpClient}
use baiducloud_cce_csi_drive.Driver.Topology.{
  Kubernetes, NodeError, TopologyError, get_cce_cluster_id_from_node_labels, get_node_topology,
}
use baiducloud_cce_csi_drive.Driver.Topology.Found.{get_node_topology_ok}
use baiducloud_cce_csi_drive.Driver.Options.{
  driver_mode_node, driver_mode_all, NodeOptions, DriverOptions, with_cluster_id, with_node_id,
  with_zone,
}
use baiducloud_cce_csi_drive.Driver.Cds.{
  DriverError, no_cluster_id, no_topology, locate_node, locate_cluster, build_node,
}

-- The node's server is built for the options, and knows its node and zone.
abbrev pub IsNode : (mode : String) (limit : ℤ) → Option NodeOptions → Type 0
IsNode mode limit none = (mode ≢ driver_mode_node) × (mode ≢ driver_mode_all)
IsNode mode limit (some n) =
    ((mode ≡ driver_mode_node) ⊎ (mode ≡ driver_mode_all))
    × (n.node_id ≢ "")
    × (n.zone ≢ "")
    × (n.max_volumes_per_node ≡ limit)

-- What the options keep where the controller is built: all but the cluster.
abbrev pub SameBut : DriverOptions → DriverOptions → Type 0
SameBut o p =
    (p.mode ≡ o.mode)
    × (p.auth_mode ≡ o.auth_mode)
    × (p.region ≡ o.region)
    × (p.node_options ≡ o.node_options)
    × (p.topology_mode ≡ o.topology_mode)

module _ {N C K B : Type 0} (k8s : Kubernetes N C K) (http : HttpClient N B) where
  pub locate_node_ok :
      (o : DriverOptions) (s : N) {p : DriverOptions}
      → (locate_node k8s http o s).0 ≡ ok p
      → (p.node_options.node_id ≢ "")
        × (p.node_options.zone ≢ "")
        × (p.node_options.max_volumes_per_node ≡ o.node_options.max_volumes_per_node)
  unfolding locate_node
  locate_node_ok o s {p} h =
      elim (Bool-cases (o.node_options.node_id == "" || o.node_options.zone == "")) [
        | inr e ↦
            let same : p ≡ o = ground (arith, e, h) in
            rw same (
              ground (arith, e, eq_iff o.node_options.node_id ""),
              ground (arith, e, eq_iff o.node_options.zone ""),
              refl,
            )
        | inl e ↦ elim (Result-cases (get_node_topology k8s http o.topology_mode s).0) [
          | inr (x, f) ↦ absurd (ground (arith, e, f))
          | inl ((id, zone), f) ↦
              let (_, a, b) = get_node_topology_ok k8s http o.topology_mode s f in
              let same : p ≡ with_zone zone (with_node_id id o) = ground (arith, e, f, h) in
              rw same (a, b, refl)
        ]
      ]

  pub locate_node_err :
      (o : DriverOptions) (s : N) {e : DriverError}
      → (locate_node k8s http o s).0 ≡ err e
      → (x : TopologyError) × (e ≡ no_topology x)
        × ((get_node_topology k8s http o.topology_mode s).0 ≡ err x)
  unfolding locate_node
  locate_node_err o s {e} h =
      elim (Bool-cases (o.node_options.node_id == "" || o.node_options.zone == "")) [
        | inr b ↦ absurd (ground (arith, b, h))
        | inl b ↦ elim (Result-cases (get_node_topology k8s http o.topology_mode s).0) [
          | inr (x, f) ↦ (x, ground (arith, b, f, h), f)
          | inl (found, f) ↦ absurd (ground (arith, b, f, h))
        ]
      ]

  pub build_node_ok :
      (o : DriverOptions) (s : N) {n : Option NodeOptions} {p : DriverOptions}
      → (build_node k8s http o s).0 ≡ ok (n, p)
      → IsNode o.mode o.node_options.max_volumes_per_node n
  unfolding build_node
  build_node_ok o s {n} {p} h =
      elim (Bool-cases (o.mode == driver_mode_node || o.mode == driver_mode_all)) [
        | inr a ↦
            let none_built : n ≡ none = ground (arith, a, h) in
            rw none_built (
              ground (arith, a, eq_iff o.mode driver_mode_node),
              ground (arith, a, eq_iff o.mode driver_mode_all),
            )
        | inl a ↦ elim (Result-cases (locate_node k8s http o s).0) [
          | inr (x, f) ↦ absurd (ground (arith, a, f))
          | inl (q, f) ↦
              let built : n ≡ some q.node_options = ground (arith, a, f, h) in
              let (id, zone, limit) = locate_node_ok o s f in
              rw built (
                ground (arith, a, eq_iff o.mode driver_mode_node, eq_iff o.mode driver_mode_all),
                id,
                zone,
                limit,
              )
        ]
      ]

  pub build_node_err :
      (o : DriverOptions) (s : N) {e : DriverError}
      → (build_node k8s http o s).0 ≡ err e
      → (x : TopologyError) × (e ≡ no_topology x)
        × ((get_node_topology k8s http o.topology_mode s).0 ≡ err x)
  unfolding build_node
  build_node_err o s {e} h =
      elim (Bool-cases (o.mode == driver_mode_node || o.mode == driver_mode_all)) [
        | inr a ↦ absurd (ground (arith, a, h))
        | inl a ↦ elim (Result-cases (locate_node k8s http o s).0) [
          | inr (x, f) ↦
              let same : e ≡ x = ground (arith, a, f, h) in rw same (locate_node_err o s f)
          | inl (q, f) ↦ absurd (ground (arith, a, f, h))
        ]
      ]

  pub locate_cluster_ok :
      (o : DriverOptions) (s : N) {p : DriverOptions}
      → (locate_cluster k8s o s).0 ≡ ok p
      → SameBut o p
        × ((p.controller_options.cluster_id ≡ o.controller_options.cluster_id)
            ⊎ ((o.auth_mode ≡ auth_mode_cce_gateway) × (o.controller_options.cluster_id ≡ "")))
  unfolding locate_cluster
  locate_cluster_ok o s {p} h =
      elim (Bool-cases
        ((o.auth_mode == auth_mode_cce_gateway) && (o.controller_options.cluster_id == ""))) [
          | inr b ↦
              let same : p ≡ o = ground (arith, b, h) in
              rw same ((refl, refl, refl, refl, refl), inl refl)
          | inl b ↦ elim (Result-cases (get_cce_cluster_id_from_node_labels k8s s).0) [
            | inr (x, f) ↦ absurd (ground (arith, b, f, h))
            | inl (id, f) ↦
                let same : p ≡ with_cluster_id id o = ground (arith, b, f, h) in
                rw same (
                  (refl, refl, refl, refl, refl),
                  inr (
                    ground (arith, b, eq_iff o.auth_mode auth_mode_cce_gateway),
                    ground (arith, b, eq_iff o.controller_options.cluster_id ""),
                  ),
                )
          ]
        ]

  pub locate_cluster_err :
      (o : DriverOptions) (s : N) {e : DriverError}
      → (locate_cluster k8s o s).0 ≡ err e
      → ((x : NodeError) × (e ≡ no_cluster_id x)
          × ((get_cce_cluster_id_from_node_labels k8s s).0 ≡ err x))
        × (o.auth_mode ≡ auth_mode_cce_gateway)
        × (o.controller_options.cluster_id ≡ "")
  unfolding locate_cluster
  locate_cluster_err o s {e} h =
      elim (Bool-cases
        ((o.auth_mode == auth_mode_cce_gateway) && (o.controller_options.cluster_id == ""))) [
          | inr b ↦ absurd (ground (arith, b, h))
          | inl b ↦ elim (Result-cases (get_cce_cluster_id_from_node_labels k8s s).0) [
            | inl (id, f) ↦ absurd (ground (arith, b, f, h))
            | inr (x, f) ↦ (
              (x, ground (arith, b, f, h), f),
              ground (arith, b, eq_iff o.auth_mode auth_mode_cce_gateway),
              ground (arith, b, eq_iff o.controller_options.cluster_id ""),
            )
          ]
        ]
