-- ===== src/Driver/Topology/Found.antt =====
-- Where a node's topology comes from.
use Prim.Native.String.{◌++◌ as ◌<>◌}
use baiducloud_cce_csi_drive.Base.{
  String, none, some, ◌==◌, ◌≡◌, refl, sym, ap, ◌∙◌, ◌≢◌, ◌⊎◌, ◌↔◌, ◌||◌, subst, inl, inr, arith,
  eq_iff, ok, err, lookup, Result-cases, convert_ok, Bool-cases, Option-cases,
}
use baiducloud_cce_csi_drive.Util.Text.{strip_prefix}
use baiducloud_cce_csi_drive.Util.Text.Laws.{append-strip_prefix, strip_prefix-append}
use baiducloud_cce_csi_drive.Cloud.Metadata.{
  HttpClient, MetaDataError, new_meta_data_service, new_meta_data_service_ok,
}
use baiducloud_cce_csi_drive.Driver.Topology.{
  K8sNode, Kubernetes, get_self_node, read_node, cce_provider_id_prefix, meta_service_topology_mode,
  k8s_node_topology_mode, auto_topology_mode, meta_failed, node_failed,
  get_node_topology_from_k8s_node, get_node_topology_from_meta_service, auto_topology,
  get_node_topology,
}

module _ {W C K : Type 0} (k8s : Kubernetes W C K) where
  -- The node's object has the identifier in the provider's one, and the zone in its label.
  abbrev pub IsNodeOf : (id zone : String) → K8sNode → Type 0
  IsNodeOf id zone node =
      (node.provider_id ≡ cce_provider_id_prefix <> id)
      × (lookup k8s.label_failure_domain_beta_zone node.labels ≡ some zone)
      × (id ≢ "")
      × (zone ≢ "")

  read_node_ok :
      (node : K8sNode) (id zone : String)
      → read_node k8s node ≡ ok (id, zone)
      → IsNodeOf id zone node
  unfolding read_node
  read_node_ok node id zone h = elim (Bool-cases (node.provider_id == "")) [
    | inl e ↦ absurd (ground (arith, e))
    | inr e ↦ elim (Option-cases (strip_prefix cce_provider_id_prefix node.provider_id)) [
      | inl p ↦ absurd (ground (arith, e, p))
      | inr (x, p) ↦ elim (Option-cases (lookup k8s.label_failure_domain_beta_zone node.labels)) [
        | inl q ↦ absurd (ground (arith, e, p, q))
        | inr (y, q) ↦ elim (Bool-cases (x == "" || y == "")) [
          | inl r ↦ absurd (ground (arith, e, p, q, r))
          | inr r ↦
              let a : x ≡ id = ground (arith, e, p, q, r, h) in
              let b : y ≡ zone = ground (arith, e, p, q, r, h) in
              (
                sym (append-strip_prefix cce_provider_id_prefix node.provider_id (p ∙ ap some a)),
                q ∙ ap some b,
                ground (arith, a, r, eq_iff x ""),
                ground (arith, b, r, eq_iff y ""),
              )
        ]
      ]
    ]
  ]

  -- A node's object is accepted with an identifier and a zone exactly when it has the identifier
  -- after `cce://` in the provider's one, and the zone in its label, and neither is empty.
  pub read_node_iff :
      (node : K8sNode) (id zone : String)
      → (read_node k8s node ≡ ok (id, zone)) ↔ IsNodeOf id zone node
  unfolding read_node strip_prefix
  read_node_iff node id zone = (
    read_node_ok node id zone,
    λ (a, b, c, d).
        let p : strip_prefix cce_provider_id_prefix node.provider_id ≡ some id =
          rw a (strip_prefix-append cce_provider_id_prefix id) in
        elim (Bool-cases (node.provider_id == "")) [
          | inl e ↦
              let q : none ≡ some id =
                subst (λ x. strip_prefix cce_provider_id_prefix x ≡ some id)
                  ((eq_iff node.provider_id "").0 e) p in
              absurd (ground (arith, q))
          | inr e ↦ ground (arith, e, p, b, eq_iff id "", eq_iff zone "", c, d)
        ],
  )

  -- The node's own object, looked up in a state, has the identifier and the zone.
  abbrev pub FromNode : (id zone : String) → W → Type 0
  FromNode id zone w =
      (node : K8sNode) × ((get_self_node k8s w).0 ≡ ok node) × IsNodeOf id zone node

  get_node_topology_from_k8s_node-FromNode :
      (w : W) {id zone : String}
      → (get_node_topology_from_k8s_node k8s w).0 ≡ ok (id, zone)
      → FromNode id zone w
  unfolding get_node_topology_from_k8s_node
  get_node_topology_from_k8s_node-FromNode w {id} {zone} h =
      elim (Result-cases (get_self_node k8s w).0) [
        | inr (x, e) ↦ absurd (ground (arith, e))
        | inl (node, e) ↦ (node, e, (read_node_iff node id zone).0 (ground (arith, e, h)))
      ]

  module _ {B : Type 0} (http : HttpClient W B) where
    -- Where an answer comes from: the metadata service, in the modes `meta` and `auto`, or the
    -- node's object, in the mode `k8s`, and in the mode `auto` after the metadata service failed.
    pub data Origin (mode id zone : String) (w : W) : Type 0 where
      from_meta :
          (mode ≡ meta_service_topology_mode) ⊎ (mode ≡ auto_topology_mode)
          → (new_meta_data_service http w).0 ≡ ok (record { instance_id = id; zone = zone })
          → Origin mode id zone w
      from_node : mode ≡ k8s_node_topology_mode → FromNode id zone w → Origin mode id zone w
      after_meta :
          {e : MetaDataError}
          → mode ≡ auto_topology_mode
          → (new_meta_data_service http w).0 ≡ err e
          → FromNode id zone (new_meta_data_service http w).1
          → Origin mode id zone w

    from_meta_ok :
        (w : W) {id zone : String}
        → (get_node_topology_from_meta_service http w).0 ≡ ok (id, zone)
        → (new_meta_data_service http w).0 ≡ ok (record { instance_id = id; zone = zone })
    unfolding get_node_topology_from_meta_service
    from_meta_ok w h = elim (Result-cases (new_meta_data_service http w).0) [
      | inr (x, e) ↦ absurd (ground (arith, e))
      | inl (m, e) ↦ ground (arith, e, h)
    ]

    auto_topology_ok :
        (w : W) {id zone : String}
        → (auto_topology k8s http w).0 ≡ ok (id, zone)
        → Origin auto_topology_mode id zone w
    unfolding auto_topology get_node_topology_from_meta_service
    auto_topology_ok w {id} {zone} h =
        let m = get_node_topology_from_meta_service http w in
        elim (Result-cases (new_meta_data_service http w).0) [
          | inl (d, e) ↦ from_meta (inr refl) (ground (arith, e, h))
          | inr (x, e) ↦ elim (Result-cases (get_node_topology_from_k8s_node k8s m.1).0) [
            | inr (y, f) ↦ absurd (ground (arith, e, f))
            | inl (found, f) ↦
                let same : m.1 ≡ (new_meta_data_service http w).1 = ground (arith, e) in
                after_meta refl e (
                  subst (FromNode id zone) same
                    (get_node_topology_from_k8s_node-FromNode m.1 (ground (arith, e, f, h))))
          ]
        ]

    Origin-nonempty :
        {mode id zone : String} {w : W} → Origin mode id zone w → (id ≢ "") × (zone ≢ "")
    Origin-nonempty {w = w} (from_meta m e) = new_meta_data_service_ok http w e
    Origin-nonempty (from_node m (node, e, h)) = (h.2, h.3)
    Origin-nonempty (after_meta m e (node, f, h)) = (h.2, h.3)

    get_node_topology-Origin :
        (mode : String) (w : W) {id zone : String}
        → (get_node_topology k8s http mode w).0 ≡ ok (id, zone)
        → Origin mode id zone w
    unfolding get_node_topology
    get_node_topology-Origin mode w {id} {zone} h =
        elim (Bool-cases (mode == meta_service_topology_mode)) [
          | inl e ↦ from_meta (inl ((eq_iff mode meta_service_topology_mode).0 e)) (
              from_meta_ok w (
                convert_ok meta_failed (get_node_topology_from_meta_service http w).0
                  (ground (arith, e, h))))
          | inr e ↦ elim (Bool-cases (mode == k8s_node_topology_mode)) [
            | inl f ↦ from_node ((eq_iff mode k8s_node_topology_mode).0 f) (
                get_node_topology_from_k8s_node-FromNode w (
                  convert_ok node_failed (get_node_topology_from_k8s_node k8s w).0
                    (ground (arith, e, f, h))))
            | inr f ↦ elim (Bool-cases (mode == auto_topology_mode)) [
              | inr g ↦ absurd (ground (arith, e, f, g))
              | inl g ↦
                  subst (λ m. Origin m id zone w) (sym ((eq_iff mode auto_topology_mode).0 g))
                    (auto_topology_ok w (ground (arith, e, f, g, h)))
            ]
          ]
        ]

    -- An answer has an identifier and a zone that are not empty, and comes from the metadata service
    -- in the modes `meta` and `auto`, from the node's object in the mode `k8s`, or in the mode `auto`
    -- from the node's object after the metadata service failed; other modes have no answer.
    pub get_node_topology_ok :
        (mode : String) (w : W) {id zone : String}
        → (get_node_topology k8s http mode w).0 ≡ ok (id, zone)
        → Origin mode id zone w × (id ≢ "") × (zone ≢ "")
    unfolding get_node_topology
    get_node_topology_ok mode w {id} {zone} h =
        let o = get_node_topology-Origin mode w h in
        (o, (Origin-nonempty o).0, (Origin-nonempty o).1)
