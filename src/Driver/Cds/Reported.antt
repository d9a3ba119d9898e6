-- ===== src/Driver/Cds/Reported.antt =====
-- What a node reports of itself, and what the controller reads of it.
use baiducloud_cce_csi_drive.Base.{
  ℕ, String, subst, ok, some, List, ◌∷◌, ◌≡◌, ◌≢◌, arith, eq_refl, lookup,
}
use baiducloud_cce_csi_drive.Base.Int.{ℤ, neg_part}
use baiducloud_cce_csi_drive.Csi.{Topology}
use baiducloud_cce_csi_drive.Controller.Zone.{get_volume_zone, get_volume_zone-preferred}
use baiducloud_cce_csi_drive.Cloud.Metadata.{HttpClient}
use baiducloud_cce_csi_drive.Driver.Topology.{Kubernetes}
use baiducloud_cce_csi_drive.Driver.Options.{NodeOptions, SetOption, zero_options, set_all}
use baiducloud_cce_csi_drive.Driver.Cds.{ClientOf, Driver, new_driver}
use baiducloud_cce_csi_drive.Driver.Cds.Built.{new_driver_ok}
use baiducloud_cce_csi_drive.Driver.Identity.{cds_node_get_info, volume_limit}
use baiducloud_cce_csi_drive.Driver.Cds.Located.{IsNode}

volume_limit_lem : (n : ℤ) → neg_part (volume_limit n) ≡ 0
volume_limit_lem n = ground arith

module _ {N C K B W : Type 0} (k8s : Kubernetes N C K) (http : HttpClient N B) (client : ClientOf W)
    (fuel : ℕ) (label : String) where
  -- Where the controller reads the label that the node reports its zone under (both are constants of
  -- Kubernetes for the same label), the node's server of a driver that was built reports an
  -- identifier that is not empty and a limit of volumes that is not negative, and a volume that is
  -- preferred where the node is comes into the node's zone, which is not empty.
  pub cds_node_get_info-get_volume_zone :
      (set_options : List SetOption) (s : N) {d : Driver W} {n : NodeOptions}
      (ps rs : List Topology)
      → label ≡ k8s.label_failure_domain_beta_zone
      → (new_driver k8s http client fuel label set_options s).0 ≡ ok d
      → d.node_server ≡ some n
      → let info = cds_node_get_info k8s.label_failure_domain_beta_zone n in
        (info.node_id ≢ "")
        × (neg_part info.max_volumes_per_node ≡ 0)
        × (get_volume_zone label
              (some (record { requisite = rs; preferred = info.accessible_topology ∷ ps }))
            ≡ n.zone)
        × (n.zone ≢ "")
  unfolding cds_node_get_info lookup
  cds_node_get_info-get_volume_zone set_options s {d} {n} ps rs same h e =
      let o = set_all set_options zero_options in
      let built = new_driver_ok k8s http client fuel label set_options s h in
      let (_, id, zone, _) =
        subst (IsNode o.mode o.node_options.max_volumes_per_node) e built.node_built in
      let beta = k8s.label_failure_domain_beta_zone in
      (
        id,
        volume_limit_lem n.max_volumes_per_node,
        get_volume_zone-preferred label n.zone (cds_node_get_info beta n).accessible_topology ps rs
            (ground (arith, same, eq_refl beta)),
        zone,
      )
