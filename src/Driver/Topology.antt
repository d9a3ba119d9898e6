-- ===== src/Driver/Topology.antt =====
-- pkg/driver/common/topology.go: the identifier and the zone of the node, from the metadata service
-- or from the node's object in Kubernetes. Kubernetes' client is a parameter.
pub mod Found
use baiducloud_cce_csi_drive.Base.{
  String, Bool, ◌||◌, Option, none, some, List, ◌==◌, Result, ok, err, Exec, ◌>>=◌, ◌>>◌, pure,
  fail, lift, attempt, or_fail, refuse_if, lookup, if◌then◌else◌,
}
use baiducloud_cce_csi_drive.Util.Text.{strip_prefix}
use baiducloud_cce_csi_drive.Cloud.Metadata.{
  HttpClient, MetaDataError, MetaData, new_meta_data_service,
}

abbrev pub meta_service_topology_mode : String
meta_service_topology_mode = "meta"

abbrev pub k8s_node_topology_mode : String
k8s_node_topology_mode = "k8s"

abbrev pub auto_topology_mode : String
auto_topology_mode = "auto"

abbrev pub node_name_env_name : String
node_name_env_name = "NODE_NAME"

abbrev pub cce_provider_id_prefix : String
cce_provider_id_prefix = "cce://"

abbrev pub cce_cluster_id_node_label_key : String
cce_cluster_id_node_label_key = "cluster-id"

-- The fields of a `corev1.Node` that are read.
pub record K8sNode : Type 0 where
  pub provider_id : String
  pub labels : List (String × String)

-- The environment and Kubernetes' client, with `C` for its configuration and `K` for a client.
pub record Kubernetes (W C K : Type 0) : Type 0 where
  pub getenv : String → W → String
  pub in_cluster_config : Exec W String C
  pub new_for_config : C → Exec W String K
  pub get_node : K → (name : String) → Exec W String K8sNode
  -- the constant `corev1.LabelFailureDomainBetaZone`
  pub label_failure_domain_beta_zone : String

pub data NodeError : Type 0 where
  node_name_not_set : NodeError
  client_failed : (message : String) → NodeError
  provider_id_not_set : NodeError
  unknown_provider_id : (provider_id : String) → NodeError
  zone_not_set : NodeError
  empty_id_or_zone : (node_id zone : String) → NodeError
  cluster_id_not_set : NodeError

pub data TopologyError : Type 0 where
  meta_failed : MetaDataError → TopologyError
  node_failed : NodeError → TopologyError
  both_failed : MetaDataError → NodeError → TopologyError
  invalid_topology_mode : (mode : String) → TopologyError

module _ {W B : Type 0} (http : HttpClient W B) where
  unfoldable pub get_node_topology_from_meta_service : Exec W MetaDataError (String × String)
  get_node_topology_from_meta_service = do
    meta_service ← new_meta_data_service http
    pure (meta_service.instance_id, meta_service.zone)

module _ {W C K : Type 0} (k8s : Kubernetes W C K) where
  unfoldable pub get_self_node : Exec W NodeError K8sNode
  get_self_node w =
      let name = k8s.getenv node_name_env_name w in
      (if name == "" then fail node_name_not_set else do
        config ← or_fail k8s.in_cluster_config client_failed
        client ← or_fail (k8s.new_for_config config) client_failed
        or_fail (k8s.get_node client name) client_failed)
        w

  unfoldable pub get_cce_cluster_id_from_node_labels : Exec W NodeError String
  get_cce_cluster_id_from_node_labels = do
    node ← get_self_node
    elim (lookup cce_cluster_id_node_label_key node.labels) [
      | some cluster_id ↦ pure cluster_id
      | none ↦ fail cluster_id_not_set
    ]

  -- The checks of the node's fields.
  unfoldable pub read_node : K8sNode → Result NodeError (String × String)
  read_node node =
      if node.provider_id == ""
      then err provider_id_not_set
      else elim (strip_prefix cce_provider_id_prefix node.provider_id) [
        | none ↦ err (unknown_provider_id node.provider_id)
        | some node_id ↦ elim (lookup k8s.label_failure_domain_beta_zone node.labels) [
          | none ↦ err zone_not_set
          | some zone ↦
              if node_id == "" || zone == ""
              then err (empty_id_or_zone node_id zone)
              else ok (node_id, zone)
        ]
      ]

  unfoldable pub get_node_topology_from_k8s_node : Exec W NodeError (String × String)
  get_node_topology_from_k8s_node = do node ← get_self_node; lift (read_node node)

  module _ {B : Type 0} (http : HttpClient W B) where
    -- The mode `auto`: the metadata service, then the node.
    unfoldable pub auto_topology : Exec W TopologyError (String × String)
    auto_topology = do
      from_meta ← attempt (get_node_topology_from_meta_service http)
      elim from_meta [
        | ok found ↦ pure found
        | err e ↦ or_fail get_node_topology_from_k8s_node (both_failed e)
      ]

    unfoldable pub get_node_topology : (mode : String) → Exec W TopologyError (String × String)
    get_node_topology mode =
        if mode == meta_service_topology_mode
        then or_fail (get_node_topology_from_meta_service http) meta_failed
        else if mode == k8s_node_topology_mode
        then or_fail get_node_topology_from_k8s_node node_failed
        else if mode == auto_topology_mode
        then auto_topology
        else fail (invalid_topology_mode mode)
