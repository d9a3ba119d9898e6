-- ===== src/Command/Program/Started.antt =====
-- What the program starts for the flags of a driver of cloud disks.
use baiducloud_cce_csi_drive.Base.{
  ℕ, String, true, false, err, ◌==◌, if◌then◌else◌, ◌≡◌, refl, sym, subst, ◌∙◌, arith, eq_iff, inl,
  inr, Exec, Result-cases,
}
use baiducloud_cce_csi_drive.Cloud.Auth.{auth_mode_cce_gateway}
use baiducloud_cce_csi_drive.Cloud.Metadata.{HttpClient}
use baiducloud_cce_csi_drive.Driver.Topology.{
  Kubernetes, get_cce_cluster_id_from_node_labels, get_node_topology,
}
use baiducloud_cce_csi_drive.Driver.Options.{DriverOptions, set_all, zero_options}
use baiducloud_cce_csi_drive.Driver.Cds.{no_cluster_id, no_topology, ClientOf, new_driver}
use baiducloud_cce_csi_drive.Driver.Cds.Built.{IsBuilt, new_driver_ok, new_driver_err}
use baiducloud_cce_csi_drive.Command.Flags.{
  driver_type_cds, Flags, Options, common_options, parse_cds_driver_flags, parse_options,
  parse_flags,
}
use baiducloud_cce_csi_drive.Command.Flags.Accepted.{
  IsValid, IsAccepted, Tells, parse_cds_driver_flags-Tells,
}
use baiducloud_cce_csi_drive.Command.Program.{
  Run, version_shown, invalid_options, init_failed, unsupported_driver_type, cds_running,
  bos_running, cds_set_options, start, main,
}

-- The options of a driver are those of the flags.
pub record IsOfFlags (flags : Flags) (o : DriverOptions) : Type 0 where
  pub mode_kept : o.mode ≡ flags.mode
  pub auth_kept : o.auth_mode ≡ flags.auth_mode
  pub region_kept : o.region ≡ flags.region
  pub cluster_kept : o.controller_options.cluster_id ≡ flags.cluster_id
  pub limit_kept : o.node_options.max_volumes_per_node ≡ flags.max_volumes_per_node

module _ {N C K B : Type 0} (k8s : Kubernetes N C K) (http : HttpClient N B) where
  -- How the program ends or runs for the flags of a driver of cloud disks that do not ask for the
  -- version. What was not found is what a lookup failed to find, in some state of the node.
  abbrev pub IsCdsRun : {W : Type 0} → Flags → Run W → Type 0
  IsCdsRun flags version_shown = ⊥
  IsCdsRun flags (invalid_options e) = ¬ IsValid flags flags.region
  IsCdsRun flags (init_failed (no_cluster_id e)) =
      IsValid flags flags.region
      × (flags.auth_mode ≡ auth_mode_cce_gateway)
      × (flags.cluster_id ≡ "")
      × ((t : N) × ((get_cce_cluster_id_from_node_labels k8s t).0 ≡ err e))
  IsCdsRun flags (init_failed (no_topology e)) =
      IsValid flags flags.region
      × ((t : N) × ((get_node_topology k8s http flags.topology_mode t).0 ≡ err e))
  IsCdsRun flags (init_failed _) = ⊥
  IsCdsRun flags (unsupported_driver_type driver_type) = ⊥
  IsCdsRun flags (cds_running d endpoint) =
      (o : DriverOptions) × IsOfFlags flags o
      × IsBuilt o d
      × IsValid flags flags.region
      × (endpoint ≡ flags.csi_endpoint)
  IsCdsRun flags (bos_running d endpoint) = ⊥

module _ {N C K B W : Type 0} (k8s : Kubernetes N C K) (http : HttpClient N B)
    (new_docker_client : Exec N String (Unit {0})) (client : ClientOf W) (fuel : ℕ)
    (label : String) where
  start_cds :
      (flags : Flags) (o p : Options) (version : String) (s : N)
      → IsAccepted flags o p
      → o.driver_type ≡ driver_type_cds
      → o.region ≡ flags.region
      → o.cluster_id ≡ flags.cluster_id
      → o.csi_endpoint ≡ flags.csi_endpoint
      → o.max_volumes_per_node ≡ flags.max_volumes_per_node
      → o.topology_mode ≡ flags.topology_mode
      → IsCdsRun k8s http flags (start k8s http new_docker_client client fuel label version p s).0
  unfolding start
  start_cds flags o p version s a t region cluster endpoint limit topology =
      let (pt, pr, pc, pe, pl, pm) = a.rest_kept in
      let named : (p.driver_type == driver_type_cds) ≡ true =
        (eq_iff p.driver_type driver_type_cds).1 (pt ∙ t) in
      let valid : IsValid flags flags.region = subst (IsValid flags) region a.valid in
      let d = new_driver k8s http client fuel label (cds_set_options version p) s in
      elim (Result-cases d.0) [
        | inl (built, f) ↦
            let runs : (start k8s http new_docker_client client fuel label version p s).0
                ≡ cds_running built p.csi_endpoint =
              ground (arith, f, named) in
            rw runs (
              set_all (cds_set_options version p) zero_options,
              record {
                mode_kept = a.mode_kept;
                auth_kept = a.auth_kept;
                region_kept = pr ∙ region;
                cluster_kept = pc ∙ cluster;
                limit_kept = pl ∙ limit;
              },
              new_driver_ok k8s http client fuel label (cds_set_options version p) s f,
              valid,
              pe ∙ endpoint,
            )
        | inr (x, f) ↦
            elim (new_driver_err k8s http client fuel label (cds_set_options version p) s a.cds_set
              a.bcc_set f) [
                | inl ((y, q, sought), gateway, empty) ↦
                    let fails : (start k8s http new_docker_client client fuel label version p s).0
                        ≡ init_failed (no_cluster_id y) =
                      ground (arith, f, q, named) in
                    rw fails
                      (valid, sym a.auth_kept ∙ gateway, sym (pc ∙ cluster) ∙ empty, (s, sought))
                | inr (y, q, (u, sought)) ↦
                    let fails : (start k8s http new_docker_client client fuel label version p s).0
                        ≡ init_failed (no_topology y) =
                      ground (arith, f, q, named) in
                    rw fails (
                      valid,
                      (
                        u,
                        subst (λ m. (get_node_topology k8s http m u).0 ≡ err y) (pm ∙ topology)
                            sought,
                      ),
                    )
              ]
      ]

  -- For the flags of a driver of cloud disks that do not ask for the version, the program ends or runs
  -- as `IsCdsRun` says.
  pub main-IsCdsRun :
      (flags : Flags) (version : String) (s : N)
      → flags.driver_type ≡ driver_type_cds
      → flags.show_version ≡ false
      → IsCdsRun k8s http flags
          (main k8s http new_docker_client client fuel label flags version s).0
  unfolding main parse_flags parse_options common_options
  main-IsCdsRun flags version s h e =
      let o : Options = record (common_options flags) { driver_type = driver_type_cds } in
      let tells = parse_cds_driver_flags-Tells flags o in
      let named : (flags.driver_type == driver_type_cds) ≡ true =
        (eq_iff flags.driver_type driver_type_cds).1 h in
      let run = main k8s http new_docker_client client fuel label flags version s in
      elim (Result-cases (parse_cds_driver_flags flags o)) [
        | inr (x, f) ↦
            let refused : run.0 ≡ invalid_options x = ground (arith, e, named, f) in
            rw refused (subst (Tells flags o) f tells)
        | inl (p, f) ↦
            let v =
              if flags.override_driver_version == ""
              then version
              else flags.override_driver_version in
            let starts : run.0 ≡ (start k8s http new_docker_client client fuel label v p s).0 =
              ground (arith, e, named, f) in
            rw starts (
              start_cds flags o p v s (subst (Tells flags o) f tells) refl refl refl refl refl refl)
      ]
