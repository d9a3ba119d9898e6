-- ===== src/Command/Program/Ran.antt =====
-- What the program starts for any flags: a driver of cloud disks, one of buckets, or none.
use baiducloud_cce_csi_drive.Base.{
  ℕ, String, Option, none, some, true, false, ◌==◌, if◌then◌else◌, ◌≡◌, ◌≢◌, ◌⊎◌, refl, sym, subst,
  ◌∙◌, arith, eq_iff, inl, inr, err, Exec, Bool-cases, Result-cases,
}
use baiducloud_cce_csi_drive.Cloud.Metadata.{HttpClient}
use baiducloud_cce_csi_drive.Driver.Topology.{Kubernetes, get_node_topology}
use baiducloud_cce_csi_drive.Driver.Options.{
  driver_mode_node, driver_mode_all, set_all, zero_options,
}
use baiducloud_cce_csi_drive.Driver.Cds.{no_topology, no_docker_client, ClientOf}
use baiducloud_cce_csi_drive.Driver.Bos.{BosNode, new_bos_driver}
use baiducloud_cce_csi_drive.Driver.Bos.Built.{IsBosNode, new_bos_driver_ok, new_bos_driver_err}
use baiducloud_cce_csi_drive.Command.Flags.{
  driver_type_cds, driver_type_bos, Flags, Options, common_options, parse_bos_driver_flags,
  parse_options, parse_flags,
}
use baiducloud_cce_csi_drive.Command.Flags.Buckets.{
  IsBosValid, IsBosAccepted, BosTells, parse_bos_driver_flags-BosTells,
}
use baiducloud_cce_csi_drive.Command.Program.{
  Run, version_shown, invalid_options, init_failed, unsupported_driver_type, cds_running,
  bos_running, bos_set_options, start, main,
}
use baiducloud_cce_csi_drive.Command.Program.Started.{IsCdsRun, main-IsCdsRun}

-- The node's server has an endpoint, the image of the flags, an identifier and a zone.
abbrev pub IsServed : Flags → Option BosNode → Type 0
IsServed flags none = ⊥
IsServed flags (some n) =
    (n.endpoint ≢ "")
    × (n.image ≡ flags.bosfs_image)
    × (n.node_options.node_options.node_id ≢ "")
    × (n.node_options.node_options.zone ≢ "")

module _ {N C K B : Type 0} (k8s : Kubernetes N C K) (http : HttpClient N B)
    (new_docker_client : Exec N String (Unit {0})) where
  -- How the program ends or runs for the flags of a driver of buckets that do not ask for the version.
  abbrev pub IsBosRun : {W : Type 0} → Flags → Run W → Type 0
  IsBosRun flags version_shown = ⊥
  IsBosRun flags (invalid_options e) = ¬ IsBosValid flags flags.region
  IsBosRun flags (init_failed (no_topology e)) =
      IsBosValid flags flags.region
      × ((t : N) × ((get_node_topology k8s http flags.topology_mode t).0 ≡ err e))
  IsBosRun flags (init_failed (no_docker_client message)) =
      IsBosValid flags flags.region × ((t : N) × ((new_docker_client t).0 ≡ err message))
  IsBosRun flags (init_failed _) = ⊥
  IsBosRun flags (unsupported_driver_type driver_type) = ⊥
  IsBosRun flags (cds_running d endpoint) = ⊥
  IsBosRun flags (bos_running d endpoint) =
      IsServed flags d.node_server × IsBosValid flags flags.region × (endpoint ≡ flags.csi_endpoint)

  -- How the program ends or runs where the version is not asked for, by the type of the driver.
  abbrev pub IsTypeRun : {W : Type 0} → Flags → Run W → Type 0
  IsTypeRun flags run =
      ((flags.driver_type ≡ driver_type_cds) × IsCdsRun k8s http flags run)
      ⊎ ((flags.driver_type ≡ driver_type_bos) × IsBosRun flags run)
      ⊎ ((flags.driver_type ≢ driver_type_cds)
          × (flags.driver_type ≢ driver_type_bos)
          × (run ≡ unsupported_driver_type ""))

  -- How the program ends or runs: it shows its version exactly where it is asked to.
  abbrev pub IsRun : {W : Type 0} → Flags → Run W → Type 0
  IsRun flags run =
      ((flags.show_version ≡ true) × (run ≡ version_shown))
      ⊎ ((flags.show_version ≡ false) × IsTypeRun flags run)

IsBosNode-IsServed :
    (flags : Flags) (version : String) (p : Options) (n : Option BosNode)
    → p.bos_endpoint ≢ ""
    → p.bosfs_image ≡ flags.bosfs_image
    → IsBosNode (set_all (bos_set_options version p) zero_options) n
    → IsServed flags n
IsBosNode-IsServed flags version p none set kept x = elim x [ ]
IsBosNode-IsServed flags version p (some n) set kept (endpoint, image, id, zone) =
    ((λ e. set (sym endpoint ∙ e)), image ∙ kept, id, zone)

module _ {N C K B W : Type 0} (k8s : Kubernetes N C K) (http : HttpClient N B)
    (new_docker_client : Exec N String (Unit {0})) (client : ClientOf W) (fuel : ℕ)
    (label : String) where
  start_bos :
      (flags : Flags) (o p : Options) (version : String) (s : N)
      → IsBosAccepted flags o p
      → o.driver_type ≡ driver_type_bos
      → o.region ≡ flags.region
      → o.csi_endpoint ≡ flags.csi_endpoint
      → o.topology_mode ≡ flags.topology_mode
      → IsBosRun k8s http new_docker_client flags
          (start k8s http new_docker_client client fuel label version p s).0
  unfolding start
  start_bos flags o p version s a t region endpoint topology =
      let (pt, pe, _, pm) = a.rest_kept in
      let named : p.driver_type ≡ driver_type_bos = pt ∙ t in
      let valid : IsBosValid flags flags.region = subst (IsBosValid flags) region a.valid in
      let mode : (p.mode ≡ driver_mode_node) ⊎ (p.mode ≡ driver_mode_all) =
        rw a.mode_kept a.valid.mode_known in
      let run = start k8s http new_docker_client client fuel label version p s in
      let d = new_bos_driver k8s http new_docker_client (bos_set_options version p) s in
      elim (Result-cases d.0) [
        | inl (built, f) ↦
            let runs : run.0 ≡ bos_running built p.csi_endpoint = rw (named, f) refl in
            rw runs (
              IsBosNode-IsServed flags version p built.node_server a.bos_set a.image_kept (
                  new_bos_driver_ok k8s http new_docker_client (bos_set_options version p) s mode
                    f),
              valid,
              pe ∙ endpoint,
            )
        | inr (x, f) ↦
            elim (new_bos_driver_err k8s http new_docker_client (bos_set_options version p) s mode
              a.bos_set f) [
                | inl (y, q, sought) ↦
                    let fails : run.0 ≡ init_failed (no_topology y) = rw (named, f, q) refl in
                    rw fails (
                      valid,
                      (
                        s,
                        subst (λ m. (get_node_topology k8s http m s).0 ≡ err y) (pm ∙ topology)
                            sought,
                      ),
                    )
                | inr (y, q, refused) ↦
                    let fails : run.0 ≡ init_failed (no_docker_client y) = rw (named, f, q) refl in
                    rw fails (valid, refused)
              ]
      ]

  main-IsBosRun :
      (flags : Flags) (version : String) (s : N)
      → flags.driver_type ≡ driver_type_bos
      → flags.show_version ≡ false
      → IsBosRun k8s http new_docker_client flags
          (main k8s http new_docker_client client fuel label flags version s).0
  unfolding main parse_flags parse_options common_options
  main-IsBosRun flags version s h e =
      let o : Options = record (common_options flags) { driver_type = driver_type_bos } in
      let tells = parse_bos_driver_flags-BosTells flags o in
      let other : (flags.driver_type == driver_type_cds) ≡ false = rw h refl in
      let named : (flags.driver_type == driver_type_bos) ≡ true = rw h refl in
      let run = main k8s http new_docker_client client fuel label flags version s in
      elim (Result-cases (parse_bos_driver_flags flags o)) [
        | inr (x, f) ↦
            let refused : run.0 ≡ invalid_options x = ground (arith, e, other, named, f) in
            rw refused (subst (BosTells flags o) f tells)
        | inl (p, f) ↦
            let v =
              if flags.override_driver_version == ""
              then version
              else flags.override_driver_version in
            let starts : run.0 ≡ (start k8s http new_docker_client client fuel label v p s).0 =
              ground (arith, e, other, named, f) in
            rw starts
              (start_bos flags o p v s (subst (BosTells flags o) f tells) refl refl refl refl)
      ]

  main_unsupported :
      (flags : Flags) (version : String) (s : N)
      → flags.driver_type ≢ driver_type_cds
      → flags.driver_type ≢ driver_type_bos
      → flags.show_version ≡ false
      → (main k8s http new_docker_client client fuel label flags version s).0
        ≡ unsupported_driver_type ""
  unfolding main start parse_flags parse_options common_options
  main_unsupported flags version s n m e = ground (
    arith,
    e,
    n,
    m,
    eq_iff flags.driver_type driver_type_cds,
    eq_iff flags.driver_type driver_type_bos,
  )

  main_version :
      (flags : Flags) (version : String) (s : N)
      → flags.show_version ≡ true
      → (main k8s http new_docker_client client fuel label flags version s).0 ≡ version_shown
  unfolding main parse_flags
  main_version flags version s e = ground (arith, e)

  main-IsTypeRun :
      (flags : Flags) (version : String) (s : N)
      → flags.show_version ≡ false
      → IsTypeRun k8s http new_docker_client flags
          (main k8s http new_docker_client client fuel label flags version s).0
  main-IsTypeRun flags version s shown = elim (Bool-cases (flags.driver_type == driver_type_cds)) [
    | inl e ↦
        let h = (eq_iff flags.driver_type driver_type_cds).0 e in
        inl (h, main-IsCdsRun k8s http new_docker_client client fuel label flags version s h shown)
    | inr e ↦ elim (Bool-cases (flags.driver_type == driver_type_bos)) [
      | inl f ↦
          let h = (eq_iff flags.driver_type driver_type_bos).0 f in
          inr (inl (h, main-IsBosRun flags version s h shown))
      | inr f ↦
          let n : flags.driver_type ≢ driver_type_cds =
            ground (arith, e, eq_iff flags.driver_type driver_type_cds) in
          let m : flags.driver_type ≢ driver_type_bos =
            ground (arith, f, eq_iff flags.driver_type driver_type_bos) in
          inr (inr (n, m, main_unsupported flags version s n m shown))
    ]
  ]

  -- The program shows its version where it is asked to, and only there. Otherwise, for a driver of
  -- cloud disks, it refuses exactly flags that are not valid; fails to start only where the cluster is
  -- not given for the gateway and its lookup failed, or where the lookup of the node failed; and else
  -- serves at the endpoint of the flags a driver that has the controller and the node's server that the
  -- mode asks for, the controller with the authorisation of the flags and with their cluster, unless
  -- they give none for the gateway, and the node's server with an identifier and a zone. For a driver of buckets, it refuses exactly the flags that
  -- are not valid for one; fails to start only where the lookup of the node or the making of a client
  -- of Docker failed; and else serves a driver whose node's server has an endpoint, the image of the
  -- flags, an identifier and a zone. For any other type it reports an empty type as not supported.
  pub main-IsRun :
      (flags : Flags) (version : String) (s : N)
      → IsRun k8s http new_docker_client flags
          (main k8s http new_docker_client client fuel label flags version s).0
  main-IsRun flags version s = elim (Bool-cases flags.show_version) [
    | inl e ↦ inl (e, main_version flags version s e)
    | inr e ↦ inr (e, main-IsTypeRun flags version s e)
  ]
