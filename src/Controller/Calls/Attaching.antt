-- ===== src/Controller/Calls/Attaching.antt =====
-- The calls of the handlers that attach, detach and delete.
use baiducloud_cce_csi_drive.Base.{
  String, none, some, List, [], ◌∷◌, ◌≡◌, ◌≢◌, refl, ◌⊎◌, inl, inr, arith, eq_iff, ok, Result-cases,
}
use baiducloud_cce_csi_drive.Cloud.Auth.{Auth}
use baiducloud_cce_csi_drive.Cloud.Volume.{Volume, VolumeStatus, Attachment}
use baiducloud_cce_csi_drive.Cloud.Service.{VolumeService, NodeService}
use baiducloud_cce_csi_drive.Cloud.Calls.{Call, attach, detach, delete, IsLogged, Issued}
use baiducloud_cce_csi_drive.Controller.Server.{Server, Config}
use baiducloud_cce_csi_drive.Controller.Publish.{
  PublishRequest, attachment_to, check_publish, publish_to, controller_publish_volume,
}
use baiducloud_cce_csi_drive.Controller.Unpublish.{
  UnpublishRequest, check_unpublish, unpublish_from, controller_unpublish_volume,
}
use baiducloud_cce_csi_drive.Controller.Delete.{DeleteVolumeRequest, check_delete, delete_volume}

-- The attachment that is found is one to the node.
pub attachment_to_node :
    (node_id : String) (as' : List Attachment) {a : Attachment}
    → attachment_to node_id as' ≡ some a
    → a.instance_id ≡ node_id
unfolding attachment_to
attachment_to_node node_id [] h = cc
attachment_to_node node_id (b ∷ as') {a} h =
    ground (arith, eq_iff b.instance_id node_id, attachment_to_node node_id as' {a = a})

module _ {W : Type 0} (vs : VolumeService W) (ns : NodeService W) (config : Config) where
  -- The service answered with the volume for the identifier.
  abbrev pub Fetched : String → Volume → Type 0
  Fetched id v = (auth : Auth) × (w : W) × ((vs.get_volume_by_id id auth w).0 ≡ ok v)

  module _ (log : W → List Call) (L : IsLogged vs ns log) where
    publish_to_calls :
        (node_id : String) (v : Volume) (s : Server W)
        → (log (publish_to vs ns config node_id v s).1.cloud ≡ log s.cloud)
          ⊎ ((log (publish_to vs ns config node_id v s).1.cloud
                ≡ attach v.model.id node_id ∷ log s.cloud)
              × (v.model.status ≡ VolumeStatus.available))
    unfolding publish_to
    publish_to_calls node_id v s = ground (arith, L.log-attach v node_id s.cloud)

    check_publish_state :
        (req : PublishRequest) (s : Server W) → (check_publish vs ns config req s).1 ≡ s
    unfolding check_publish
    check_publish_state req s = ground arith

    -- Over services whose calls a log tells, an attempt to publish makes at most one call that
    -- changes the cloud: it attaches to the node of the request a volume that the service fetched
    -- for the identifier of the request, and that is available.
    pub controller_publish_volume_calls :
        (req : PublishRequest) (s : Server W)
        → Issued
            (λ c.
              (v : Volume) × Fetched req.volume_id v
              × (c ≡ attach v.model.id req.node_id)
              × (v.model.status ≡ VolumeStatus.available))
            (log s.cloud)
            (log (controller_publish_volume vs ns config req s).1.cloud)
    unfolding controller_publish_volume
    controller_publish_volume_calls req s =
        let checked = check_publish_state req s in
        elim (Result-cases (check_publish vs ns config req s).0) [
          | inr (x, a) ↦ inl (ground (arith, checked, a))
          | inl (auth, a) ↦
              let w = (ns.get_node_by_id req.node_id auth s.cloud).1 in
              elim (Result-cases (ns.get_node_by_id req.node_id auth s.cloud).0) [
                | inr (x, n) ↦
                    inl (ground (arith, checked, a, n, L.log-node req.node_id auth s.cloud))
                | inl (_, n) ↦ elim (Result-cases (vs.get_volume_by_id req.volume_id auth w).0) [
                  | inr (x, f) ↦ inl (
                      ground (
                        arith,
                        checked,
                        a,
                        n,
                        f,
                        L.log-node req.node_id auth s.cloud,
                        L.log-by_id req.volume_id auth w,
                      ))
                  | inl (v, f) ↦
                      let t = record s { cloud = (vs.get_volume_by_id req.volume_id auth w).1 } in
                      elim (publish_to_calls req.node_id v t) [
                        | inl same ↦ inl (
                            ground (
                              arith,
                              checked,
                              a,
                              n,
                              f,
                              same,
                              L.log-node req.node_id auth s.cloud,
                              L.log-by_id req.volume_id auth w,
                            ))
                        | inr (more, free) ↦ inr (
                          attach v.model.id req.node_id,
                          ground (
                            arith,
                            checked,
                            a,
                            n,
                            f,
                            more,
                            L.log-node req.node_id auth s.cloud,
                            L.log-by_id req.volume_id auth w,
                          ),
                          (v, (auth, w, f), refl, free),
                        )
                      ]
                ]
              ]
        ]

    unpublish_from_calls :
        (node_id : String) (v : Volume) (s : Server W)
        → (log (unpublish_from vs ns config node_id v s).1.cloud ≡ log s.cloud)
          ⊎ ((log (unpublish_from vs ns config node_id v s).1.cloud
                ≡ detach v.model.id node_id ∷ log s.cloud)
              × (attachment_to node_id v.model.attachments ≢ none)
              × (v.model.status ≢ VolumeStatus.detaching))
    unfolding unpublish_from
    unpublish_from_calls node_id v s = ground (arith, L.log-detach v node_id s.cloud)

    check_unpublish_state :
        (req : UnpublishRequest) (s : Server W) → (check_unpublish vs ns config req s).1 ≡ s
    unfolding check_unpublish
    check_unpublish_state req s = ground arith

    -- Over services whose calls a log tells, an attempt to unpublish makes at most one call that
    -- changes the cloud: it detaches from the node of the request a volume that the service fetched
    -- for the identifier of the request, that has an attachment to this node, and that is not
    -- detaching already.
    pub controller_unpublish_volume_calls :
        (req : UnpublishRequest) (s : Server W)
        → Issued
            (λ c.
              (v : Volume) × Fetched req.volume_id v
              × (c ≡ detach v.model.id req.node_id)
              × (attachment_to req.node_id v.model.attachments ≢ none)
              × (v.model.status ≢ VolumeStatus.detaching))
            (log s.cloud)
            (log (controller_unpublish_volume vs ns config req s).1.cloud)
    unfolding controller_unpublish_volume
    controller_unpublish_volume_calls req s =
        let checked = check_unpublish_state req s in
        elim (Result-cases (check_unpublish vs ns config req s).0) [
          | inr (x, a) ↦ inl (ground (arith, checked, a))
          | inl (auth, a) ↦
              let w = (vs.get_volume_by_id req.volume_id auth s.cloud).1 in
              let quiet = L.log-by_id req.volume_id auth s.cloud in
              let quiet_node = L.log-node req.node_id auth w in
              elim (Result-cases (vs.get_volume_by_id req.volume_id auth s.cloud).0) [
                | inr (x, f) ↦ inl (ground (arith, checked, a, f, quiet))
                | inl (v, f) ↦ elim (Result-cases (ns.get_node_by_id req.node_id auth w).0) [
                  | inr (x, n) ↦ inl (ground (arith, checked, a, f, n, quiet, quiet_node))
                  | inl (_, n) ↦
                      let t = record s { cloud = (ns.get_node_by_id req.node_id auth w).1 } in
                      elim (unpublish_from_calls req.node_id v t) [
                        | inl same ↦ inl (ground (arith, checked, a, f, n, same, quiet, quiet_node))
                        | inr (more, held, steady) ↦ inr (
                          detach v.model.id req.node_id,
                          ground (arith, checked, a, f, n, more, quiet, quiet_node),
                          (v, (auth, s.cloud, f), refl, held, steady),
                        )
                      ]
                ]
              ]
        ]

    check_delete_state :
        (req : DeleteVolumeRequest) (s : Server W) → (check_delete vs config req s).1 ≡ s
    unfolding check_delete
    check_delete_state req s = ground arith

    -- Over services whose calls a log tells, a deletion makes at most one call that changes the
    -- cloud: it deletes a volume that the service fetched for the identifier of the request.
    pub delete_volume_calls :
        (req : DeleteVolumeRequest) (s : Server W)
        → Issued
            (λ c. (v : Volume) × Fetched req.volume_id v × (c ≡ delete v.model.id))
            (log s.cloud)
            (log (delete_volume vs config req s).1.cloud)
    unfolding delete_volume
    delete_volume_calls req s =
        let checked = check_delete_state req s in
        elim (Result-cases (check_delete vs config req s).0) [
          | inr (x, a) ↦ inl (ground (arith, checked, a))
          | inl (auth, a) ↦
              let w = (vs.get_volume_by_id req.volume_id auth s.cloud).1 in
              let quiet = L.log-by_id req.volume_id auth s.cloud in
              elim (Result-cases (vs.get_volume_by_id req.volume_id auth s.cloud).0) [
                | inr (x, f) ↦ inl (ground (arith, checked, a, f, quiet))
                | inl (v, f) ↦ inr (
                  delete v.model.id,
                  ground (arith, checked, a, f, quiet, L.log-delete v w),
                  (v, (auth, s.cloud, f), refl),
                )
              ]
        ]
