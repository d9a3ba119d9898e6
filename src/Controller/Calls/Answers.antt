-- ===== src/Controller/Calls/Answers.antt =====
-- When publishing and unpublishing report success.
use baiducloud_cce_csi_drive.Base.{
  String, none, some, ◌≡◌, inl, inr, arith, ok, Result-cases, Option-cases,
}
use baiducloud_cce_csi_drive.Cloud.Auth.{Auth}
use baiducloud_cce_csi_drive.Cloud.Volume.{Volume, VolumeStatus, Attachment}
use baiducloud_cce_csi_drive.Cloud.Service.{VolumeService, NodeService}
use baiducloud_cce_csi_drive.Controller.Server.{Server, Config}
use baiducloud_cce_csi_drive.Controller.Publish.{
  PublishRequest, PublishResponse, attachment_to, check_publish, publish_to,
  controller_publish_volume,
}
use baiducloud_cce_csi_drive.Controller.Unpublish.{
  UnpublishRequest, check_unpublish, unpublish_from, controller_unpublish_volume,
}
use baiducloud_cce_csi_drive.Controller.Calls.Attaching.{Fetched, attachment_to_node}

module _ {W : Type 0} (vs : VolumeService W) (ns : NodeService W) (config : Config) where
  publish_to_ok :
      (node_id : String) (v : Volume) (s : Server W) {r : PublishResponse}
      → (publish_to vs ns config node_id v s).0 ≡ ok r
      → (a : Attachment) × (attachment_to node_id v.model.attachments ≡ some a)
        × (v.model.status ≡ VolumeStatus.in_use)
        × (r ≡ record { dev_name = a.device; serial = a.serial })
  unfolding publish_to
  publish_to_ok node_id v s h = elim (Option-cases (attachment_to node_id v.model.attachments)) [
    | inl e ↦ absurd (ground (arith, e))
    | inr (a, e) ↦ (a, e, ground (arith, e), ground (arith, e))
  ]

  check_publish_same :
      (req : PublishRequest) (s : Server W) → (check_publish vs ns config req s).1 ≡ s
  unfolding check_publish
  check_publish_same req s = ground arith

  -- Publishing succeeds only for a volume that the service fetched for the identifier of the request,
  -- that is in use and has an attachment to the node of the request, and the answer is the device
  -- and the serial of that attachment.
  pub controller_publish_volume_ok :
      (req : PublishRequest) (s : Server W) {r : PublishResponse}
      → (controller_publish_volume vs ns config req s).0 ≡ ok r
      → (v : Volume) × (a : Attachment) × Fetched vs ns config req.volume_id v
        × (v.model.status ≡ VolumeStatus.in_use)
        × (attachment_to req.node_id v.model.attachments ≡ some a)
        × (a.instance_id ≡ req.node_id)
        × (r ≡ record { dev_name = a.device; serial = a.serial })
  unfolding controller_publish_volume
  controller_publish_volume_ok req s {r} h =
      let checked = check_publish_same req s in
      elim (Result-cases (check_publish vs ns config req s).0) [
        | inr (x, a) ↦ absurd (ground (arith, checked, a))
        | inl (auth, a) ↦
            let w = (ns.get_node_by_id req.node_id auth s.cloud).1 in
            elim (Result-cases (ns.get_node_by_id req.node_id auth s.cloud).0) [
              | inr (x, n) ↦ absurd (ground (arith, checked, a, n))
              | inl (_, n) ↦ elim (Result-cases (vs.get_volume_by_id req.volume_id auth w).0) [
                | inr (x, f) ↦ absurd (ground (arith, checked, a, n, f))
                | inl (v, f) ↦
                    let t = record s { cloud = (vs.get_volume_by_id req.volume_id auth w).1 } in
                    let (at, e, used, same) =
                      publish_to_ok req.node_id v t {r = r} (ground (arith, checked, a, n, f)) in
                    (
                      v,
                      at,
                      (auth, w, f),
                      used,
                      e,
                      attachment_to_node req.node_id v.model.attachments e,
                      same,
                    )
              ]
            ]
      ]

  -- Where the request is authorised and the services answer with the volume and the node, unpublishing
  -- succeeds only for a volume without an attachment to the node.
  pub controller_unpublish_volume_ok :
      (req : UnpublishRequest) (s : Server W) (auth : Auth) (v : Volume)
      → config.get_auth req.secrets ≡ ok auth
      → (vs.get_volume_by_id req.volume_id auth s.cloud).0 ≡ ok v
      → (ns.get_node_by_id req.node_id auth (vs.get_volume_by_id req.volume_id auth s.cloud).1).0
        ≡ ok tt
      → (controller_unpublish_volume vs ns config req s).0 ≡ ok tt
      → attachment_to req.node_id v.model.attachments ≡ none
  unfolding controller_unpublish_volume check_unpublish unpublish_from
  controller_unpublish_volume_ok req s auth v g f n h = ground arith
