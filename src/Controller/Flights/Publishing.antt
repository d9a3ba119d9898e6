-- ===== src/Controller/Flights/Publishing.antt =====
-- The callers of `ControllerPublishVolume`, whose group has the volume as its key.
use baiducloud_cce_csi_drive.Base.{ℕ, String, true, some, ◌≡◌, sym, subst, Result, ok}
use baiducloud_cce_csi_drive.Csi.{Code}
use baiducloud_cce_csi_drive.Cloud.Volume.{Volume, VolumeStatus, Attachment}
use baiducloud_cce_csi_drive.Cloud.Service.{VolumeService, NodeService}
use baiducloud_cce_csi_drive.Controller.Server.{Server, Config}
use baiducloud_cce_csi_drive.Controller.Publish.{
  PublishRequest, PublishResponse, attachment_to, controller_publish_volume,
}
use baiducloud_cce_csi_drive.Controller.Calls.Attaching.{Fetched}
use baiducloud_cce_csi_drive.Controller.Calls.Answers.{controller_publish_volume_ok}
use baiducloud_cce_csi_drive.Controller.Flights.{
  Group, IsSingleFlight, answered, Flights, FlightReach,
}
use baiducloud_cce_csi_drive.Controller.Flights.Joined.{request_of}
use baiducloud_cce_csi_drive.Controller.Flights.Answered.{IsQuiet, answer-OfKey, joined_answer}

module _ {W G C : Type 0} (vs : VolumeService W) (ns : NodeService W) (config : Config)
    (g : Group G C (Result Code PublishResponse)) (Drift : Server W → Server W → Type 0)
    (key_of : C → String) (L : IsSingleFlight g key_of) where
  abbrev pub PublishFlights : Type 0
  PublishFlights = Flights (Server W) G PublishRequest C PublishResponse

  abbrev pub PublishReach : PublishFlights → PublishFlights → Type 0
  PublishReach s t =
      FlightReach g (λ req. req.volume_id) (controller_publish_volume vs ns config) Drift s t

  abbrev pub IsQuietPublish : PublishFlights → Type 0
  IsQuietPublish =
      IsQuiet g (λ req. req.volume_id) (controller_publish_volume vs ns config) Drift key_of

  -- The device and the serial are those of an attachment of the volume to the node.
  pub record IsAttachmentTo (id node_id : String) (r : PublishResponse) : Type 0 where
    pub volume : Volume
    pub attachment : Attachment
    pub volume_fetched : Fetched vs ns config id volume
    pub used : volume.model.status ≡ VolumeStatus.in_use
    pub attached : attachment_to node_id volume.model.attachments ≡ some attachment
    pub at_node : attachment.instance_id ≡ node_id
    pub same : r ≡ record { dev_name = attachment.device; serial = attachment.serial }

  IsAttachmentTo-publish :
      (req : PublishRequest) (s : Server W) {r : PublishResponse}
      → (controller_publish_volume vs ns config req s).0 ≡ ok r
      → IsAttachmentTo req.volume_id req.node_id r
  IsAttachmentTo-publish req s h =
      let (v, a, fetched, used, attached, at, same) =
        controller_publish_volume_ok vs ns config req s h in
      record {
        volume = v;
        attachment = a;
        volume_fetched = fetched;
        used = used;
        attached = attached;
        at_node = at;
        same = same;
      }

  -- Over a group that acts as `IsSingleFlight` says: in every interleaving of the callers of
  -- `ControllerPublishVolume` from a quiet start, a caller that is told of success is given the device
  -- and the serial of an attachment of the volume of its request, to the node of the request of a
  -- caller that has come for the same volume.
  pub published_answer :
      {s t : PublishFlights}
      → IsQuietPublish s
      → PublishReach s t
      → (i : ℕ) {req : PublishRequest} {r : PublishResponse} → t.callers i ≡ answered req (ok r)
      → (j : ℕ) × (asked : PublishRequest) × (request_of (t.callers j) ≡ some asked)
        × (asked.volume_id ≡ req.volume_id)
        × IsAttachmentTo req.volume_id asked.node_id r
  published_answer quiet reach i {req} {r} x =
      let (q, u, (j, asked), same, h) =
        answer-OfKey g (λ req. req.volume_id) (controller_publish_volume vs ns config) Drift key_of
          L quiet reach i x in
      (
        j,
        q,
        asked,
        same,
        subst (λ id. IsAttachmentTo id q.node_id r) same (IsAttachmentTo-publish q u h),
      )

  -- Over a group that acts as `IsSingleFlight` says, and from a quiet start without a call for a volume:
  -- where a request to publish the volume would succeed, a caller that asks to publish it to whatever
  -- other node can be told of success too, with the device of the node of the first request.
  pub published_elsewhere :
      (s : PublishFlights) (req other : PublishRequest) {r : PublishResponse}
      → IsQuietPublish s
      → (g.enter req.volume_id s.group).0.0 ≡ true
      → other.volume_id ≡ req.volume_id
      → (controller_publish_volume vs ns config req s.server).0 ≡ ok r
      → (t : PublishFlights) × PublishReach s t
        × (t.callers 1 ≡ answered other (ok r))
        × IsAttachmentTo other.volume_id req.node_id r
  published_elsewhere s req other {r} quiet free same h =
      let (t, reach, told) =
        joined_answer g (λ req. req.volume_id) (controller_publish_volume vs ns config) Drift key_of
          L s req other quiet free same h in
      (
        t,
        reach,
        told,
        subst (λ id. IsAttachmentTo id req.node_id r) (sym same)
            (IsAttachmentTo-publish req s.server h),
      )
