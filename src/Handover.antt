-- ===== src/Handover.antt =====
-- From the controller (pkg/driver/cds/controller.go) to the node server (pkg/driver/cds/node.go): the
-- container orchestrator hands the publish context of the one to the other.
pub mod Installed
use baiducloud_cce_csi_drive.Base.{String, some, List, ◌≡◌, sym, subst, ◌∙◌, ap, refl, ok, lookup}
use baiducloud_cce_csi_drive.Cloud.Volume.{Volume, Attachment}
use baiducloud_cce_csi_drive.Cloud.Service.{VolumeService, NodeService}
use baiducloud_cce_csi_drive.Csi.{mount}
use baiducloud_cce_csi_drive.Controller.Server.{Server, Config}
use baiducloud_cce_csi_drive.Controller.Publish.{
  PublishRequest, PublishResponse, context_map, attachment_to, controller_publish_volume,
}
use baiducloud_cce_csi_drive.Controller.Calls.Attaching.{Fetched}
use baiducloud_cce_csi_drive.Controller.Calls.Answers.{controller_publish_volume_ok}
use baiducloud_cce_csi_drive.Node.Mounter.{Mounter, NodeServer, value_of, access_type_of}
use baiducloud_cce_csi_drive.Node.Mounts.{View, IsMounter}
use baiducloud_cce_csi_drive.Node.Stage.{StageRequest, node_stage_volume}
use baiducloud_cce_csi_drive.Node.Staged.Handler.{node_stage_volume_ok}
use baiducloud_cce_csi_drive.Node.Publish.{NodePublishRequest, node_publish_volume}
use baiducloud_cce_csi_drive.Node.Published.Bound.{IsBinder, node_publish_volume_bound}

value_of-context_map : (r : PublishResponse) → value_of "serial" (context_map r) ≡ r.serial
unfolding context_map lookup
value_of-context_map r = refl

module _ {W F : Type 0} (vs : VolumeService W) (ns : NodeService W) (config : Config)
    (m : Mounter F) (v : View F) (L : IsMounter m v) (B : IsBinder m v) where
  -- Over a mounter that acts as `IsMounter` and `IsBinder` say: where a volume was published to a node,
  -- staged there with the publish context of the answer, and published at a target path where nothing
  -- was mounted, with a file system all along, the target path shows the device that has the serial
  -- of an attachment to this node of the volume that the service fetched for the request.
  pub published_to_pod :
      (req : PublishRequest) (s : Server W) {r : PublishResponse}
      → (controller_publish_volume vs ns config req s).0 ≡ ok r
      → (key : String) (stage : StageRequest) (t : NodeServer F) {fs_type : String}
        {flags : List String}
      → access_type_of stage.volume_capability ≡ mount fs_type flags
      → stage.publish_context ≡ some (context_map r)
      → (node_stage_volume m key stage t).0 ≡ ok tt
      → (pod : NodePublishRequest) → pod.volume_capability ≡ stage.volume_capability
      → pod.staging_target_path ≡ stage.staging_target_path
      → v.device (node_stage_volume m key stage t).1.node pod.target_path ≡ ""
      → (node_publish_volume m pod (node_stage_volume m key stage t).1.node).0 ≡ ok tt
      → (volume : Volume) × (a : Attachment) × Fetched vs ns config req.volume_id volume
        × (attachment_to req.node_id volume.model.attachments ≡ some a)
        × (a.instance_id ≡ req.node_id)
        × (v.by_serial (node_stage_volume m key stage t).1.node a.serial
            ≡ some (
                v.device
                  (node_publish_volume m pod (node_stage_volume m key stage t).1.node).1
                  pod.target_path))
  published_to_pod req s {r} h key stage t {fs_type} {flags} access context staged pod same_access
        same_path free bound =
      let u = (node_stage_volume m key stage t).1.node in
      let (volume, a, fetched, used, attached, at, same) =
        controller_publish_volume_ok vs ns config req s h in
      let is_staged =
        node_stage_volume_ok m v L key stage fs_type flags (context_map r) t access context
          staged in
      let serial : value_of "serial" (context_map r) ≡ a.serial =
        value_of-context_map r ∙ ap (λ x. x.serial) same in
      let known : v.by_serial u a.serial ≡ some (v.device u pod.staging_target_path) =
        subst (λ x. v.by_serial u x ≡ some (v.device u pod.staging_target_path)) serial
          (subst (λ p. v.by_serial u (value_of "serial" (context_map r)) ≡ some (v.device u p))
            (sym same_path) is_staged.at_target) in
      let shown =
        node_publish_volume_bound m v L B pod fs_type flags u
          (ap access_type_of same_access ∙ access)
          (B.serial_named a.serial (v.device u pod.staging_target_path) u known) free bound in
      (volume, a, fetched, attached, at, known ∙ ap some (sym shown))
