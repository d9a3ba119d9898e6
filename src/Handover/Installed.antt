-- ===== src/Handover/Installed.antt =====
-- From the controller (pkg/driver/cds/controller.go) to a pod, with the mounter of the driver
-- (pkg/driver/cds/mount.go) on the node.
use baiducloud_cce_csi_drive.Base.{String, some, List, ◌≡◌, Bool, arith, Result, ok, err, Exec}
use baiducloud_cce_csi_drive.Util.Os.{OsError}
use baiducloud_cce_csi_drive.Cloud.Volume.{Volume, Attachment}
use baiducloud_cce_csi_drive.Cloud.Service.{VolumeService, NodeService}
use baiducloud_cce_csi_drive.Csi.{mount}
use baiducloud_cce_csi_drive.Controller.Server.{Server, Config}
use baiducloud_cce_csi_drive.Controller.Publish.{
  PublishRequest, PublishResponse, context_map, attachment_to, controller_publish_volume,
}
use baiducloud_cce_csi_drive.Controller.Calls.Attaching.{Fetched}
use baiducloud_cce_csi_drive.Node.Mounter.{Mounter, NodeServer, access_type_of}
use baiducloud_cce_csi_drive.Node.Stage.{StageRequest, node_stage_volume}
use baiducloud_cce_csi_drive.Node.Publish.{NodePublishRequest, node_publish_volume}
use baiducloud_cce_csi_drive.Node.Device.{DeviceError}
use baiducloud_cce_csi_drive.Node.Device.Found.{BlockDevice, device_of}
use baiducloud_cce_csi_drive.Node.Files.{OsFiles, IsOsFiles, MountUtils, new_mounter}
use baiducloud_cce_csi_drive.Node.Installed.{
  view_of, found_device, IsQuietOs, IsGrep, IsMountUtils, new_mounter-IsMounter,
}
use baiducloud_cce_csi_drive.Node.Installed.Bound.{IsBindUtils, new_mounter-IsBinder}
use baiducloud_cce_csi_drive.Handover.{published_to_pod}

found_device_ok : (r : Result DeviceError String) {d : String} → found_device r ≡ some d → r ≡ ok d
found_device_ok (ok d) h = ground (arith, h)
found_device_ok (err e) h = absurd cc

module _ {W F H : Type 0} (vs : VolumeService W) (ns : NodeService W) (config : Config)
    (os : OsFiles F H) (describe : OsError → String) (utils : MountUtils os describe)
    (grep_serials : Exec F DeviceError String) (blockdev : String → Exec F DeviceError String)
    (describe_device : DeviceError → String) (exists : F → String → Bool)
    (device : F → String → String) (devices : F → List BlockDevice)
    (O : IsOsFiles os describe exists) (Q : IsQuietOs os exists device devices)
    (K : IsGrep grep_serials devices) (U : IsMountUtils utils exists device devices)
    (B : IsBindUtils utils device) where
  abbrev pub installed : Mounter F
  installed = new_mounter os describe utils grep_serials blockdev describe_device

  -- With the driver's mounter, where Go's os, the mount utilities and the command that lists the serials
  -- act as the records of hypotheses say: where a volume was published to a node, staged there with
  -- the publish context of the answer, and published at a target path where nothing was mounted,
  -- with a file system all along, the target path shows the first block device of the node that has
  -- the serial of an attachment to this node of the volume that the service fetched for the request.
  pub published_by_driver :
      (req : PublishRequest) (s : Server W) {r : PublishResponse}
      → (controller_publish_volume vs ns config req s).0 ≡ ok r
      → (key : String) (stage : StageRequest) (t : NodeServer F) {fs_type : String}
        {flags : List String}
      → access_type_of stage.volume_capability ≡ mount fs_type flags
      → stage.publish_context ≡ some (context_map r)
      → (node_stage_volume installed key stage t).0 ≡ ok tt
      → (pod : NodePublishRequest) → pod.volume_capability ≡ stage.volume_capability
      → pod.staging_target_path ≡ stage.staging_target_path
      → device (node_stage_volume installed key stage t).1.node pod.target_path ≡ ""
      → (node_publish_volume installed pod (node_stage_volume installed key stage t).1.node).0
        ≡ ok tt
      → (volume : Volume) × (a : Attachment) × Fetched vs ns config req.volume_id volume
        × (attachment_to req.node_id volume.model.attachments ≡ some a)
        × (a.instance_id ≡ req.node_id)
        × (device_of a.serial (devices (node_stage_volume installed key stage t).1.node)
            ≡ ok (
                device
                  (node_publish_volume installed pod
                    (node_stage_volume installed key stage t).1.node).1
                  pod.target_path))
  published_by_driver req s h key stage t access context staged pod same_access same_path free
        bound =
      let L =
        new_mounter-IsMounter os describe utils grep_serials blockdev describe_device exists device
          devices O Q K U in
      let binds =
        new_mounter-IsBinder os describe utils grep_serials blockdev describe_device exists device
          devices B in
      let (volume, a, fetched, attached, at, shown) =
        published_to_pod vs ns config installed (view_of exists device devices) L binds req s h key
          stage t access context staged pod same_access same_path free bound in
      (
        volume,
        a,
        fetched,
        attached,
        at,
        found_device_ok
            (device_of a.serial (devices (node_stage_volume installed key stage t).1.node)) shown,
      )
