-- ===== src/Tests/Handed.antt =====
-- A volume on its way from the controller to a pod.
use baiducloud_cce_csi_drive.Base.{true, ◌∙◌, some, [], ◌∷◌, ◌≡◌, refl, arith, lookup, contains}
use baiducloud_cce_csi_drive.Base.Int.{pos}
use baiducloud_cce_csi_drive.Util.KeyMutex.{try_lock, unlock}
use baiducloud_cce_csi_drive.Cloud.Auth.{choose_auth}
use baiducloud_cce_csi_drive.Cloud.Volume.{Volume, VolumeStatus, Attachment}
use baiducloud_cce_csi_drive.Cloud.Service.{VolumeService}
use baiducloud_cce_csi_drive.Csi.{get_mode}
use baiducloud_cce_csi_drive.Controller.Capability.{check_volume_capabilities}
use baiducloud_cce_csi_drive.Controller.Publish.{
  PublishRequest, PublishResponse, context_map, attachment_to, check_publish, publish_to,
  controller_publish_volume,
}
use baiducloud_cce_csi_drive.Controller.Calls.Attaching.{Fetched}
use baiducloud_cce_csi_drive.Node.Mounter.{NodeServer, value_of}
use baiducloud_cce_csi_drive.Node.Stage.{
  StageRequest, ensure_dir, mount_at, stage_device, stage_mount, node_stage_volume,
}
use baiducloud_cce_csi_drive.Node.Staged.{IsStaged}
use baiducloud_cce_csi_drive.Node.Staged.Handler.{node_stage_volume_ok}
use baiducloud_cce_csi_drive.Node.Publish.{
  NodePublishRequest, bind_options, bind_mount, publish_dir, node_publish_mount_volume,
  node_publish_volume,
}
use baiducloud_cce_csi_drive.Node.Published.Bound.{IsBinder}
use baiducloud_cce_csi_drive.Handover.{published_to_pod}
use baiducloud_cce_csi_drive.Tests.Clouds.{
  config, secrets, writer, volume, one_volume, any_node, server_on,
}
use baiducloud_cce_csi_drive.Tests.Nodes.{
  Machine, machine, view, machine-IsMounter, value_of-first, bound_device, bound_device-kept, empty,
}

pub machine-IsBinder : IsBinder machine view
machine-IsBinder = record {
  bind_device = λ source p options s named h.
      value_of-first p (bound_device (value_of source s.mounts)) s.mounts
      ∙ bound_device-kept (value_of source s.mounts) named;
  serial_named = λ serial d s h e. let g : d ≡ "/dev/vdb" = ground (arith, h) in cc (g, e);
}

abbrev pub attached : VolumeService (Unit {0})
attached = one_volume (
    volume "v-1" (pos 100) VolumeStatus.in_use
      (record { instance_id = "i-1"; device = "/dev/vdb"; serial = "s-1" } ∷ []))

abbrev pub request : PublishRequest
request = record {
  volume_id = "v-1";
  node_id = "i-1";
  volume_capability = some writer;
  secrets = secrets;
}

abbrev pub answer : PublishResponse
answer = record { dev_name = "/dev/vdb"; serial = "s-1" }

abbrev pub stage : StageRequest
stage = record {
  volume_id = "v-1";
  staging_target_path = "/stage";
  volume_capability = some writer;
  publish_context = some (context_map answer);
}

abbrev pub pod : NodePublishRequest
pod = record {
  volume_id = "v-1";
  staging_target_path = "/stage";
  target_path = "/pod";
  volume_capability = some writer;
  publish_context = some (context_map answer);
  readonly = true;
}

abbrev pub node : NodeServer Machine
node = record { node = empty; in_process_requests = record { kv = [] } }

node_stage_volume_ok_example :
    IsStaged machine view machine-IsMounter "s-1" "/stage"
      (node_stage_volume machine "k" stage node).1.node
unfolding node_stage_volume stage_mount stage_device ensure_dir mount_at contains lookup
    check_volume_capabilities get_mode context_map try_lock unlock
node_stage_volume_ok_example =
    node_stage_volume_ok machine view machine-IsMounter "k" stage "" [] (context_map answer) node
      refl refl refl

shown_to_pod :
    (v : Volume) × (a : Attachment) × Fetched attached any_node config "v-1" v
    × (attachment_to "i-1" v.model.attachments ≡ some a)
    × (a.instance_id ≡ "i-1")
    × (view.by_serial (node_stage_volume machine "k" stage node).1.node a.serial
        ≡ some (
            view.device
              (node_publish_volume machine pod (node_stage_volume machine "k" stage node).1.node).1
              "/pod"))
unfolding node_stage_volume stage_mount stage_device ensure_dir mount_at contains lookup
    check_volume_capabilities get_mode context_map try_lock unlock node_publish_volume
    node_publish_mount_volume publish_dir bind_mount bind_options controller_publish_volume
    check_publish choose_auth publish_to attachment_to
shown_to_pod =
    published_to_pod attached any_node config machine view machine-IsMounter machine-IsBinder
      request (server_on tt) {r = answer} refl "k" stage node refl refl refl pod refl refl refl refl
