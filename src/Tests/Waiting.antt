-- ===== src/Tests/Waiting.antt =====
-- Publishing a volume that is attached only later.
use baiducloud_cce_csi_drive.Base.{
  ℕ, ◌*◌, true, none, some, [], ◌∷◌, ◌≡◌, refl, arith, ok, err, Exec, ltb, if◌then◌else◌, lookup,
}
use baiducloud_cce_csi_drive.Base.Int.{pos}
use baiducloud_cce_csi_drive.Csi.{Code, get_mode}
use baiducloud_cce_csi_drive.Cloud.Auth.{choose_auth}
use baiducloud_cce_csi_drive.Cloud.Error.{service}
use baiducloud_cce_csi_drive.Cloud.Volume.{VolumeStatus}
use baiducloud_cce_csi_drive.Cloud.Service.{VolumeService}
use baiducloud_cce_csi_drive.Controller.Capability.{check_volume_capabilities}
use baiducloud_cce_csi_drive.Controller.Server.{Server}
use baiducloud_cce_csi_drive.Controller.Publish.{
  PublishRequest, PublishResponse, attachment_to, check_publish, publish_to,
  controller_publish_volume,
}
use baiducloud_cce_csi_drive.Controller.Retry.{second, Clock, wait_deadline}
use baiducloud_cce_csi_drive.Controller.Retry.Ends.{IsClock}
use baiducloud_cce_csi_drive.Controller.Retry.Live.{attempt_state, IsDone}
use baiducloud_cce_csi_drive.Controller.Rpc.{publish_volume_rpc}
use baiducloud_cce_csi_drive.Controller.Rpc.Attached.{IsAttachedIn, publish_volume_rpc-IsDone}
use baiducloud_cce_csi_drive.Tests.Clouds.{
  config, secrets, key_auth, writer, volume, any_node, server_on,
}

-- A cloud whose state is the time, with a volume that is attaching until the third second.
abbrev attached_later : VolumeService ℕ
attached_later = record {
  create_volume = λ args auth w. (ok args.name, w);
  get_volume_by_id = λ id auth w. (
    ok (
        if ltb w (3 * second)
        then volume id (pos 100) VolumeStatus.attaching []
        else volume id (pos 100) VolumeStatus.in_use
            (record { instance_id = "i-1"; device = "/dev/vdb"; serial = "s-1" } ∷ [])),
    w,
  );
  get_volume_by_name = λ name auth w. (err (service 404), w);
  delete = λ v w. (ok tt, w);
  attach = λ v n w. (ok (record { instance_id = n; device = "/dev/vdb"; serial = "s-1" }), w);
  detach = λ v n w. (ok tt, w);
  resize = λ v args w. (ok tt, w);
}

abbrev cloud_clock : Clock (Server ℕ)
cloud_clock = record {
  now = λ s. s.cloud;
  sleep_until = λ t s. record s { cloud = t };
  timer_first = λ s. true;
}

abbrev publish_request : PublishRequest
publish_request = record {
  volume_id = "v-1";
  node_id = "i-1";
  volume_capability = some writer;
  secrets = secrets;
}

abbrev publish : Exec (Server ℕ) Code PublishResponse
publish = controller_publish_volume attached_later any_node config publish_request

-- An attempt takes no time.
publish-keeps_time : (s : Server ℕ) → (publish s).1.cloud ≡ s.cloud
unfolding controller_publish_volume check_publish publish_to attachment_to check_volume_capabilities
    get_mode choose_auth lookup
publish-keeps_time s = ground arith

cloud_clock-IsClock : IsClock cloud_clock publish
cloud_clock-IsClock = record {
  forwards = λ s. omega (arith, publish-keeps_time s);
  wakes = λ t s h. omega arith;
}

attached_at_four :
    IsAttachedIn attached_later any_node config publish_request (server_on (4 * second))
unfolding check_publish attachment_to check_volume_capabilities get_mode choose_auth lookup
attached_at_four = record {
  auth = key_auth;
  volume =
      volume "v-1" (pos 100) VolumeStatus.in_use
        (record { instance_id = "i-1"; device = "/dev/vdb"; serial = "s-1" } ∷ []);
  attachment = record { instance_id = "i-1"; device = "/dev/vdb"; serial = "s-1" };
  authorised = refl;
  node_found = refl;
  volume_found = refl;
  attached = refl;
  at_node = refl;
}

-- The third attempt begins after four seconds.
third_state : attempt_state cloud_clock publish 2 (server_on 0) ≡ server_on (4 * second)
unfolding attempt_state controller_publish_volume check_publish publish_to attachment_to
    check_volume_capabilities get_mode choose_auth lookup
third_state = refl

publish_volume_rpc-IsDone_example : IsDone cloud_clock publish 2 (server_on 0) (
    publish_volume_rpc attached_later any_node config cloud_clock 5 none publish_request
      (server_on 0))
unfolding wait_deadline
publish_volume_rpc-IsDone_example =
    publish_volume_rpc-IsDone attached_later any_node config cloud_clock publish_request
      cloud_clock-IsClock 2 5 none (server_on 0) (λ e. cc) (omega arith)
      (rw third_state (omega arith)) (rw third_state attached_at_four)
