-- ===== src/Tests/Clouds.antt =====
-- Small clouds that the tests run the controller over.
use baiducloud_cce_csi_drive.Base.{
  String, Bool, true, some, List, [], ◌∷◌, refl, arith, ok, err, if◌then◌else◌, contains,
}
use baiducloud_cce_csi_drive.Base.Int.{ℤ, pos}
use baiducloud_cce_csi_drive.Cloud.Error.{service}
use baiducloud_cce_csi_drive.Cloud.Auth.{Auth, access_key_pair, choose_auth}
use baiducloud_cce_csi_drive.Cloud.Volume.{Volume, VolumeStatus, Attachment}
use baiducloud_cce_csi_drive.Cloud.Service.{VolumeService, NodeService}
use baiducloud_cce_csi_drive.Cloud.Calls.{Call}
use baiducloud_cce_csi_drive.Csi.{VolumeCapability, mount, StringMap}
use baiducloud_cce_csi_drive.Controller.Server.{Server, Config}
use baiducloud_cce_csi_drive.Controller.Create.Guarded.{IsEventual}

abbrev pub key_auth : Auth
key_auth = access_key_pair "ak" "sk" ""

abbrev pub secrets : StringMap
secrets = some (("ak", "ak") ∷ ("sk", "sk") ∷ [])

abbrev pub config : Config
config = record {
  cluster_id = "c-1";
  get_auth = choose_auth "key" "bj" "c-1";
  enable_online_expansion = true;
  label_zone_failure_domain = "zone";
  label_failure_domain_beta_zone = "beta-zone";
}

abbrev pub writer : VolumeCapability
writer = record { access_mode = some 1; access_type = mount "" [] }

abbrev pub volume : String → ℤ → VolumeStatus → List Attachment → Volume
volume id size status attachments = record {
  model = record {
    id = id;
    name = id;
    zone_name = "cn-bj-a";
    disk_size_in_gb = size;
    status = status;
    storage_type = "hp1";
    attachments = attachments;
  };
  client = key_auth;
}

abbrev pub server_on : {W : Type 0} → W → Server W
server_on w = record {
  cloud = w;
  creating_volume_cache = [];
  in_process_requests = record { kv = [] };
}

-- A cloud that shows a volume only later: the names created, and those that are shown.
pub record Late : Type 0 where
  pub created : List String
  pub shown : List String

abbrev pub visible : Late → String → Bool
visible w n = contains n w.shown

abbrev pub late : VolumeService Late
late = record {
  create_volume = λ args auth w. (ok args.name, record w { created = args.name ∷ w.created });
  get_volume_by_id = λ id auth w. (
    (if contains id w.shown
        then ok (volume id (pos 100) VolumeStatus.available [])
        else err (service 404)),
    w,
  );
  get_volume_by_name = λ name auth w. (
    (if contains name w.shown
        then ok (volume name (pos 100) VolumeStatus.available [])
        else err (service 404)),
    w,
  );
  delete = λ v w. (ok tt, w);
  attach = λ v n w. (ok (record { instance_id = n; device = "/dev/vdb"; serial = "s-1" }), w);
  detach = λ v n w. (ok tt, w);
  resize = λ v args w. (ok tt, w);
}

pub late-IsEventual : IsEventual late (λ w. w.created) visible
late-IsEventual = record {
  created-create = λ args auth w id h. refl;
  created-create_failed = λ args auth w e h. ground (arith, h);
  created-by_id = λ id auth w. refl;
  created-by_name = λ name auth w. refl;
  visible-create = λ args auth w n h. h;
  visible-by_id = λ id auth w n h. h;
  visible-by_name = λ name auth w n h. h;
  fetched = λ args auth w id v a b. ground (arith, a, b);
  found = λ name auth w v h. ground (arith, h);
  not_missing = λ name auth w e a b. ground (arith, a, b);
}

-- A cloud with one volume, which every call finds and no call changes.
abbrev pub one_volume : Volume → VolumeService (Unit {0})
one_volume v = record {
  create_volume = λ args auth w. (ok args.name, w);
  get_volume_by_id = λ id auth w. (ok v, w);
  get_volume_by_name = λ name auth w. (ok v, w);
  delete = λ u w. (ok tt, w);
  attach = λ u n w. (ok (record { instance_id = n; device = "/dev/vdb"; serial = "s-1" }), w);
  detach = λ u n w. (ok tt, w);
  resize = λ u args w. (ok tt, w);
}

abbrev pub any_node : {W : Type 0} → NodeService W
any_node = record { get_node_by_id = λ id auth w. (ok tt, w) }

abbrev pub quiet : Server (Unit {0} × List Call)
quiet = server_on (tt, [])
