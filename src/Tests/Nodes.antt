-- ===== src/Tests/Nodes.antt =====
-- Staging, publishing and expanding over a small node.
use baiducloud_cce_csi_drive.Base.{
  ◌*◌, String, true, false, none, some, List, [], ◌∷◌, ◌≡◌, ◌≢◌, sym, ◌∙◌, Bool-cases, inl, inr,
  eq_iff, refl, arith, ok, err, if◌then◌else◌, ◌==◌, eq_refl, contains, contains-remove, remove,
  lookup,
}
use baiducloud_cce_csi_drive.Base.Int.{pos, ltb_ℤ}
use baiducloud_cce_csi_drive.Util.Size.{gb}
use baiducloud_cce_csi_drive.Csi.{get_mode, is_block, block}
use baiducloud_cce_csi_drive.Controller.Capacity.Laws.{range}
use baiducloud_cce_csi_drive.Util.KeyMutex.{try_lock, unlock}
use baiducloud_cce_csi_drive.Util.Text.{split}
use baiducloud_cce_csi_drive.Controller.Capability.{check_volume_capabilities}
use baiducloud_cce_csi_drive.Node.Device.{device_name, key_value, find_serial, get_dev_path}
use baiducloud_cce_csi_drive.Node.Locked.{in_process-node_stage_volume}
use baiducloud_cce_csi_drive.Node.Mounter.{Mounter, NodeServer, value_of}
use baiducloud_cce_csi_drive.Node.Mounts.{View, IsMounter}
use baiducloud_cce_csi_drive.Node.Stage.{
  StageRequest, ensure_dir, mount_at, stage_device, stage_mount, node_stage_volume,
}
use baiducloud_cce_csi_drive.Node.Unstage.{
  PathRequest, unstage_path, unpublish_path, node_unstage_volume, node_unpublish_volume,
}
use baiducloud_cce_csi_drive.Node.Publish.{
  bind_mount, ensure_file, publish_device, publish_dir, NodePublishRequest,
  node_public_block_volume, node_publish_volume,
}
use baiducloud_cce_csi_drive.Node.Published.Handler.{node_publish_volume_ok}
use baiducloud_cce_csi_drive.Node.Expand.{
  NodeExpandRequest, out_of_range, expand_path, node_expand_volume,
}
use baiducloud_cce_csi_drive.Node.Staged.{IsStaged, stage_device_ok, stage_device_again}
use baiducloud_cce_csi_drive.Node.Unstaged.{node_unstage_volume_ok, node_unpublish_volume_ok}
use baiducloud_cce_csi_drive.Node.Published.{
  IsMounted, publish_dir_ok, publish_device_ok, publish_dir_again, node_expand_volume_ok,
}
use baiducloud_cce_csi_drive.Tests.Clouds.{writer}

-- The paths that exist, and the device of each mount, the empty text where it was unmounted. One
-- device has a serial.
pub record Machine : Type 0 where
  pub paths : List String
  pub mounts : List (String × String)

-- What a bind mount shows: the device of its source, or the source where that is a device itself.
abbrev pub bound_device : String → String
bound_device d = if d == "" then "/dev/vdb" else d

bound_device-named : (d : String) → bound_device d ≢ ""
bound_device-named d e = elim (Bool-cases (d == "")) [
  | inl f ↦ let g : bound_device d ≡ "/dev/vdb" = ground (arith, f) in cc (g, e)
  | inr f ↦ absurd (ground (arith, e, f, eq_iff d ""))
]

pub bound_device-kept : (d : String) → d ≢ "" → bound_device d ≡ d
bound_device-kept d n = ground (arith, n, eq_iff d "")

abbrev pub machine : Mounter Machine
machine = record {
  fs = record {
    path_exists = λ p s. (ok (contains p s.paths), s);
    mkdir_all = λ p s. (ok tt, record s { paths = p ∷ s.paths });
    make_file = λ p s. (ok tt, record s { paths = p ∷ s.paths });
    write_file = λ p content s. (ok tt, record s { paths = p ∷ s.paths });
    remove_path = λ p s. (ok tt, record s { paths = remove p s.paths });
    remove_all = λ p s. (ok tt, record s { paths = remove p s.paths });
  };
  get_dev_path = λ serial s. ((if serial == "s-1" then ok "/dev/vdb" else err "no device"), s);
  get_device_size = λ dev s. (ok (pos (200 * gb)), s);
  resize_fs = λ dev p s. (ok tt, s);
  get_device_name_from_mount =
      λ p s. let d = value_of p s.mounts in (ok (d, if d == "" then pos 0 else pos 1), s);
  format_and_mount =
      λ source p type options s. (ok tt, record s { mounts = (p, source) ∷ s.mounts });
  mount = λ source p type options s.
      (ok tt, record s { mounts = (p, bound_device (value_of source s.mounts)) ∷ s.mounts });
  unmount = λ p s. (ok tt, record s { mounts = (p, "") ∷ s.mounts });
}

abbrev pub view : View Machine
view = record {
  exists = λ s p. contains p s.paths;
  device = λ s p. value_of p s.mounts;
  by_serial = λ s serial. if serial == "s-1" then some "/dev/vdb" else none;
}

pub value_of-first : (p d : String) (ms : List (String × String)) → value_of p ((p, d) ∷ ms) ≡ d
unfolding lookup
value_of-first p d ms = ground (arith, eq_refl p)

pub machine-IsMounter : IsMounter machine view
unfolding contains lookup
machine-IsMounter = record {
  path_exists_state = λ p s. refl;
  path_exists_ok = λ p s b h. ground (arith, h);
  dev_path_state = λ serial s. refl;
  dev_path_ok = λ serial s d h. ground (arith, h);
  device_name_state = λ p s. refl;
  device_name_ok = λ p s d refs h. ground (arith, h);
  mkdir_exists = λ p s h. ground (arith, eq_refl p);
  mkdir_device = λ p q s. refl;
  mkdir_serial = λ p serial s. refl;
  make_file_exists = λ p s h. ground (arith, eq_refl p);
  format_device = λ source p type options s h. ground (arith, eq_refl p);
  format_exists = λ source p q type options s. refl;
  format_serial = λ source p type serial options s. refl;
  mount_device = λ source p type options s h e.
      bound_device-named (value_of source s.mounts)
        (sym (value_of-first p (bound_device (value_of source s.mounts)) s.mounts) ∙ e);
  mount_exists = λ source p q type options s. refl;
  unmount_device = λ p s h. ground (arith, eq_refl p);
  remove_exists = λ p s h. ground (arith, contains-remove p p s.paths, eq_refl p);
  remove_device = λ p q s. refl;
}

abbrev pub empty : Machine
empty = record { paths = []; mounts = [] }

-- The node with the device mounted at a path.
abbrev mounted : String → Machine
mounted p = record { paths = p ∷ []; mounts = (p, "/dev/vdb") ∷ [] }

mounted_once : IsStaged machine view machine-IsMounter "s-1" "/stage" (mounted "/stage")
unfolding stage_device ensure_dir mount_at contains lookup
mounted_once = stage_device_ok machine view machine-IsMounter "s-1" "/stage" "ext4" [] empty refl

mounted_twice :
    (stage_device machine "s-1" "/stage" "ext4" [] (mounted "/stage")).1 ≡ mounted "/stage"
unfolding contains lookup
mounted_twice =
    stage_device_again machine view machine-IsMounter "s-1" "/stage" "ext4" [] (mounted "/stage")
      (record { at_target = refl; target_exists = refl })

abbrev at_path : String → PathRequest
at_path p = record { volume_id = "v-1"; target_path = p }

node_unstage_volume_ok_example :
    (view.exists (node_unstage_volume machine (at_path "/stage") (mounted "/stage")).1 "/stage"
      ≡ false)
    × (view.exists (mounted "/stage") "/stage" ≡ true
        → view.device (node_unstage_volume machine (at_path "/stage") (mounted "/stage")).1 "/stage"
          ≡ "")
unfolding node_unstage_volume unstage_path contains lookup remove
node_unstage_volume_ok_example =
    node_unstage_volume_ok machine view machine-IsMounter (at_path "/stage") (mounted "/stage") refl

unpublished :
    (view.exists (node_unpublish_volume machine (at_path "/pod") (mounted "/pod")).1 "/pod" ≡ false)
    × (view.exists (mounted "/pod") "/pod" ≡ true
        → view.device (node_unpublish_volume machine (at_path "/pod") (mounted "/pod")).1 "/pod"
          ≡ "")
unfolding node_unpublish_volume unpublish_path contains lookup remove
unpublished =
    node_unpublish_volume_ok machine view machine-IsMounter (at_path "/pod") (mounted "/pod") refl

published_dir :
    IsMounted machine view machine-IsMounter "/pod"
      (publish_dir machine "/stage" "/pod" true [] empty).1
unfolding publish_dir ensure_dir bind_mount contains lookup
published_dir = publish_dir_ok machine view machine-IsMounter "/stage" "/pod" true [] empty refl

published_device :
    IsMounted machine view machine-IsMounter "/pod/dev"
      (publish_device machine "s-1" "/pod/dev" false empty).1
unfolding publish_device ensure_file bind_mount contains lookup
published_device =
    publish_device_ok machine view machine-IsMounter "s-1" "/pod/dev" false empty refl

published_again : (publish_dir machine "/stage" "/pod" true [] (mounted "/pod")).1 ≡ mounted "/pod"
unfolding contains lookup
published_again =
    publish_dir_again machine view machine-IsMounter "/stage" "/pod" true [] (mounted "/pod")
      (record { covered = λ e. cc; target_exists = refl })

abbrev publish_request : NodePublishRequest
publish_request = record {
  volume_id = "v-1";
  staging_target_path = "";
  target_path = "/pod/dev";
  volume_capability = some (record { access_mode = some 1; access_type = block });
  publish_context = some (("serial", "s-1") ∷ []);
  readonly = false;
}

node_publish_volume_ok_example :
    IsMounted machine view machine-IsMounter "/pod/dev"
      (node_publish_volume machine publish_request empty).1
unfolding node_publish_volume node_public_block_volume publish_device ensure_file bind_mount
    contains lookup check_volume_capabilities get_mode
node_publish_volume_ok_example =
    node_publish_volume_ok machine view machine-IsMounter publish_request empty refl

abbrev resized : NodeExpandRequest
resized = record {
  volume_id = "v-1";
  volume_path = "/pod";
  volume_capability = some writer;
  capacity_range = some (range (150 * gb) (250 * gb));
}

node_expand_volume_ok_example :
    (ltb_ℤ (pos (200 * gb)) (pos (150 * gb)) ≡ false)
    × (ltb_ℤ (pos 0) (pos (250 * gb)) ≡ true → ltb_ℤ (pos (250 * gb)) (pos (200 * gb)) ≡ false)
unfolding node_expand_volume expand_path out_of_range is_block
node_expand_volume_ok_example =
    node_expand_volume_ok machine resized (mounted "/pod") (pos (200 * gb))
      (range (150 * gb) (250 * gb)) refl refl refl

abbrev staging : NodeServer Machine
staging = record { node = empty; in_process_requests = record { kv = "other" ∷ [] } }

abbrev stage_request : StageRequest
stage_request = record {
  volume_id = "v-1";
  staging_target_path = "/stage";
  volume_capability = some writer;
  publish_context = some (("serial", "s-1") ∷ []);
}

unlocked_after_staging :
    (node_stage_volume machine "k" stage_request staging).1.in_process_requests
    ≡ record { kv = "other" ∷ [] }
unlocked_after_staging = in_process-node_stage_volume machine "k" stage_request staging

-- The handler as a whole: the device is mounted, and the lock is given back.
staged : node_stage_volume machine "k" stage_request staging ≡ (
  ok tt,
  record { node = mounted "/stage"; in_process_requests = record { kv = "other" ∷ [] } },
)
unfolding node_stage_volume stage_mount stage_device ensure_dir mount_at try_lock unlock contains
    remove lookup check_volume_capabilities get_mode
staged = refl

-- The second disk has the serial; the line without a serial is passed over.
second_disk :
    get_dev_path {F = Unit {0}}
      (λ s. (ok "/sys/block/vda/serial:v-s4Qub5lC\nx\n/sys/block/vdb/serial:v-3cBlhQtq\n", s))
      "v-3cBlhQtq"
      tt
    ≡ (ok "/dev/vdb", tt)
unfolding get_dev_path find_serial device_name key_value split
second_disk = refl
