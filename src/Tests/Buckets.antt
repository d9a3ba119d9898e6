-- ===== src/Tests/Buckets.antt =====
-- Publishing and unpublishing buckets over small engines and file systems.
use baiducloud_cce_csi_drive.Base.{
  ℕ, String, true, false, none, some, List, [], ◌∷◌, ◌≡◌, ◌≢◌, refl, arith, ok, err, Exec,
  if◌then◌else◌, ltb, contains, contains-remove, remove, eq_refl, lookup, ◌==◌,
}
use baiducloud_cce_csi_drive.Base.Int.{pos}
use baiducloud_cce_csi_drive.Util.Text.{split, split_first, strip_prefix}
use baiducloud_cce_csi_drive.Util.FilePath.{dir, join}
use baiducloud_cce_csi_drive.Cloud.Auth.{Auth, get_auth_mode_access_key}
use baiducloud_cce_csi_drive.Cloud.Sdk.{SdkError, service_error}
use baiducloud_cce_csi_drive.Csi.{get_mode}
use baiducloud_cce_csi_drive.Controller.Capability.{check_volume_capabilities}
use baiducloud_cce_csi_drive.Bos.Engine.{
  Engine, Container, ContainerStatus, no_such, failed, unfinished, message,
  get_credentials_file_path,
}
use baiducloud_cce_csi_drive.Bos.Image.{
  no_message, wait_for_image_pull_finish, wait_for_image_pull_finish_error,
}
use baiducloud_cce_csi_drive.Bos.Container.{
  find_container, await, await_ready, wait_loop, wait_for_ready, mount_by_bosfs, remove_container,
  unmount_from_bosfs,
}
use baiducloud_cce_csi_drive.Bos.Container.Ready.{OfTarget, IsUp, mount_by_bosfs_ok}
use baiducloud_cce_csi_drive.Bos.Container.Ends.{IsTimed, mount_by_bosfs_ends}
use baiducloud_cce_csi_drive.Bos.Source.{bucket_name, sets_endpoint, mount_options}
use baiducloud_cce_csi_drive.Bos.Source.Endpoint.{mount_options_endpoint}
use baiducloud_cce_csi_drive.Bos.Publish.{
  BosMounter, BosPublishRequest, bucket_found, bucket_exists, check_request, check_bucket,
  prepare_paths, bos_publish_volume,
}
use baiducloud_cce_csi_drive.Bos.Publish.Checked.{bos_publish_volume_ok}
use baiducloud_cce_csi_drive.Bos.Unpublish.{
  exists_or_not_connected, is_err_transport_endpoint_is_not_connected, target_exists, remove_target,
  remove_credentials, bos_unpublish_volume,
}
use baiducloud_cce_csi_drive.Bos.Unpublish.Gone.{IsFileSystem, bos_unpublish_volume_ok}
use baiducloud_cce_csi_drive.Util.Os.{OsError}
use baiducloud_cce_csi_drive.Node.Files.{OsFiles, IsOsFiles}
use baiducloud_cce_csi_drive.Bos.Installed.{new_bosfs_mounter, bos_unpublish_installed}
use baiducloud_cce_csi_drive.Tests.Clouds.{secrets, writer}

abbrev hash : String → String
hash s = "0123"

-- An engine with one running container, which is healthy from 1.5 s on. The state is the time.
abbrev slow_engine : Engine ℕ
slow_engine = record {
  inspect = λ name s. (
    ok (record {
      id = "c-1";
      status = ContainerStatus.running;
      health = if ltb s 1500000000 then "starting" else "healthy";
    }),
    s,
  );
  pull = λ image s. (ok [], s);
  create = λ config s. (ok "c-1", s);
  start = λ id s. (ok tt, s);
  stop = λ id s. (ok tt, s);
  remove = λ force id s. (ok tt, s);
  now = λ s. s;
  inspect_until = λ deadline name s. (
    if ltb deadline s
        then err failed
        else ok (record {
          id = "c-1";
          status = ContainerStatus.running;
          health = if ltb s 1500000000 then "starting" else "healthy";
        }),
    s,
  );
  select = λ deadline next_tick s. (true, if ltb s next_tick then next_tick else s);
  mount_refs = λ path s. (ok (pos 1), s);
  unmount = λ path s. (ok tt, s);
}

slow_engine-IsTimed : IsTimed slow_engine
slow_engine-IsTimed = record {
  ticks = λ deadline next_tick s h. ground arith;
  ended = λ deadline id s c l h. ground (arith, l, h);
}

mount_by_bosfs_ends_example :
    (mount_by_bosfs slow_engine hash "bosfs" 31 "bucket" "/pod" [] [] 0).0 ≢ err unfinished
mount_by_bosfs_ends_example =
    mount_by_bosfs_ends slow_engine hash "bosfs" slow_engine-IsTimed "bucket" "/pod" [] [] 0

mount_by_bosfs_ok_example :
    (c : Container) × OfTarget slow_engine hash "bosfs" "/pod" c × IsUp slow_engine hash "bosfs" c
unfolding mount_by_bosfs find_container await await_ready wait_for_ready wait_loop
mount_by_bosfs_ok_example =
    mount_by_bosfs_ok slow_engine hash "bosfs" 31 "bucket" "/pod" [] [] 0 refl

denied_pull :
    wait_for_image_pull_finish no_message
      (message none none ∷ message (some "denied") none ∷ message none none ∷ [])
    ≢ ok tt
denied_pull =
    wait_for_image_pull_finish_error no_message "denied" none (message none none ∷ [])
      (message none none ∷ []) (λ e. cc) tt

own_endpoint :
    (sets_endpoint (mount_options "bj.bcebos.com" "/c/sts" true ("-o endpoint=gz.bcebos.com" ∷ []))
      ≡ true)
    × ((other : String)
        → sets_endpoint ("-o endpoint=gz.bcebos.com" ∷ []) ≡ true
        → mount_options "bj.bcebos.com" "/c/sts" true ("-o endpoint=gz.bcebos.com" ∷ [])
          ≡ mount_options other "/c/sts" true ("-o endpoint=gz.bcebos.com" ∷ []))
own_endpoint =
    mount_options_endpoint "bj.bcebos.com" "/c/sts" true ("-o endpoint=gz.bcebos.com" ∷ [])

-- A file system as the list of its paths; looking at the path `/lost` fails, as it is not connected.
abbrev lister : BosMounter (List String)
lister = record {
  fs = record {
    path_exists = λ p s. (
      if p == "/lost"
          then err "stat /lost: transport endpoint is not connected"
          else ok (contains p s),
      s,
    );
    mkdir_all = λ p s. (ok tt, p ∷ s);
    make_file = λ p s. (ok tt, p ∷ s);
    write_file = λ p content s. (ok tt, p ∷ s);
    remove_path = λ p s. (ok tt, remove p s);
    remove_all = λ p s. (ok tt, remove p s);
  };
  mount_by_bosfs = λ source target options sensitive_options s. (ok tt, s);
  unmount_from_bosfs = λ target s. (ok tt, s);
}

lister-IsFileSystem : IsFileSystem lister.fs (λ s p. contains p s)
lister-IsFileSystem = record {
  look_state = λ p s. refl;
  look_ok = λ p s b h. ground (arith, h);
  remove_gone = λ p s h. ground (arith, contains-remove p p s, eq_refl p);
  remove_all_gone = λ p s h. ground (arith, contains-remove p p s, eq_refl p);
  remove_all_keeps = λ p q s h. ground (arith, contains-remove p q s, h);
}

unpublished_lost :
    (contains
        (dir (get_credentials_file_path hash "/lost"))
        (bos_unpublish_volume lister hash "/lost" ("/lost" ∷ "/etc/bosfs/credentials/0123" ∷ [])).1
      ≡ false)
    × (contains "/lost"
          (bos_unpublish_volume lister hash "/lost"
            ("/lost" ∷ "/etc/bosfs/credentials/0123" ∷ [])).1
        ≡ false)
unfolding bos_unpublish_volume target_exists exists_or_not_connected
    is_err_transport_endpoint_is_not_connected remove_target remove_credentials dir
    get_credentials_file_path join contains remove split_first strip_prefix
unpublished_lost =
    bos_unpublish_volume_ok lister hash (λ s p. contains p s) lister-IsFileSystem "/lost"
      ("/lost" ∷ "/etc/bosfs/credentials/0123" ∷ []) refl

abbrev bucket_request : BosPublishRequest
bucket_request = record {
  volume_id = "bucket/prefix";
  target_path = "/pod";
  volume_capability = some writer;
  readonly = false;
  secrets = secrets;
}

abbrev one_bucket : Auth → String → Exec (List String) SdkError (Unit {0})
one_bucket auth name s = ((if name == "bucket" then ok tt else err (service_error 404)), s)

bos_publish_volume_ok_example :
    (auth : Auth) × (get_auth_mode_access_key secrets ≡ ok auth)
    × (bucket_name "bucket/prefix" ≢ "")
    × ((one_bucket auth (bucket_name "bucket/prefix") []).0 ≡ ok tt)
unfolding bos_publish_volume check_request check_bucket bucket_exists bucket_found prepare_paths
    bucket_name split get_auth_mode_access_key lookup check_volume_capabilities get_mode contains
bos_publish_volume_ok_example =
    bos_publish_volume_ok lister one_bucket hash "bj.bcebos.com" bucket_request [] refl

-- The operating system of the same file system.
abbrev lister_os : OsFiles (List String) (Unit {0})
lister_os = record {
  path_exists = lister.fs.path_exists;
  mkdir_all = λ p s. (ok tt, p ∷ s);
  open_create = λ p s. (ok tt, p ∷ s);
  close = λ file s. (ok tt, s);
  write_file = λ p content s. (ok tt, p ∷ s);
  remove = λ p s. (ok tt, remove p s);
  remove_all = λ p s. (ok tt, remove p s);
}

abbrev describe : OsError → String
describe e = "failed"

lister_os-IsOsFiles : IsOsFiles lister_os describe (λ s p. contains p s)
unfolding contains
lister_os-IsOsFiles = record {
  look_state = λ p s. refl;
  look_ok = λ p s b h. ground (arith, h);
  remove_gone = λ p s h. ground (arith, contains-remove p p s, eq_refl p);
  remove_all_gone = λ p s h. ground (arith, contains-remove p p s, eq_refl p);
  remove_all_keeps = λ p q s h. ground (arith, contains-remove p q s, h);
  mkdir_made = λ p s h. ground (arith, eq_refl p);
  mkdir_there = λ p s h. ground (arith, eq_refl p);
}

-- An engine without containers, on the file system.
abbrev no_containers : Engine (List String)
no_containers = record {
  inspect = λ name s. (err no_such, s);
  pull = λ image s. (ok [], s);
  create = λ config s. (ok "c-1", s);
  start = λ id s. (ok tt, s);
  stop = λ id s. (ok tt, s);
  remove = λ force id s. (ok tt, s);
  now = λ s. 0;
  inspect_until = λ deadline name s. (err no_such, s);
  select = λ deadline next_tick s. (false, s);
  mount_refs = λ path s. (ok (pos 0), s);
  unmount = λ path s. (ok tt, s);
}

abbrev installed : BosMounter (List String)
installed = new_bosfs_mounter lister_os describe no_containers hash "bosfs" 30

bos_unpublish_installed_example :
    (contains
        (dir (get_credentials_file_path hash "/lost"))
        (bos_unpublish_volume installed hash "/lost"
          ("/lost" ∷ "/etc/bosfs/credentials/0123" ∷ [])).1
      ≡ false)
    × (contains "/lost"
          (bos_unpublish_volume installed hash "/lost"
            ("/lost" ∷ "/etc/bosfs/credentials/0123" ∷ [])).1
        ≡ false)
unfolding bos_unpublish_volume target_exists exists_or_not_connected
    is_err_transport_endpoint_is_not_connected remove_target remove_credentials dir
    get_credentials_file_path join contains remove split_first strip_prefix unmount_from_bosfs
    remove_container
bos_unpublish_installed_example =
    bos_unpublish_installed lister_os describe no_containers hash "bosfs" 30 (λ s p. contains p s)
      lister_os-IsOsFiles "/lost" ("/lost" ∷ "/etc/bosfs/credentials/0123" ∷ []) refl
