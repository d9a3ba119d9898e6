-- ===== src/Command/Flags.antt =====
-- cmd/options.go: the flags and the options that are parsed from them.
pub mod Accepted
pub mod Buckets
use Prim.Native.String.{◌++◌ as ◌<>◌}
use baiducloud_cce_csi_drive.Base.{
  String, Bool, false, ◌||◌, Option, none, some, ◌==◌, Result, ok, err, and_then, if◌then◌else◌,
}
use baiducloud_cce_csi_drive.Base.Int.{ℤ, pos}
use baiducloud_cce_csi_drive.Cloud.Auth.{auth_mode_access_key, auth_mode_cce_gateway}
use baiducloud_cce_csi_drive.Driver.Options.{
  driver_mode_controller, driver_mode_node, driver_mode_all,
}

abbrev pub driver_type_cds : String
driver_type_cds = "cds"

abbrev pub driver_type_bos : String
driver_type_bos = "bos"

abbrev pub default_bosfs_image : String
default_bosfs_image = "registry.baidubce.com/cce-plugin-pro/bosfs:1.0.0.10"

-- The variables that `flag.Parse` fills; reading the command line is Go's.
pub record Flags : Type 0 where
  pub driver_type : String
  pub csi_endpoint : String
  pub mode : String
  pub region : String
  pub cluster_id : String
  pub auth_mode : String
  pub max_volumes_per_node : ℤ
  pub bcc_endpoint : String
  pub cds_endpoint : String
  pub bos_endpoint : String
  pub bosfs_image : String
  pub topology_mode : String
  pub override_driver_name : String
  pub override_driver_version : String
  pub show_version : Bool
  pub enable_online_expansion : Bool

-- `init`: the flags of an empty command line.
abbrev pub default_flags : Flags
default_flags = record {
  driver_type = "";
  csi_endpoint = "";
  mode = "all";
  region = "";
  cluster_id = "";
  auth_mode = "key";
  max_volumes_per_node = pos 0;
  bcc_endpoint = "";
  cds_endpoint = "";
  bos_endpoint = "";
  bosfs_image = default_bosfs_image;
  topology_mode = "auto";
  override_driver_name = "";
  override_driver_version = "";
  show_version = false;
  enable_online_expansion = false;
}

-- `Options`
pub record Options : Type 0 where
  pub override_driver_name : String
  pub driver_type : String
  pub csi_endpoint : String
  pub mode : String
  pub region : String
  pub cluster_id : String
  pub auth_mode : String
  pub topology_mode : String
  pub node_id : String
  pub zone : String
  pub max_volumes_per_node : ℤ
  pub bcc_endpoint : String
  pub cds_endpoint : String
  pub bos_endpoint : String
  pub bosfs_image : String
  pub enable_online_expansion : Bool

pub data FlagError : Type 0 where
  unsupported_driver_mode : FlagError
  invalid_driver_mode : (mode : String) → FlagError
  unsupported_auth_mode : FlagError
  invalid_auth_mode : (mode : String) → FlagError
  no_region_or_endpoint : FlagError

-- An endpoint of the flags, or the one of the region where it is empty.
unfoldable pub endpoint_or : (flag region from_region : String) → Result FlagError String
endpoint_or flag region from_region =
    if flag == ""
    then (if region == "" then err no_region_or_endpoint else ok from_region)
    else ok flag

unfoldable pub bos_driver_mode : String → Result FlagError String
bos_driver_mode mode =
    if mode == driver_mode_controller
    then err unsupported_driver_mode
    else if mode == driver_mode_node || mode == driver_mode_all
    then ok mode
    else err (invalid_driver_mode mode)

unfoldable pub bos_auth_mode : String → Result FlagError String
bos_auth_mode mode =
    if mode == auth_mode_access_key
    then ok mode
    else if mode == auth_mode_cce_gateway
    then err unsupported_auth_mode
    else err (invalid_auth_mode mode)

unfoldable pub parse_bos_driver_flags : Flags → Options → Result FlagError Options
parse_bos_driver_flags flags o = and_then (bos_driver_mode flags.mode) (λ mode.
    and_then (bos_auth_mode flags.auth_mode) (λ auth.
      and_then (endpoint_or flags.bos_endpoint o.region (o.region <> ".bcebos.com")) (λ bos.
        ok (record o {
          mode = mode;
          auth_mode = auth;
          bos_endpoint = bos;
          bosfs_image = flags.bosfs_image;
        }))))

unfoldable pub cds_driver_mode : String → Result FlagError String
cds_driver_mode mode =
    if mode == driver_mode_controller || mode == driver_mode_node || mode == driver_mode_all
    then ok mode
    else err (invalid_driver_mode mode)

unfoldable pub cds_auth_mode : String → Result FlagError String
cds_auth_mode mode =
    if mode == auth_mode_access_key || mode == auth_mode_cce_gateway
    then ok mode
    else err (invalid_auth_mode mode)

unfoldable pub parse_cds_driver_flags : Flags → Options → Result FlagError Options
parse_cds_driver_flags flags o = and_then (cds_driver_mode flags.mode) (λ mode.
    and_then (cds_auth_mode flags.auth_mode) (λ auth.
      and_then (endpoint_or flags.bcc_endpoint o.region ("bcc." <> o.region <> ".baidubce.com"))
        (λ bcc.
          and_then (endpoint_or flags.cds_endpoint o.region ("bcc." <> o.region <> ".baidubce.com"))
            (λ cds. ok (record o {
              mode = mode;
              auth_mode = auth;
              bcc_endpoint = bcc;
              cds_endpoint = cds;
            })))))

-- The options that both drivers take from the flags as they are.
unfoldable pub common_options : Flags → Options
common_options flags = record {
  override_driver_name = flags.override_driver_name;
  driver_type = "";
  csi_endpoint = flags.csi_endpoint;
  mode = "";
  region = flags.region;
  cluster_id = flags.cluster_id;
  auth_mode = "";
  topology_mode = flags.topology_mode;
  node_id = "";
  zone = "";
  max_volumes_per_node = flags.max_volumes_per_node;
  bcc_endpoint = "";
  cds_endpoint = "";
  bos_endpoint = "";
  bosfs_image = "";
  enable_online_expansion = flags.enable_online_expansion;
}

-- `ParseFlags` from `var options Options` on.
unfoldable pub parse_options : Flags → Result FlagError Options
parse_options flags =
    let o = common_options flags in
    if flags.driver_type == driver_type_cds
    then parse_cds_driver_flags flags (record o { driver_type = driver_type_cds })
    else if flags.driver_type == driver_type_bos
    then parse_bos_driver_flags flags (record o { driver_type = driver_type_bos })
    else ok o

-- `ParseFlags`, with the variable `DriverVersion`, which a flag overrides; `none` where the version
-- is shown and the program exits.
unfoldable pub parse_flags : Flags → String → Option (Result FlagError Options × String)
parse_flags flags driver_version =
    if flags.show_version
    then none
    else some (
      parse_options flags,
      if flags.override_driver_version == "" then driver_version else flags.override_driver_version,
    )
