-- ===== src/Cloud/Gateway.antt =====
-- pkg/cloud/ccegateway/bcesigner.go: the signer that sends requests to the cloud through the CCE
-- gateway. The node's files and environment, the clock, the random request identifiers and the
-- getters of the token are parameters over an unknown state `W`. `K` stands for the credentials and
-- the sign options, which the signer hands on to the getter of the token alone.
pub mod Token
pub mod Sign
use Prim.Native.String.{◌++◌ as ◌<>◌}
use baiducloud_cce_csi_drive.Base.{
  ℕ, String, Option, none, some, List, [], ◌∷◌, ◌==◌, Exec, if◌then◌else◌,
}
use baiducloud_cce_csi_drive.Base.Int.{ℤ, pos}
use baiducloud_cce_csi_drive.Util.Number.{parse_int, decimal}
use baiducloud_cce_csi_drive.Util.Text.{split}
use baiducloud_cce_csi_drive.Csi.{StringMap}

abbrev pub token_key : String
token_key = "token"

abbrev pub expired_at_key : String
expired_at_key = "expiredAt"

abbrev pub token_secret_name : String
token_secret_name = "cce-plugin-token"

abbrev pub token_secret_namespace : String
token_secret_namespace = "kube-system"

abbrev pub token_header_key : String
token_header_key = "cce-token"

abbrev pub cluster_id_header_key : String
cluster_id_header_key = "cce-cluster"

abbrev pub remote_host_header_key : String
remote_host_header_key = "cce-remote-host"

abbrev pub endpoint_override_env : String
endpoint_override_env = "CCE_GATEWAY_ENDPOINT"

-- What the signer asks of the node: the Unix time, an environment variable (empty where it is not
-- set), the content of a file, and a new identifier of a request. An error is its text.
pub record Node (W : Type 0) : Type 0 where
  pub now : W → ℤ
  pub getenv : String → W → String
  pub read_file : String → Exec W String String
  pub new_request_id : W → String × W

-- `bceSigner`. A secret is the entries of its `Data`, and may be nil.
pub record BceSigner (W K : Type 0) : Type 0 where
  pub region : String
  pub cluster_id : String
  pub token : String
  pub expired_at : ℤ
  pub token_volume : String
  pub secret_getter :
      Option ((namespace name : String) → Exec W String (Option (List (String × String))))
  pub token_getter : Option (K → Exec W String (String × String))

module _ {W K : Type 0} where
  unfoldable pub new_bce_signer : String → String → BceSigner W K
  new_bce_signer region cluster_id = record {
    region = region;
    cluster_id = cluster_id;
    token = "";
    expired_at = pos 0;
    token_volume = "";
    secret_getter = none;
    token_getter = none;
  }

  unfoldable pub set_volume_source : String → BceSigner W K → BceSigner W K
  set_volume_source volume sg = record sg { token_volume = volume }

  unfoldable pub set_secret_source :
      (String → String → Exec W String (Option (List (String × String))))
      → BceSigner W K
      → BceSigner W K
  set_secret_source getter sg = record sg { secret_getter = some getter }

  unfoldable pub set_token_source :
      (K → Exec W String (String × String)) → BceSigner W K → BceSigner W K
  set_token_source getter sg = record sg { token_getter = some getter }

-- The port of an override: 80 where it is none or no number.
abbrev port_of : List String → ℤ
port_of (port ∷ []) = elim (parse_int port) [ some n ↦ n | none ↦ pos 80 ]
port_of _ = pos 80

abbrev override : List String → String × ℤ
override [] = ("", pos 80)
override (host ∷ rest) = (host, port_of rest)

-- `GetHostAndPort`, by the region and the value of `CCE_GATEWAY_ENDPOINT`.
unfoldable pub get_host_and_port : (region env : String) → String × ℤ
get_host_and_port region env =
    if env == ""
    then (
      if region == ""
          then "cce-gateway.bj.baidubce.com"
          else "cce-gateway." <> region <> ".baidubce.com",
      pos 80,
    )
    else override (split b':' env)

-- `fmt.Sprintf("%s:%d", gatewayHost, gatewayPort)`
unfoldable pub req_host : (region env : String) → String
req_host region env = let hp = get_host_and_port region env in hp.0 <> ":" <> decimal hp.1
