-- ===== src/Cloud/Clients.antt =====
-- The SDK's clients that the services make for an authorisation: `generateBCCCDSClient` of
-- pkg/cloud/cds.go and the `client` of `NewBOSService` of pkg/cloud/bos.go, with `GetSigner` and
-- `GetSignOptions` of pkg/cloud/auth.go. The SDK's defaults and its `NewClient` are parameters.
pub mod Signing
use baiducloud_cce_csi_drive.Base.{ℕ, String, Option, none, some, ◌==◌, if◌then◌else◌}
use baiducloud_cce_csi_drive.Cloud.Auth.{
  Auth, access_key_pair, cce_gateway, Credentials, get_credentials,
}
use baiducloud_cce_csi_drive.Cloud.Gateway.{BceSigner, new_bce_signer, set_volume_source}

abbrev pub cce_gateway_token_volume : String
cce_gateway_token_volume = "/var/run/secrets/cce/cce-plugin-token"

-- What `GetSigner` gives: a `BceV1Signer` of the SDK, which has no state, or the one signer of the
-- authorisation for the gateway. Its state, with the token, is shared by all clients that are made
-- for the authorisation, and stands beside them.
pub data Signer : Type 0 where
  bce_v1_signer shared_signer : Signer

unfoldable pub get_signer : Auth → Signer
get_signer (access_key_pair ak sk token) = bce_v1_signer
get_signer (cce_gateway region cluster_id) = shared_signer

-- The signer that `NewCCEGatewayAuth` makes.
unfoldable pub new_gateway_signer : {W K : Type 0} → (region cluster_id : String) → BceSigner W K
new_gateway_signer region cluster_id =
    set_volume_source cce_gateway_token_volume (new_bce_signer region cluster_id)

pub record SignOptions (H : Type 0) : Type 0 where
  pub headers_to_sign : H
  pub expire_seconds : ℕ

-- The constants `DEFAULT_…` of the SDK, with its types of headers and of retry policies.
pub record SdkDefaults (H P : Type 0) : Type 0 where
  pub headers_to_sign : H
  pub expire_seconds : ℕ
  pub user_agent : String
  pub retry_policy : P
  pub connection_timeout : ℕ

pub record ClientConfiguration (H P : Type 0) : Type 0 where
  pub endpoint : String
  pub region : String
  pub user_agent : String
  pub credentials : Credentials
  pub sign_option : SignOptions H
  pub retry : P
  pub connection_timeout : ℕ

-- The client of the cloud's disks and nodes.
pub record BccClient (H P : Type 0) : Type 0 where
  pub config : ClientConfiguration H P
  pub signer : Signer

module _ {H P : Type 0} (sdk : SdkDefaults H P) where
  -- `GetSignOptions`, the same of both kinds of authorisation.
  unfoldable pub get_sign_options : Auth → SignOptions H
  get_sign_options auth = record {
    headers_to_sign = sdk.headers_to_sign;
    expire_seconds = sdk.expire_seconds;
  }

  unfoldable pub generate_bcc_cds_client : (endpoint region : String) → Auth → BccClient H P
  generate_bcc_cds_client endpoint region auth = record {
    config = record {
      endpoint = endpoint;
      region = region;
      user_agent = sdk.user_agent;
      credentials = get_credentials auth;
      sign_option = get_sign_options auth;
      retry = sdk.retry_policy;
      connection_timeout = sdk.connection_timeout;
    };
    signer = get_signer auth;
  }

-- The client of buckets, told by what the driver sets of it.
pub record BosClient : Type 0 where
  pub endpoint : String
  pub credentials : Credentials

-- `bos.NewClient`: `none` where it gives an error, and with it no client.
abbrev pub NewBosClient : Type 0
NewBosClient = (ak sk endpoint : String) → Option BosClient

-- The `client` of `NewBOSService`, which drops the error of `bos.NewClient`; `none` is a nil pointer.
unfoldable pub bos_client : NewBosClient → (endpoint : String) → Auth → Option BosClient
bos_client new_client endpoint auth =
    let cred = get_credentials auth in
    elim (new_client cred.access_key_id cred.secret_access_key endpoint) [
      | none ↦ none
      | some c ↦ some (if cred.session_token == "" then c else record c { credentials = cred })
    ]
