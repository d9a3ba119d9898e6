-- ===== src/Cloud/Auth.antt =====
-- pkg/cloud/auth.go and pkg/driver/common/auth.go: how requests to the cloud are authorised.
-- The signers stand in Clients.
use baiducloud_cce_csi_drive.Base.{
  String, Option, none, some, List, Result, ok, err, ◌==◌, lookup, if◌then◌else◌,
}

pub data Auth : Type 0 where
  access_key_pair : (ak sk token : String) → Auth
  cce_gateway : (region cluster_id : String) → Auth

pub data AuthError : Type 0 where
  secret_not_set empty_ak empty_sk empty_cluster_id : AuthError

abbrev pub auth_mode_access_key : String
auth_mode_access_key = "key"

abbrev pub auth_mode_cce_gateway : String
auth_mode_cce_gateway = "gateway"

unfoldable pub new_access_key_pair_auth : String → String → String → Result AuthError Auth
new_access_key_pair_auth ak sk token =
    if ak == ""
    then err empty_ak
    else if sk == ""
    then err empty_sk
    else ok (access_key_pair ak sk token)

unfoldable pub new_cce_gateway_auth : String → String → Result AuthError Auth
new_cce_gateway_auth region cluster_id =
    if cluster_id == "" then err empty_cluster_id else ok (cce_gateway region cluster_id)

pub record Credentials : Type 0 where
  pub access_key_id : String
  pub secret_access_key : String
  pub session_token : String

unfoldable pub get_credentials : Auth → Credentials
get_credentials (access_key_pair ak sk token) = record {
  access_key_id = ak;
  secret_access_key = sk;
  session_token = token;
}
get_credentials (cce_gateway region cluster_id) = record {
  access_key_id = "cce-gateway-ak";
  secret_access_key = "cce-gateway-sk";
  session_token = "";
}

-- A read of a Go map: the empty text where the key is missing.
abbrev text_or_empty : Option String → String
text_or_empty none = ""
text_or_empty (some s) = s

unfoldable pub get_auth_mode_access_key : Option (List (String × String)) → Result AuthError Auth
unfolding new_access_key_pair_auth
get_auth_mode_access_key none = err secret_not_set
get_auth_mode_access_key (some secret) =
    new_access_key_pair_auth (text_or_empty (lookup "ak" secret))
      (text_or_empty (lookup "sk" secret)) ""

-- The `getAuth` that `newControllerServer` chooses by the mode.
unfoldable pub choose_auth :
    String → String → String → Option (List (String × String)) → Result AuthError Auth
unfolding get_auth_mode_access_key new_cce_gateway_auth
choose_auth mode region cluster_id secrets =
    if mode == auth_mode_access_key
    then get_auth_mode_access_key secrets
    else if mode == auth_mode_cce_gateway
    then new_cce_gateway_auth region cluster_id
    else get_auth_mode_access_key secrets
