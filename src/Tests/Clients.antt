-- ===== src/Tests/Clients.antt =====
-- The clients of both services for the authorisation of a request.
use baiducloud_cce_csi_drive.Base.{
  none, some, [], ◌∷◌, ◌≡◌, refl, arith, eq_iff, ok, ◌==◌, if◌then◌else◌,
}
use baiducloud_cce_csi_drive.Base.Int.{pos}
use baiducloud_cce_csi_drive.Util.FilePath.{join}
use baiducloud_cce_csi_drive.Util.Number.{parse_int}
use baiducloud_cce_csi_drive.Cloud.Auth.{
  access_key_pair, cce_gateway, new_access_key_pair_auth, choose_auth,
}
use baiducloud_cce_csi_drive.Cloud.Gateway.{Node, req_host, set_volume_source, new_bce_signer}
use baiducloud_cce_csi_drive.Cloud.Gateway.Token.{
  from_volume, ensure_token, is_fresh, fetch, try_next, volume_source, secret_source, getter_source,
  store,
}
use baiducloud_cce_csi_drive.Cloud.Gateway.Sign.{sign}
use baiducloud_cce_csi_drive.Cloud.Clients.{
  get_signer, new_gateway_signer, SdkDefaults, generate_bcc_cds_client, NewBosClient, bos_client,
}
use baiducloud_cce_csi_drive.Cloud.Clients.Signing.{
  Given, sign_with, after, gateway_client_signs, IsNewBosClient,
  bos_client-new_access_key_pair_auth,
}
use baiducloud_cce_csi_drive.Tests.Gateway.{http, http-IsRequest, request, region_host}

abbrev sdk : SdkDefaults (Unit {0}) (Unit {0})
sdk = record {
  headers_to_sign = tt;
  expire_seconds = 1800;
  user_agent = "bce-sdk-go";
  retry_policy = tt;
  connection_timeout = 50000;
}

-- A node with a token in the volume of the plugin.
abbrev node : Node (Unit {0})
node = record {
  now = λ w. pos 20;
  getenv = λ key w. "";
  read_file = λ file w.
      (ok (if file == "/var/run/secrets/cce/cce-plugin-token/token" then "t-1" else "100"), w);
  new_request_id = λ w. ("r-1", w);
}

-- The second client of an authorisation, which signs with the token that the first has read.
gateway_client_signs_example :
    let client = generate_bcc_cds_client sdk "bcc.gz.baidubce.com" "gz" (cce_gateway "gz" "c-1") in
    let s =
      after node http sdk
        (λ x. x)
        "gz"
        (cce_gateway "gz" "c-1")
        (("cds.gz.baidubce.com", (tt, request)) ∷ [])
        (new_gateway_signer "gz" "c-1", tt) in
    let sent = (sign_with node http (λ x. x) client.signer tt (request, s)).0 in
    (client.config.endpoint ≡ "bcc.gz.baidubce.com")
    × (http.host sent ≡ req_host "gz" "")
    × (http.header "cce-remote-host" sent ≡ "bcc.gz.baidubce.com")
    × (http.header "cce-cluster" sent ≡ "c-1")
    × Given node (http.header "cce-token" sent)
unfolding choose_auth from_volume join parse_int ensure_token is_fresh fetch try_next volume_source
    secret_source getter_source store set_volume_source new_bce_signer new_gateway_signer sign
    generate_bcc_cds_client get_signer
gateway_client_signs_example =
    gateway_client_signs node http sdk (λ x. x) "gz" http-IsRequest "" (λ w. refl)
      "bcc.gz.baidubce.com" "c-1" none refl (("cds.gz.baidubce.com", (tt, request)) ∷ []) tt request
      tt (rw region_host (λ e. cc)) refl

abbrev new_client : NewBosClient
new_client ak sk endpoint =
    if ak == ""
    then none
    else if sk == ""
    then none
    else some (record {
      endpoint = endpoint;
      credentials = record { access_key_id = ak; secret_access_key = sk; session_token = "" };
    })

new_client-IsNewBosClient : IsNewBosClient new_client
new_client-IsNewBosClient = record {
  with_keys = λ ak sk endpoint n m. ground (arith, n, m, eq_iff ak "", eq_iff sk "");
}

client_with_keys :
    bos_client new_client "gz.bcebos.com" (access_key_pair "ak" "sk" "session")
    ≡ some (record {
      endpoint = "gz.bcebos.com";
      credentials = record {
        access_key_id = "ak";
        secret_access_key = "sk";
        session_token = "session";
      };
    })
unfolding new_access_key_pair_auth
client_with_keys =
    bos_client-new_access_key_pair_auth new_client new_client-IsNewBosClient "gz.bcebos.com" "ak"
      "sk" "session" refl
