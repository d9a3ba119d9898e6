-- ===== src/Cloud/Gateway/Sign.antt =====
-- `Sign`: the headers and the host of a request. A request is the SDK's `*http.Request`, a
-- parameter, which is reached through its methods.
pub mod Kept
pub mod Routed
use baiducloud_cce_csi_drive.Base.{String, ◌==◌, Result, ok, err, List, [], ◌∷◌, if◌then◌else◌}
use baiducloud_cce_csi_drive.Cloud.Gateway.{
  Node, BceSigner, token_header_key, cluster_id_header_key, remote_host_header_key,
  endpoint_override_env, req_host,
}
use baiducloud_cce_csi_drive.Cloud.Gateway.Token.{TokenError, ensure_token}

-- The methods of `*http.Request`, and the constants `http.HOST` and `http.BCE_REQUEST_ID`.
pub record RequestMethods (R : Type 0) : Type 0 where
  pub header : String → R → String
  pub set_header : (key value : String) → R → R
  pub host : R → String
  pub set_host : String → R → R
  pub host_key : String
  pub request_id_key : String

module _ {R : Type 0} (http : RequestMethods R) where
  open http use {header, set_header, host, set_host, host_key, request_id_key}

  -- Sets a header where it is empty.
  abbrev set_missing : String → String → R → R
  set_missing key value r = if header key r == "" then set_header key value r else r

  -- The last part of `Sign`: the host of the gateway, with the request's own host in a header.
  unfoldable pub route : (gateway : String) → R → R
  route gateway r =
      if host r == gateway
      then r
      else set_host gateway
          (set_header host_key gateway (set_header remote_host_header_key (host r) r))

  -- The headers of the token and the cluster, and a content type where there is none.
  unfoldable pub set_token : (token cluster_id : String) → R → R
  set_token token cluster_id r =
      set_missing "Content-Type" "application/json"
        (set_header cluster_id_header_key cluster_id (set_header token_header_key token r))

  module _ {W : Type 0} (node : Node W) where
    -- A request identifier where there is none.
    unfoldable pub set_request_id : R → W → R × W
    set_request_id r w =
        if header request_id_key r == ""
        then (set_header request_id_key (node.new_request_id w).0 r, (node.new_request_id w).1)
        else (r, w)

    module _ {K : Type 0} where
      -- The rest of `Sign` once the token is there.
      unfoldable pub set_headers : BceSigner W K → R → W → R × W
      set_headers sg r w =
          let t = set_request_id (set_token sg.token sg.cluster_id r) w in
          (route (req_host sg.region (node.getenv endpoint_override_env t.1)) t.0, t.1)

      abbrev signed :
          R → Result TokenError (Unit {0}) × (BceSigner W K × W) → R × (BceSigner W K × W)
      signed r (err e, s) = (r, s)
      signed r (ok _, (sg, w)) = let t = set_headers sg r w in (t.0, (sg, t.1))

      unfoldable pub sign : K → R × (BceSigner W K × W) → R × (BceSigner W K × W)
      sign k (r, s) = signed r (ensure_token node k s)

      -- The signings of a request that is sent again and again.
      unfoldable pub sign_all : List K → R × (BceSigner W K × W) → R × (BceSigner W K × W)
      sign_all [] s = s
      sign_all (k ∷ ks) s = sign_all ks (sign k s)
