-- ===== src/Cloud/Clients/Signing.antt =====
-- How the requests of a client are signed, for the authorisation of a request to the driver.
use baiducloud_cce_csi_drive.Base.{
  String, Option, none, some, List, [], ◌∷◌, ◌⊎◌, sym, subst, ◌==◌, ◌≡◌, ◌≢◌, refl, ap, ◌∙◌, arith,
  eq_iff, ok, inl, inr, Result, Bool-cases, Result-cases,
}
use baiducloud_cce_csi_drive.Cloud.Auth.{
  Auth, access_key_pair, cce_gateway, auth_mode_cce_gateway, get_credentials,
  new_access_key_pair_auth, new_cce_gateway_auth, choose_auth,
}
use baiducloud_cce_csi_drive.Cloud.Gateway.{
  Node, BceSigner, new_bce_signer, set_volume_source, token_header_key, cluster_id_header_key,
  remote_host_header_key, endpoint_override_env, req_host,
}
use baiducloud_cce_csi_drive.Cloud.Gateway.Token.{TokenError, from_volume, ensure_token}
use mathlib.Core.List.{Memᴰ}
use baiducloud_cce_csi_drive.Cloud.Gateway.Token.Sources.{sources, first_success, first_success_ok}
use baiducloud_cce_csi_drive.Cloud.Gateway.Token.Fetched.{
  Renewal, kept, renewed, refused, failed, ensure_token_refines,
}
use baiducloud_cce_csi_drive.Cloud.Gateway.Sign.{RequestMethods, sign, sign_all}
use baiducloud_cce_csi_drive.Cloud.Gateway.Sign.Kept.{IsRequest}
use baiducloud_cce_csi_drive.Cloud.Gateway.Sign.Routed.{sign_all_ok}
use baiducloud_cce_csi_drive.Cloud.Clients.{
  cce_gateway_token_volume, Signer, shared_signer, bce_v1_signer, get_signer, new_gateway_signer,
  SdkDefaults, generate_bcc_cds_client, NewBosClient, bos_client,
}

choose_auth_gateway :
    (region cluster_id : String) (secrets : Option (List (String × String))) {auth : Auth}
    → choose_auth auth_mode_cce_gateway region cluster_id secrets ≡ ok auth
    → auth ≡ cce_gateway region cluster_id
unfolding choose_auth new_cce_gateway_auth
choose_auth_gateway region cluster_id secrets h = ground (arith, h)

module _ {W : Type 0} (node : Node W) where
  -- The volume gave the token, with some expiry, when it was read.
  abbrev pub Given : String → Type 0
  Given token =
      (u : W) × (text : String) × ((from_volume node cce_gateway_token_volume u).0
        ≡ ok (token, text))

module _ {W K : Type 0} (node : Node W) where
  -- A signer with the volume as its one source, and with no token or one of the volume.
  pub record IsVolumeSigner (region cluster_id : String) (sg : BceSigner W K) : Type 0 where
    pub of_region : sg.region ≡ region
    pub of_cluster : sg.cluster_id ≡ cluster_id
    pub has_volume : sg.token_volume ≡ cce_gateway_token_volume
    pub no_secret : sg.secret_getter ≡ none
    pub no_getter : sg.token_getter ≡ none
    pub given : (sg.token ≡ "") ⊎ Given node sg.token

  new_gateway_signer-IsVolumeSigner :
      (region cluster_id : String)
      → IsVolumeSigner region cluster_id (new_gateway_signer region cluster_id)
  unfolding new_gateway_signer set_volume_source new_bce_signer
  new_gateway_signer-IsVolumeSigner region cluster_id = record {
    of_region = refl;
    of_cluster = refl;
    has_volume = refl;
    no_secret = refl;
    no_getter = refl;
    given = inl refl;
  }

  sources_of_volume :
      {region cluster_id : String} (sg : BceSigner W K) (k : K)
      → IsVolumeSigner region cluster_id sg
      → sources node sg k ≡ from_volume node cce_gateway_token_volume ∷ []
  sources_of_volume sg k h = rw (h.has_volume, h.no_secret, h.no_getter) refl

  fetched-Given :
      {region cluster_id token text : String} {v : W} (sg : BceSigner W K) (k : K) (w : W)
      → IsVolumeSigner region cluster_id sg
      → first_success (sources node sg k) none w ≡ (ok (token, text), v)
      → Given node token
  unfolding first_success
  fetched-Given {token = token} {text} sg k w h e =
      let f : first_success (from_volume node cce_gateway_token_volume ∷ []) none w
          ≡ first_success (sources node sg k) none w =
        ap (λ ms. first_success ms none w) (sym (sources_of_volume sg k h)) in
      let (m, i, u, given) =
        first_success_ok (from_volume node cce_gateway_token_volume ∷ []) none w
          (ap (λ x. x.0) (f ∙ e)) in
      elim i [
        | Memᴰ.head p ↦ (u, text, subst (λ x. (x u).0 ≡ ok (token, text)) p given)
        | Memᴰ.tail j ↦ absurd (elim j [ ])
      ]

  Renewal-IsVolumeSigner :
      {region cluster_id : String} {k : K} {sg tg : BceSigner W K} {w v : W}
      {r : Result TokenError (Unit {0})}
      → Renewal node k sg w r tg v
      → IsVolumeSigner region cluster_id sg
      → IsVolumeSigner region cluster_id tg × (r ≡ ok tt → Given node tg.token)
  Renewal-IsVolumeSigner (kept n e) h =
      (h, λ q. elim h.given [ inl x ↦ absurd (n x) | inr given ↦ given ])
  Renewal-IsVolumeSigner {k = k} {sg} {w = w} (renewed x e p) h =
      let given = fetched-Given sg k w h e in
      (
        record {
          of_region = h.of_region;
          of_cluster = h.of_cluster;
          has_volume = h.has_volume;
          no_secret = h.no_secret;
          no_getter = h.no_getter;
          given = inr given;
        },
        λ q. given,
      )
  Renewal-IsVolumeSigner (refused x e p) h = (
    record {
      of_region = h.of_region;
      of_cluster = h.of_cluster;
      has_volume = h.has_volume;
      no_secret = h.no_secret;
      no_getter = h.no_getter;
      given = h.given;
    },
    λ q. absurd cc,
  )
  Renewal-IsVolumeSigner (failed x e) h = (h, λ q. absurd cc)

  module _ {R : Type 0} (http : RequestMethods R) where
    sign_signer :
        (k : K) (r : R) (sg : BceSigner W K) (w : W)
        → (sign http node k (r, (sg, w))).1.0 ≡ (ensure_token node k (sg, w)).1.0
    unfolding sign
    sign_signer k r sg w = elim (Result-cases (ensure_token node k (sg, w)).0) [
      | inl (_, e) ↦ ground (arith, e)
      | inr (x, e) ↦ ground (arith, e)
    ]

    sign_of_volume :
        (L : IsRequest http) (env region cluster_id : String)
        → ((w : W) → node.getenv endpoint_override_env w ≡ env)
        → (k : K) (r : R) (sg : BceSigner W K) (w : W) → IsVolumeSigner region cluster_id sg
        → http.host r ≢ req_host region env
        → (ensure_token node k (sg, w)).0 ≡ ok tt
        → let sent = (sign http node k (r, (sg, w))).0 in
          (http.host sent ≡ req_host region env)
          × (http.header remote_host_header_key sent ≡ http.host r)
          × (http.header cluster_id_header_key sent ≡ cluster_id)
          × Given node (http.header token_header_key sent)
    unfolding sign_all
    sign_of_volume L env region cluster_id fixed k r sg w h own token =
        let same = h.of_region in
        let (kept_cluster, (host, remote, carried, cluster)) =
          sign_all_ok http L node env fixed [] k r sg w
            (subst (λ x. http.host r ≢ req_host x env) (sym same) own) token in
        let given = (Renewal-IsVolumeSigner (ensure_token_refines node sg k w) h).1 token in
        (
          host ∙ ap (λ x. req_host x env) same,
          remote,
          cluster ∙ kept_cluster ∙ h.of_cluster,
          subst (Given node) (sym (carried ∙ ap (λ x. x.token) (sign_signer k r sg w))) given,
        )

    -- How a client signs a request, by its signer, with the state of the shared one. The signer of the
    -- version 1 is the SDK's.
    abbrev pub sign_with :
        (v1 : R × W → R × W) → Signer → K → R × (BceSigner W K × W) → R × (BceSigner W K × W)
    sign_with v1 shared_signer k s = sign http node k s
    sign_with v1 bce_v1_signer k (r, (sg, w)) = let t = v1 (r, w) in (t.0, (sg, t.1))

    module _ {H P : Type 0} (sdk : SdkDefaults H P) (v1 : R × W → R × W) (region : String) where
      -- The shared signer after requests, each by a client of its own for the authorisation.
      abbrev pub after : Auth → List (String × (K × R)) → BceSigner W K × W → BceSigner W K × W
      after auth [] s = s
      after auth ((endpoint, (k, r)) ∷ earlier) s =
          after auth earlier
            (sign_with v1 (generate_bcc_cds_client sdk endpoint region auth).signer k (r, s)).1

      after-IsVolumeSigner :
          (cluster_id : String) (earlier : List (String × (K × R))) (sg : BceSigner W K) (w : W)
          → IsVolumeSigner region cluster_id sg
          → IsVolumeSigner region cluster_id
              (after (cce_gateway region cluster_id) earlier (sg, w)).0
      unfolding generate_bcc_cds_client get_signer
      after-IsVolumeSigner cluster_id [] sg w h = h
      after-IsVolumeSigner cluster_id ((endpoint, (k, r)) ∷ earlier) sg w h =
          let s = (sign http node k (r, (sg, w))).1 in
          after-IsVolumeSigner cluster_id earlier s.0 s.1 (
            subst (IsVolumeSigner region cluster_id) (sym (sign_signer k r sg w))
              (Renewal-IsVolumeSigner (ensure_token_refines node sg k w) h).0)

      -- Where requests are authorised for the gateway, over the requests of the SDK, and where the
      -- override of the endpoint stays as it is: after any requests by other clients for the same
      -- authorisation, which share its signer, the client that is made for a request is that of the
      -- endpoint; and if there is a token, its signing leaves what it sends to another host than the
      -- gateway with the gateway as its host, that host in the header for it, the cluster in its
      -- header, and in the header of the token one that the volume of the plugin gave.
      pub gateway_client_signs :
          (L : IsRequest http) (env : String)
          → ((w : W) → node.getenv endpoint_override_env w ≡ env)
          → (endpoint cluster_id : String) (secrets : Option (List (String × String))) {auth : Auth}
          → choose_auth auth_mode_cce_gateway region cluster_id secrets ≡ ok auth
          → (earlier : List (String × (K × R))) (k : K) (r : R) (w : W)
          → http.host r ≢ req_host region env
          → let s = after auth earlier (new_gateway_signer region cluster_id, w) in
            (ensure_token node k s).0 ≡ ok tt
            → let client = generate_bcc_cds_client sdk endpoint region auth in
              let sent = (sign_with v1 client.signer k (r, s)).0 in
              (client.config.endpoint ≡ endpoint)
              × (http.host sent ≡ req_host region env)
              × (http.header remote_host_header_key sent ≡ http.host r)
              × (http.header cluster_id_header_key sent ≡ cluster_id)
              × Given node (http.header token_header_key sent)
      unfolding generate_bcc_cds_client get_signer
      gateway_client_signs L env fixed endpoint cluster_id secrets {auth} h earlier k r w own
            token =
          let e : auth ≡ cce_gateway region cluster_id =
            choose_auth_gateway region cluster_id secrets h in
          let s =
            after (cce_gateway region cluster_id) earlier
              (new_gateway_signer region cluster_id, w) in
          let known =
            after-IsVolumeSigner cluster_id earlier (new_gateway_signer region cluster_id) w
              (new_gateway_signer-IsVolumeSigner region cluster_id) in
          let there : (ensure_token node k s).0 ≡ ok tt =
            subst
              (λ a.
                (ensure_token node k (after a earlier (new_gateway_signer region cluster_id, w))).0
                ≡ ok tt)
              e token in
          let (host, remote, cluster, given) =
            sign_of_volume L env region cluster_id fixed k r s.0 s.1 known own there in
          rw e (refl, host, remote, cluster, given)

-- What is relied on of `bos.NewClient`: it gives a client for a pair of keys.
pub record IsNewBosClient (new_client : NewBosClient) : Type 0 where
  pub with_keys :
      (ak sk endpoint : String)
      → ak ≢ ""
      → sk ≢ ""
      → new_client ak sk endpoint
        ≡ some (record {
          endpoint = endpoint;
          credentials = record { access_key_id = ak; secret_access_key = sk; session_token = "" };
        })

-- Where `bos.NewClient` acts as `IsNewBosClient` says: for every authorisation by a pair of keys there
-- is a client of buckets, at the endpoint, with the keys and the session token of the authorisation.
pub bos_client-new_access_key_pair_auth :
    (new_client : NewBosClient)
    → IsNewBosClient new_client
    → (endpoint ak sk token : String) {auth : Auth} → new_access_key_pair_auth ak sk token ≡ ok auth
    → bos_client new_client endpoint auth
      ≡ some (record {
        endpoint = endpoint;
        credentials = record { access_key_id = ak; secret_access_key = sk; session_token = token };
      })
unfolding new_access_key_pair_auth bos_client get_credentials
bos_client-new_access_key_pair_auth new_client L endpoint ak sk token {auth} h =
    elim (Bool-cases (ak == "")) [
      | inl a ↦ absurd (ground (arith, a, h))
      | inr a ↦ elim (Bool-cases (sk == "")) [
        | inl b ↦ absurd (ground (arith, a, b, h))
        | inr b ↦
            let same : auth ≡ access_key_pair ak sk token = ground (arith, a, b, h) in
            let made =
              L.with_keys ak sk endpoint (ground (arith, a, eq_iff ak ""))
                (ground (arith, b, eq_iff sk "")) in
            ground (arith, same, made, eq_iff token "")
      ]
    ]
