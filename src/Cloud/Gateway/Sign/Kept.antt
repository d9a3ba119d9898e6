-- ===== src/Cloud/Gateway/Sign/Kept.antt =====
-- What each step of a signing keeps of a request's host and headers.
use baiducloud_cce_csi_drive.Base.{
  String, ◌==◌, ◌≡◌, ◌≢◌, refl, subst, ◌∙◌, ◌⊎◌, inl, inr, arith, Bool-cases, eq_iff,
}
use baiducloud_cce_csi_drive.Cloud.Gateway.{
  Node, token_header_key, cluster_id_header_key, remote_host_header_key,
}
use baiducloud_cce_csi_drive.Cloud.Gateway.Sign.{
  RequestMethods, set_missing, route, set_token, set_request_id,
}

-- How the SDK's request acts: its headers are a map, and its host is not one of them.
pub record IsRequest {R : Type 0} (http : RequestMethods R) : Type 0 where
  pub header_set :
      (key value : String) (r : R) → http.header key (http.set_header key value r) ≡ value
  pub header_other :
      (key other value : String) (r : R)
      → key ≢ other
      → http.header other (http.set_header key value r) ≡ http.header other r
  pub header_host :
      (key value : String) (r : R) → http.header key (http.set_host value r) ≡ http.header key r
  pub host_header :
      (key value : String) (r : R) → http.host (http.set_header key value r) ≡ http.host r
  pub host_set : (value : String) (r : R) → http.host (http.set_host value r) ≡ value
  pub host_key_lem : http.host_key ≡ "Host"
  pub request_id_key_lem : http.request_id_key ≡ "x-bce-request-id"

module _ {R : Type 0} (http : RequestMethods R) (L : IsRequest http) where
  -- A request on its way to the gateway, or on its own way, from which no signing has moved it.
  abbrev pub IsRouted : (own gateway : String) → R → Type 0
  IsRouted own gateway r =
      (http.host r ≡ own) ⊎ ((http.host r ≡ gateway) × (http.header remote_host_header_key r ≡ own))

  -- The second request has the host of the first, and its headers but for one.
  abbrev KeepsBut : String → R → R → Type 0
  KeepsBut key r t =
      (http.host t ≡ http.host r)
      × ((other : String) → key ≢ other → http.header other t ≡ http.header other r)

  set_header-KeepsBut : (key value : String) (r : R) → KeepsBut key r (http.set_header key value r)
  set_header-KeepsBut key value r =
      (L.host_header key value r, λ other n. L.header_other key other value r n)

  set_missing-KeepsBut :
      (key value : String) (r : R) → KeepsBut key r (set_missing http key value r)
  set_missing-KeepsBut key value r = elim (Bool-cases (http.header key r == "")) [
    | inl e ↦ rw e (set_header-KeepsBut key value r)
    | inr e ↦ rw e (refl, λ other n. refl)
  ]

  set_request_id-KeepsBut :
      {W : Type 0} (node : Node W) (r : R) (w : W)
      → KeepsBut "x-bce-request-id" r (set_request_id http node r w).0
  unfolding set_request_id
  set_request_id-KeepsBut node r w =
      let id = (node.new_request_id w).0 in
      elim (Bool-cases (http.header http.request_id_key r == "")) [
        | inl e ↦ rw e (
            subst (λ key. KeepsBut key r (http.set_header http.request_id_key id r))
              L.request_id_key_lem (set_header-KeepsBut http.request_id_key id r))
        | inr e ↦ rw e (refl, λ other n. refl)
      ]

  set_token_lem :
      (token cluster_id : String) (r : R)
      → let t = set_token http token cluster_id r in
        (http.host t ≡ http.host r)
        × (http.header remote_host_header_key t ≡ http.header remote_host_header_key r)
        × (http.header token_header_key t ≡ token)
        × (http.header cluster_id_header_key t ≡ cluster_id)
  unfolding set_token
  set_token_lem token cluster_id r =
      let a = http.set_header token_header_key token r in
      let b = http.set_header cluster_id_header_key cluster_id a in
      let (ha, ka) = set_header-KeepsBut token_header_key token r in
      let (hb, kb) = set_header-KeepsBut cluster_id_header_key cluster_id a in
      let (hc, kc) = set_missing-KeepsBut "Content-Type" "application/json" b in
      (
        hc ∙ hb ∙ ha,
        kc remote_host_header_key (λ e. cc)
            ∙ kb remote_host_header_key (λ e. cc)
            ∙ ka remote_host_header_key (λ e. cc),
        kc token_header_key (λ e. cc)
            ∙ kb token_header_key (λ e. cc)
            ∙ L.header_set token_header_key token r,
        kc cluster_id_header_key (λ e. cc) ∙ L.header_set cluster_id_header_key cluster_id a,
      )

  pub route_lem :
      (own gateway : String) (r : R)
      → own ≢ gateway
      → IsRouted own gateway r
      → let t = route http gateway r in
        (http.host t ≡ gateway)
        × (http.header remote_host_header_key t ≡ own)
        × (http.header token_header_key t ≡ http.header token_header_key r)
        × (http.header cluster_id_header_key t ≡ http.header cluster_id_header_key r)
  unfolding route
  route_lem own gateway r n (inl h) =
      let a = http.set_header remote_host_header_key own r in
      let b = http.set_header "Host" gateway a in
      let (ha, ka) = set_header-KeepsBut remote_host_header_key own r in
      let (hb, kb) = set_header-KeepsBut "Host" gateway a in
      let moved : route http gateway r ≡ http.set_host gateway b =
        ground (arith, h, n, eq_iff own gateway, L.host_key_lem) in
      rw moved (
        L.host_set gateway b,
        L.header_host remote_host_header_key gateway b
            ∙ kb remote_host_header_key (λ e. cc)
            ∙ L.header_set remote_host_header_key own r,
        L.header_host token_header_key gateway b
            ∙ kb token_header_key (λ e. cc)
            ∙ ka token_header_key (λ e. cc),
        L.header_host cluster_id_header_key gateway b
            ∙ kb cluster_id_header_key (λ e. cc)
            ∙ ka cluster_id_header_key (λ e. cc),
      )
  route_lem own gateway r n (inr (g, h)) =
      let stays : route http gateway r ≡ r = ground (arith, g, eq_iff gateway gateway) in
      rw stays (g, h, refl, refl)

  set_token-IsRouted :
      (own gateway token cluster_id : String) (r : R)
      → IsRouted own gateway r
      → IsRouted own gateway (set_token http token cluster_id r)
  set_token-IsRouted own gateway token cluster_id r (inl at) =
      inl ((set_token_lem token cluster_id r).0 ∙ at)
  set_token-IsRouted own gateway token cluster_id r (inr (at, rest)) =
      let l = set_token_lem token cluster_id r in inr (l.0 ∙ at, l.1 ∙ rest)

  set_request_id-IsRouted :
      {W : Type 0} (node : Node W) (own gateway : String) (r : R) (w : W)
      → IsRouted own gateway r
      → IsRouted own gateway (set_request_id http node r w).0
  set_request_id-IsRouted node own gateway r w (inl at) =
      inl ((set_request_id-KeepsBut node r w).0 ∙ at)
  set_request_id-IsRouted node own gateway r w (inr (at, rest)) =
      let (h, k) = set_request_id-KeepsBut node r w in
      inr (h ∙ at, k remote_host_header_key (λ e. cc) ∙ rest)

  -- The request before its host is looked at.
  pub identified_lem :
      {W : Type 0} (node : Node W) (own gateway token cluster_id : String) (r : R) (w : W)
      → IsRouted own gateway r
      → let i = (set_request_id http node (set_token http token cluster_id r) w).0 in
        IsRouted own gateway i
        × (http.header token_header_key i ≡ token)
        × (http.header cluster_id_header_key i ≡ cluster_id)
  identified_lem node own gateway token cluster_id r w h =
      let t = set_token http token cluster_id r in
      let k = set_request_id-KeepsBut node t w in
      let (_, _, a, b) = set_token_lem token cluster_id r in
      (
        set_request_id-IsRouted node own gateway t w
            (set_token-IsRouted own gateway token cluster_id r h),
        k.1 token_header_key (λ e. cc) ∙ a,
        k.1 cluster_id_header_key (λ e. cc) ∙ b,
      )
