-- ===== src/Cloud/Gateway/Sign/Routed.antt =====
-- The host of a request through its signings.
use baiducloud_cce_csi_drive.Base.{
  String, List, [], ◌∷◌, ◌≡◌, ◌≢◌, refl, sym, ap, subst, ◌∙◌, inl, inr, arith, ok, Result-cases,
}
use baiducloud_cce_csi_drive.Cloud.Gateway.{
  Node, BceSigner, token_header_key, cluster_id_header_key, remote_host_header_key,
  endpoint_override_env, req_host,
}
use baiducloud_cce_csi_drive.Cloud.Gateway.Sign.{
  RequestMethods, set_token, set_request_id, set_headers, sign, sign_all,
}
use baiducloud_cce_csi_drive.Cloud.Gateway.Token.{ensure_token}
use baiducloud_cce_csi_drive.Cloud.Gateway.Token.Fetched.{ensure_token_keeps}
use baiducloud_cce_csi_drive.Cloud.Gateway.Sign.Kept.{
  IsRequest, IsRouted, route_lem, identified_lem,
}

module _ {R : Type 0} (http : RequestMethods R) (L : IsRequest http) where
  module _ {W K : Type 0} (node : Node W) (env : String)
      (fixed : (w : W) → node.getenv endpoint_override_env w ≡ env) where
    -- What a successful signing makes of a request that was sent to `own`.
    abbrev pub IsSigned : (own gateway : String) → BceSigner W K → R → Type 0
    IsSigned own gateway sg r =
        (http.host r ≡ gateway)
        × (http.header remote_host_header_key r ≡ own)
        × (http.header token_header_key r ≡ sg.token)
        × (http.header cluster_id_header_key r ≡ sg.cluster_id)

    set_headers_lem :
        (own : String) (sg : BceSigner W K) (r : R) (w : W)
        → own ≢ req_host sg.region env
        → IsRouted http L own (req_host sg.region env) r
        → IsSigned own (req_host sg.region env) sg (set_headers http node sg r w).0
    unfolding set_headers
    set_headers_lem own sg r w n h =
        let i = set_request_id http node (set_token http sg.token sg.cluster_id r) w in
        let (a, b, c) =
          identified_lem http L node own (req_host sg.region env) sg.token sg.cluster_id r w h in
        let (d, e, f, g) = route_lem http L own (req_host sg.region env) i.0 n a in
        rw (fixed i.1) (d, e, f ∙ b, g ∙ c)

    -- A signing with a token, whatever moved the request before.
    sign_ok :
        (own region : String) (k : K) (r : R) (sg : BceSigner W K) (w : W)
        → sg.region ≡ region
        → own ≢ req_host region env
        → IsRouted http L own (req_host region env) r
        → (ensure_token node k (sg, w)).0 ≡ ok tt
        → let s = sign http node k (r, (sg, w)) in
          (s.1.0 ≡ (ensure_token node k (sg, w)).1.0) × IsSigned own (req_host region env) s.1.0 s.0
    unfolding sign
    sign_ok own region k r sg w at n h e =
        let (tg, v) = (ensure_token node k (sg, w)).1 in
        let same : tg.region ≡ region = (ensure_token_keeps node sg k w).0 ∙ at in
        let t = set_headers http node tg r v in
        let signed : sign http node k (r, (sg, w)) ≡ (t.0, (tg, t.1)) = ground (arith, e) in
        rw signed (
          refl,
          subst (λ x. IsSigned own (req_host x env) tg t.0) same
              (set_headers_lem own tg r v (subst (λ x. own ≢ req_host x env) (sym same) n)
                (subst (λ x. IsRouted http L own (req_host x env) r) (sym same) h)),
        )

    sign_keeps :
        (own region : String) (k : K) (r : R) (sg : BceSigner W K) (w : W)
        → sg.region ≡ region
        → own ≢ req_host region env
        → IsRouted http L own (req_host region env) r
        → let s = sign http node k (r, (sg, w)) in
          (s.1.0.region ≡ region)
          × (s.1.0.cluster_id ≡ sg.cluster_id)
          × IsRouted http L own (req_host region env) s.0
    unfolding sign
    sign_keeps own region k r sg w at n h =
        let (a, c) = ensure_token_keeps node sg k w in
        elim (Result-cases (ensure_token node k (sg, w)).0) [
          | inl (_, e) ↦
              let (same, (host, remote, _, _)) = sign_ok own region k r sg w at n h e in
              (
                ap (λ x. x.region) same ∙ a ∙ at,
                ap (λ x. x.cluster_id) same ∙ c,
                inr (host, remote),
              )
          | inr (x, e) ↦
              let unsigned : sign http node k (r, (sg, w)) ≡ (r, (ensure_token node k (sg, w)).1) =
                ground (arith, e) in
              rw unsigned (a ∙ at, c, h)
        ]

    sign_all_keeps :
        (own region : String) (ks : List K) (r : R) (sg : BceSigner W K) (w : W)
        → sg.region ≡ region
        → own ≢ req_host region env
        → IsRouted http L own (req_host region env) r
        → let s = sign_all http node ks (r, (sg, w)) in
          (s.1.0.region ≡ region)
          × (s.1.0.cluster_id ≡ sg.cluster_id)
          × IsRouted http L own (req_host region env) s.0
    unfolding sign_all
    sign_all_keeps own region [] r sg w at n h = (at, refl, h)
    sign_all_keeps own region (k ∷ ks) r sg w at n h =
        let s = sign http node k (r, (sg, w)) in
        let (a, b, c) = sign_keeps own region k r sg w at n h in
        let (d, e, f) = sign_all_keeps own region ks s.0 s.1.0 s.1.1 a n c in (d, e ∙ b, f)

    -- Over the requests of the SDK, and where the override of the endpoint stays as it is: however
    -- often a request to another host than the gateway was signed before, with whatever outcome, a
    -- signing for which there is a token leaves it with the gateway as its host, the request's first
    -- host in the header for it, and the signer's token and cluster in theirs.
    pub sign_all_ok :
        (ks : List K) (k : K) (r : R) (sg : BceSigner W K) (w : W)
        → http.host r ≢ req_host sg.region env
        → (ensure_token node k (sign_all http node ks (r, (sg, w))).1).0 ≡ ok tt
        → let s = sign http node k (sign_all http node ks (r, (sg, w))) in
          (s.1.0.cluster_id ≡ sg.cluster_id)
          × IsSigned (http.host r) (req_host sg.region env) s.1.0 s.0
    sign_all_ok ks k r sg w n e =
        let s = sign_all http node ks (r, (sg, w)) in
        let (a, b, c) = sign_all_keeps (http.host r) sg.region ks r sg w refl n (inl refl) in
        (
          (sign_keeps (http.host r) sg.region k s.0 s.1.0 s.1.1 a n c).1 ∙ b,
          (sign_ok (http.host r) sg.region k s.0 s.1.0 s.1.1 a n c e).1,
        )
