-- ===== src/Command/Flags/Accepted.antt =====
-- Which flags are accepted, and what the accepted options hold.
use Prim.Native.String.{◌++◌ as ◌<>◌}
use text.Mathlib.TextLemmas.{cons-append}
use baiducloud_cce_csi_drive.Base.{
  String, true, ◌==◌, ◌≡◌, refl, ◌≢◌, ◌⊎◌, inl, inr, arith, eq_iff, Result, ok, err, is_ok, ok_of,
  Result-cases, Bool-cases,
}
use baiducloud_cce_csi_drive.Cloud.Auth.{auth_mode_access_key, auth_mode_cce_gateway}
use baiducloud_cce_csi_drive.Driver.Options.{
  driver_mode_controller, driver_mode_node, driver_mode_all,
}
use baiducloud_cce_csi_drive.Command.Flags.{
  Flags, Options, FlagError, endpoint_or, cds_driver_mode, cds_auth_mode, parse_cds_driver_flags,
}

-- The mode is one of three, the authorisation one of two, and an endpoint that is not given follows
-- from a region.
pub record IsValid (flags : Flags) (region : String) : Type 0 where
  pub mode_known :
      (flags.mode ≡ driver_mode_controller)
      ⊎ (flags.mode ≡ driver_mode_node)
      ⊎ (flags.mode ≡ driver_mode_all)
  pub auth_known :
      (flags.auth_mode ≡ auth_mode_access_key) ⊎ (flags.auth_mode ≡ auth_mode_cce_gateway)
  pub bcc_known : (flags.bcc_endpoint ≢ "") ⊎ (region ≢ "")
  pub cds_known : (flags.cds_endpoint ≢ "") ⊎ (region ≢ "")

bcc_of_region : (region : String) → "bcc." <> region <> ".baidubce.com" ≢ ""
bcc_of_region region = rw cons-append (λ e. cc)

pub endpoint_or_ok :
    (flag region from_region : String) {endpoint : String}
    → from_region ≢ ""
    → endpoint_or flag region from_region ≡ ok endpoint
    → (endpoint ≢ "") × ((flag ≢ "") ⊎ (region ≢ ""))
unfolding endpoint_or
endpoint_or_ok flag region from_region {endpoint} n h = elim (Bool-cases (flag == "")) [
  | inr e ↦ (
    ground (arith, e, h, eq_iff flag "", eq_iff endpoint ""),
    inl (ground (arith, e, eq_iff flag "")),
  )
  | inl e ↦ elim (Bool-cases (region == "")) [
    | inl f ↦ absurd (ground (arith, e, f))
    | inr f ↦ (ground (arith, e, f, h, n), inr (ground (arith, f, eq_iff region "")))
  ]
]

-- An endpoint that is known is given or made.
pub endpoint_or_known :
    (flag region from_region : String)
    → (flag ≢ "") ⊎ (region ≢ "")
    → is_ok (endpoint_or flag region from_region) ≡ true
unfolding endpoint_or
endpoint_or_known flag region from_region h = ground (arith, h, eq_iff flag "", eq_iff region "")

cds_driver_mode_ok :
    (mode : String) {m : String}
    → cds_driver_mode mode ≡ ok m
    → (m ≡ mode)
      × ((mode ≡ driver_mode_controller) ⊎ (mode ≡ driver_mode_node) ⊎ (mode ≡ driver_mode_all))
unfolding cds_driver_mode
cds_driver_mode_ok mode h = ground (
  arith,
  h,
  eq_iff mode driver_mode_controller,
  eq_iff mode driver_mode_node,
  eq_iff mode driver_mode_all,
)

cds_auth_mode_ok :
    (mode : String) {m : String}
    → cds_auth_mode mode ≡ ok m
    → (m ≡ mode) × ((mode ≡ auth_mode_access_key) ⊎ (mode ≡ auth_mode_cce_gateway))
unfolding cds_auth_mode
cds_auth_mode_ok mode h =
    ground (arith, h, eq_iff mode auth_mode_access_key, eq_iff mode auth_mode_cce_gateway)

-- What accepted options hold beside the flags that are valid.
pub record IsAccepted (flags : Flags) (o p : Options) : Type 0 where
  pub valid : IsValid flags o.region
  pub mode_kept : p.mode ≡ flags.mode
  pub auth_kept : p.auth_mode ≡ flags.auth_mode
  pub bcc_set : p.bcc_endpoint ≢ ""
  pub cds_set : p.cds_endpoint ≢ ""
  pub rest_kept :
      (p.driver_type ≡ o.driver_type)
      × (p.region ≡ o.region)
      × (p.cluster_id ≡ o.cluster_id)
      × (p.csi_endpoint ≡ o.csi_endpoint)
      × (p.max_volumes_per_node ≡ o.max_volumes_per_node)
      × (p.topology_mode ≡ o.topology_mode)

pub parse_cds_driver_flags_ok :
    (flags : Flags) (o : Options) {p : Options}
    → parse_cds_driver_flags flags o ≡ ok p
    → IsAccepted flags o p
unfolding parse_cds_driver_flags
parse_cds_driver_flags_ok flags o {p} h =
    let of_region = "bcc." <> o.region <> ".baidubce.com" in
    elim (Result-cases (cds_driver_mode flags.mode)) [
      | inr (x, a) ↦ absurd (ground (arith, a))
      | inl (m, a) ↦ elim (Result-cases (cds_auth_mode flags.auth_mode)) [
        | inr (x, b) ↦ absurd (ground (arith, a, b))
        | inl (n, b) ↦ elim (Result-cases (endpoint_or flags.bcc_endpoint o.region of_region)) [
          | inr (x, c) ↦ absurd (ground (arith, a, b, c))
          | inl (bcc, c) ↦ elim (Result-cases (endpoint_or flags.cds_endpoint o.region of_region)) [
            | inr (x, d) ↦ absurd (ground (arith, a, b, c, d))
            | inl (cds, d) ↦
                let (mk, mv) = cds_driver_mode_ok flags.mode a in
                let (ak, av) = cds_auth_mode_ok flags.auth_mode b in
                let (be, bk) =
                  endpoint_or_ok flags.bcc_endpoint o.region of_region (bcc_of_region o.region) c in
                let (ce, ck) =
                  endpoint_or_ok flags.cds_endpoint o.region of_region (bcc_of_region o.region) d in
                let same : p
                    ≡ record o { mode = m; auth_mode = n; bcc_endpoint = bcc; cds_endpoint = cds } =
                  ground (arith, a, b, c, d, h) in
                rw same (record {
                  valid = record {
                    mode_known = mv;
                    auth_known = av;
                    bcc_known = bk;
                    cds_known = ck;
                  };
                  mode_kept = mk;
                  auth_kept = ak;
                  bcc_set = be;
                  cds_set = ce;
                  rest_kept = (refl, refl, refl, refl, refl, refl);
                })
          ]
        ]
      ]
    ]

accepted_of_valid :
    (flags : Flags) (o : Options)
    → IsValid flags o.region
    → is_ok (parse_cds_driver_flags flags o) ≡ true
unfolding parse_cds_driver_flags cds_driver_mode cds_auth_mode
accepted_of_valid flags o v =
    let of_region = "bcc." <> o.region <> ".baidubce.com" in
    let a : cds_driver_mode flags.mode ≡ ok flags.mode = ground (
      arith,
      v.mode_known,
      eq_iff flags.mode driver_mode_controller,
      eq_iff flags.mode driver_mode_node,
      eq_iff flags.mode driver_mode_all,
    ) in
    let b : cds_auth_mode flags.auth_mode ≡ ok flags.auth_mode = ground (
      arith,
      v.auth_known,
      eq_iff flags.auth_mode auth_mode_access_key,
      eq_iff flags.auth_mode auth_mode_cce_gateway,
    ) in
    let (bcc, c) = ok_of (endpoint_or_known flags.bcc_endpoint o.region of_region v.bcc_known) in
    let (cds, d) = ok_of (endpoint_or_known flags.cds_endpoint o.region of_region v.cds_known) in
    ground (arith, a, b, c, d)

-- What a parse says of the flags.
abbrev pub Tells : Flags → Options → Result FlagError Options → Type 0
Tells flags o (ok p) = IsAccepted flags o p
Tells flags o (err e) = ¬ IsValid flags o.region

-- The flags of a driver of cloud disks are accepted exactly when the mode is one of `controller`,
-- `node` and `all`, the authorisation one of `key` and `gateway`, and each of the two endpoints is
-- given or there is a region; the options that are then parsed hold the mode and the authorisation
-- of the flags, and no empty endpoint.
pub parse_cds_driver_flags-Tells :
    (flags : Flags) (o : Options) → Tells flags o (parse_cds_driver_flags flags o)
parse_cds_driver_flags-Tells flags o = elim (Result-cases (parse_cds_driver_flags flags o)) [
  | inl (p, e) ↦ rw e (parse_cds_driver_flags_ok flags o e)
  | inr (x, e) ↦ rw e (λ v. let a = accepted_of_valid flags o v in absurd (ground (arith, a, e)))
]
