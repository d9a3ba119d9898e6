-- ===== src/Command/Flags/Buckets.antt =====
-- Which flags of a driver of buckets are accepted.
use Prim.Native.String.{◌++◌ as ◌<>◌}
use text.Mathlib.TextLemmas.{nil-append, cons-append}
use baiducloud_cce_csi_drive.Base.{
  String, true, ◌≡◌, ◌≢◌, ◌⊎◌, refl, inl, inr, arith, eq_iff, Result, ok, err, is_ok, ok_of,
  Result-cases,
}
use baiducloud_cce_csi_drive.Cloud.Auth.{auth_mode_access_key}
use baiducloud_cce_csi_drive.Driver.Options.{
  driver_mode_controller, driver_mode_node, driver_mode_all,
}
use baiducloud_cce_csi_drive.Command.Flags.{
  Flags, Options, FlagError, endpoint_or, bos_driver_mode, bos_auth_mode, parse_bos_driver_flags,
}
use baiducloud_cce_csi_drive.Command.Flags.Accepted.{endpoint_or_ok, endpoint_or_known}

pub record IsBosValid (flags : Flags) (region : String) : Type 0 where
  pub mode_known : (flags.mode ≡ driver_mode_node) ⊎ (flags.mode ≡ driver_mode_all)
  pub auth_known : flags.auth_mode ≡ auth_mode_access_key
  pub bos_known : (flags.bos_endpoint ≢ "") ⊎ (region ≢ "")

bos_of_region : (region : String) → region <> ".bcebos.com" ≢ ""
bos_of_region String.[] = rw nil-append (λ e. cc)
bos_of_region (String.◌∷◌ c s) = rw cons-append (λ e. cc)

bos_driver_mode_ok :
    (mode : String) {m : String}
    → bos_driver_mode mode ≡ ok m
    → (m ≡ mode) × ((mode ≡ driver_mode_node) ⊎ (mode ≡ driver_mode_all))
unfolding bos_driver_mode
bos_driver_mode_ok mode h = ground (
  arith,
  h,
  eq_iff mode driver_mode_controller,
  eq_iff mode driver_mode_node,
  eq_iff mode driver_mode_all,
)

bos_auth_mode_ok :
    (mode : String) {m : String}
    → bos_auth_mode mode ≡ ok m
    → (m ≡ mode) × (mode ≡ auth_mode_access_key)
unfolding bos_auth_mode
bos_auth_mode_ok mode h = ground (arith, h, eq_iff mode auth_mode_access_key)

-- What accepted options hold beside the flags that are valid.
pub record IsBosAccepted (flags : Flags) (o p : Options) : Type 0 where
  pub valid : IsBosValid flags o.region
  pub mode_kept : p.mode ≡ flags.mode
  pub bos_set : p.bos_endpoint ≢ ""
  pub image_kept : p.bosfs_image ≡ flags.bosfs_image
  pub rest_kept :
      (p.driver_type ≡ o.driver_type)
      × (p.csi_endpoint ≡ o.csi_endpoint)
      × (p.max_volumes_per_node ≡ o.max_volumes_per_node)
      × (p.topology_mode ≡ o.topology_mode)

accepted_bos :
    (flags : Flags) (o : Options) {p : Options}
    → parse_bos_driver_flags flags o ≡ ok p
    → IsBosAccepted flags o p
unfolding parse_bos_driver_flags
accepted_bos flags o {p} h =
    let of_region = o.region <> ".bcebos.com" in
    elim (Result-cases (bos_driver_mode flags.mode)) [
      | inr (x, a) ↦ absurd (ground (arith, a))
      | inl (m, a) ↦ elim (Result-cases (bos_auth_mode flags.auth_mode)) [
        | inr (x, b) ↦ absurd (ground (arith, a, b))
        | inl (n, b) ↦ elim (Result-cases (endpoint_or flags.bos_endpoint o.region of_region)) [
          | inr (x, c) ↦ absurd (ground (arith, a, b, c))
          | inl (bos, c) ↦
              let (mk, mv) = bos_driver_mode_ok flags.mode a in
              let (ak, av) = bos_auth_mode_ok flags.auth_mode b in
              let (be, bk) =
                endpoint_or_ok flags.bos_endpoint o.region of_region (bos_of_region o.region) c in
              let same : p ≡ record o {
                mode = m;
                auth_mode = n;
                bos_endpoint = bos;
                bosfs_image = flags.bosfs_image;
              } =
                ground (arith, a, b, c, h) in
              rw same (record {
                valid = record { mode_known = mv; auth_known = av; bos_known = bk };
                mode_kept = mk;
                bos_set = be;
                image_kept = refl;
                rest_kept = (refl, refl, refl, refl);
              })
        ]
      ]
    ]

bos_driver_mode_known :
    (mode : String)
    → (mode ≡ driver_mode_node) ⊎ (mode ≡ driver_mode_all)
    → bos_driver_mode mode ≡ ok mode
unfolding bos_driver_mode
bos_driver_mode_known mode (inl e) = rw e refl
bos_driver_mode_known mode (inr e) = rw e refl

bos_of_valid :
    (flags : Flags) (o : Options)
    → IsBosValid flags o.region
    → is_ok (parse_bos_driver_flags flags o) ≡ true
unfolding parse_bos_driver_flags bos_driver_mode bos_auth_mode
bos_of_valid flags o v =
    let of_region = o.region <> ".bcebos.com" in
    let a = bos_driver_mode_known flags.mode v.mode_known in
    let b : bos_auth_mode flags.auth_mode ≡ ok flags.auth_mode =
      ground (arith, v.auth_known, eq_iff flags.auth_mode auth_mode_access_key) in
    let (bos, c) = ok_of (endpoint_or_known flags.bos_endpoint o.region of_region v.bos_known) in
    ground (arith, a, b, c)

-- What a parse says of the flags.
abbrev pub BosTells : Flags → Options → Result FlagError Options → Type 0
BosTells flags o (ok p) = IsBosAccepted flags o p
BosTells flags o (err e) = ¬ IsBosValid flags o.region

-- The flags of a driver of buckets are accepted exactly when the mode is one of `node` and `all`, the
-- authorisation is `key`, and the endpoint is given or there is a region; the options that are then
-- parsed hold the mode and the image of the flags, and no empty endpoint.
pub parse_bos_driver_flags-BosTells :
    (flags : Flags) (o : Options) → BosTells flags o (parse_bos_driver_flags flags o)
parse_bos_driver_flags-BosTells flags o = elim (Result-cases (parse_bos_driver_flags flags o)) [
  | inl (p, e) ↦ rw e (accepted_bos flags o e)
  | inr (x, e) ↦ rw e (λ v. let a = bos_of_valid flags o v in absurd (ground (arith, a, e)))
]
