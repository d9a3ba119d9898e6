-- ===== src/Bos/Source/Endpoint.antt =====
-- The endpoint among the options of a mount.
use Prim.Native.String.{◌++◌ as ◌<>◌}
use text.Mathlib.TextPositions.{starts_with-append}
use baiducloud_cce_csi_drive.Base.{
  String, Bool, true, ◌||◌, List, [], ◌∷◌, ◌++◌, ◌≡◌, refl, arith, inl, inr, Bool-cases,
  if◌then◌else◌,
}
use baiducloud_cce_csi_drive.Bos.Source.{sets_endpoint, mount_options}

sets_endpoint-append :
    (xs ys : List String) → sets_endpoint (xs ++ ys) ≡ (sets_endpoint xs || sets_endpoint ys)
unfolding sets_endpoint
sets_endpoint-append [] ys = refl
sets_endpoint-append (x ∷ xs) ys = ground (arith, sets_endpoint-append xs ys)

-- The options of a mount set an endpoint, and where the mount flags set one, the endpoint of the
-- driver does not change them.
pub mount_options_endpoint :
    (endpoint path : String) (readonly : Bool) (flags : List String)
    → (sets_endpoint (mount_options endpoint path readonly flags) ≡ true)
      × ((other : String)
          → sets_endpoint flags ≡ true
          → mount_options endpoint path readonly flags ≡ mount_options other path readonly flags)
unfolding mount_options sets_endpoint
mount_options_endpoint endpoint path readonly flags = elim (Bool-cases (sets_endpoint flags)) [
  | inl e ↦ (
    ground (arith, e, sets_endpoint-append (if readonly then "-o ro" ∷ [] else []) flags),
    λ other h. ground (arith, e),
  )
  | inr e ↦ (
    ground (
      arith,
      e,
      starts_with-append "-o endpoint=" endpoint,
      sets_endpoint-append (if readonly then "-o ro" ∷ [] else [])
          (("-o endpoint=" <> endpoint) ∷ flags),
    ),
    λ other h. absurd (ground (arith, e, h)),
  )
]
