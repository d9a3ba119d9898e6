-- ===== src/Controller/Capability.antt =====
-- `checkVolumeCapabilities`, for the access modes that a driver supports.
use baiducloud_cce_csi_drive.Base.{
  Bool, true, false, ◌||◌, Option, List, [], ◌∷◌, ◌≡◌, ◌≢◌, ◌↔◌, ◌⊎◌, refl, arith, eqb, Result, ok,
  err, if◌then◌else◌,
}
use baiducloud_cce_csi_drive.Csi.{AccessMode, VolumeCapability, get_mode, single_node_writer}

pub data CapabilityError : Type 0 where
  empty_capabilities unsupported_mode : CapabilityError

abbrev pub volume_caps : List AccessMode
volume_caps = single_node_writer ∷ []

-- The inner loop over the supported modes.
unfoldable pub supports : List AccessMode → AccessMode → Bool
supports [] mode = false
supports (m ∷ ms) mode = eqb m mode || supports ms mode

check_each : List AccessMode → List (Option VolumeCapability) → Result CapabilityError (Unit {0})
unfolding supports
check_each caps [] = ok tt
check_each caps (r ∷ rs) =
    let rest = check_each caps rs in
    if supports caps (get_mode r) then rest else err unsupported_mode

unfoldable pub check_volume_capabilities :
    List AccessMode → List (Option VolumeCapability) → Result CapabilityError (Unit {0})
unfolding check_each
check_volume_capabilities caps [] = err empty_capabilities
check_volume_capabilities caps (r ∷ rs) = check_each caps (r ∷ rs)

abbrev pub OneOf : List AccessMode → AccessMode → Type 0
OneOf [] m = ⊥
OneOf (c ∷ cs) m = (c ≡ m) ⊎ OneOf cs m

-- There is a capability, and the mode of each is one of the given modes.
abbrev pub AllIn : List AccessMode → List (Option VolumeCapability) → Type 0
AllIn caps [] = Unit
AllIn caps (r ∷ rs) = OneOf caps (get_mode r) × AllIn caps rs

supports_iff : (caps : List AccessMode) (m : AccessMode) → (supports caps m ≡ true) ↔ OneOf caps m
unfolding supports
supports_iff [] m = (λ e. cc, λ h. absurd h)
supports_iff (c ∷ cs) m = ground (arith, supports_iff cs m)

check_each_iff :
    (caps : List AccessMode) (rs : List (Option VolumeCapability))
    → (check_each caps rs ≡ ok tt) ↔ AllIn caps rs
unfolding check_each
check_each_iff caps [] = (λ e. tt, λ h. refl)
check_each_iff caps (r ∷ rs) =
    ground (arith, supports_iff caps (get_mode r), check_each_iff caps rs)

-- The capabilities of a request pass the check exactly when there is one and the access mode of
-- each is among the supported modes, a missing mode counting as unknown.
pub check_volume_capabilities_iff :
    (caps : List AccessMode) (rs : List (Option VolumeCapability))
    → (check_volume_capabilities caps rs ≡ ok tt) ↔ ((rs ≢ []) × AllIn caps rs)
unfolding check_volume_capabilities
check_volume_capabilities_iff caps [] = (λ e. cc, λ h. absurd (h.0 refl))
check_volume_capabilities_iff caps (r ∷ rs) =
    (λ e. (λ e'. cc, (check_each_iff caps (r ∷ rs)).0 e), λ h. (check_each_iff caps (r ∷ rs)).1 h.1)
