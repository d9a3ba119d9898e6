-- ===== src/Controller/Rpc.antt =====
-- The handlers of the service that retry: a check of the identifier, then the attempts.
pub mod Attached
use baiducloud_cce_csi_drive.Base.{
  ℕ, String, Option, some, ◌==◌, Result, err, if◌then◌else◌, ◌≡◌, Bool, true, List, inl, inr,
  Bool-cases, arith,
}
use baiducloud_cce_csi_drive.Csi.{Code}
use baiducloud_cce_csi_drive.Cloud.Service.{VolumeService, NodeService}
use baiducloud_cce_csi_drive.Controller.Server.{Server, Config}
use baiducloud_cce_csi_drive.Controller.Create.{
  CreateVolumeRequest, CreateVolumeResponse, create_volume,
}
use baiducloud_cce_csi_drive.Controller.Publish.{
  PublishRequest, PublishResponse, controller_publish_volume,
}
use baiducloud_cce_csi_drive.Controller.Unpublish.{UnpublishRequest, controller_unpublish_volume}
use baiducloud_cce_csi_drive.Controller.Retry.{Clock, retry_on_aborted}
use baiducloud_cce_csi_drive.Controller.Retry.Ends.{retry_on_aborted_keeps}
use baiducloud_cce_csi_drive.Controller.Create.Guarded.{
  IsEventual, IsGuarded, create_volume-IsGuarded,
}

module _ {W : Type 0} (vs : VolumeService W) (ns : NodeService W) (config : Config)
    (c : Clock (Server W)) where
  -- `CreateVolume`; `none` where the fuel of the retries runs out.
  unfoldable pub create_volume_rpc :
      ℕ
      → Option ℕ
      → String
      → CreateVolumeRequest
      → Server W
      → Option (Result Code CreateVolumeResponse × Server W)
  create_volume_rpc fuel deadline key req s =
      if req.name == ""
      then some (err Code.invalid_argument, s)
      else retry_on_aborted c (create_volume vs config key req) fuel deadline s

  -- `ControllerPublishVolume`
  unfoldable pub publish_volume_rpc :
      ℕ → Option ℕ → PublishRequest → Server W → Option (Result Code PublishResponse × Server W)
  publish_volume_rpc fuel deadline req s =
      if req.volume_id == ""
      then some (err Code.invalid_argument, s)
      else retry_on_aborted c (controller_publish_volume vs ns config req) fuel deadline s

  -- `ControllerUnpublishVolume`
  unfoldable pub unpublish_volume_rpc :
      ℕ → Option ℕ → UnpublishRequest → Server W → Option (Result Code (Unit {0}) × Server W)
  unpublish_volume_rpc fuel deadline req s =
      if req.volume_id == ""
      then some (err Code.invalid_argument, s)
      else retry_on_aborted c (controller_unpublish_volume vs ns config req) fuel deadline s

  -- Over a cloud that acts as `IsEventual` says, one `CreateVolume` with its retries keeps what
  -- makes creations unique, where waiting changes the cloud only by making volumes visible and
  -- leaves the cache alone.
  pub create_volume_rpc-IsGuarded :
      {created : W → List String} {visible : W → String → Bool}
      → IsEventual vs created visible
      → (n : String)
      → ((t : ℕ) (s : Server W)
          → (created (c.sleep_until t s).cloud ≡ created s.cloud)
            × ((c.sleep_until t s).creating_volume_cache ≡ s.creating_volume_cache)
            × (visible s.cloud n ≡ true → visible (c.sleep_until t s).cloud n ≡ true))
      → (fuel : ℕ) (deadline : Option ℕ) (key : String) (req : CreateVolumeRequest) (s : Server W)
        {r : Result Code CreateVolumeResponse × Server W}
      → IsGuarded vs config created visible n s
      → create_volume_rpc fuel deadline key req s ≡ some r
      → IsGuarded vs config created visible n r.1
  unfolding create_volume_rpc
  create_volume_rpc-IsGuarded {created} {visible} L n sleeps fuel deadline key req s {r} g h =
      elim (Bool-cases (req.name == "")) [
        | inl e ↦ let same : r.1 ≡ s = ground (arith, e) in rw same g
        | inr e ↦
            retry_on_aborted_keeps c (create_volume vs config key req)
              (IsGuarded vs config created visible n)
              (λ t k. create_volume-IsGuarded vs config created visible L n key req t k)
              (λ t u k.
                let (a, b, d) = sleeps t u in ground (arith, k.at_most_one, k.noted, a, b, d))
              fuel deadline s {r = r} g (ground (arith, e))
      ]
