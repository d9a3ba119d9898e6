-- ===== src/Controller/Create/Errors.antt =====
-- `createVolume` over the service of pkg/cloud/cds.go: a refused creation is always `Internal`.
use baiducloud_cce_csi_drive.Base.{ℕ, String, ◌≡◌, ◌≢◌, arith, err, inl, inr, Result-cases}
use baiducloud_cce_csi_drive.Cloud.Error.{CloudError}
use baiducloud_cce_csi_drive.Cloud.Sdk.{Client}
use baiducloud_cce_csi_drive.Cloud.Cds.{cds_service, create_volume}
use baiducloud_cce_csi_drive.Cloud.Cds.Listing.{create_volume_not_invalid}
use baiducloud_cce_csi_drive.Csi.{Code}
use baiducloud_cce_csi_drive.Controller.Server.{Server, Config}
use baiducloud_cce_csi_drive.Controller.Create.{Wanted, create_args, fetch_created, new_volume}

module _ {W : Type 0} (client : Client W) (fuel : ℕ) (config : Config) where
  -- Over the volume service of the driver, whatever the SDK answers, creating a volume never reports an
  -- invalid argument, and where the SDK refuses the creation it reports an internal error.
  pub new_volume_refused :
      (name : String) (w : Wanted) (s : Server W)
      → ((new_volume (cds_service client fuel) config name w s).0 ≢ err Code.invalid_argument)
        × ((e : CloudError)
            → (create_volume client
                (create_args (cds_service client fuel) config name w)
                w.auth
                s.cloud).0
              ≡ err e
            → (new_volume (cds_service client fuel) config name w s).0 ≡ err Code.internal)
  unfolding new_volume fetch_created
  new_volume_refused name w s =
      let args = create_args (cds_service client fuel) config name w in
      (
        λ h. elim (Result-cases (create_volume client args w.auth s.cloud).0) [
          | inl (id, e) ↦ ground (arith, e)
          | inr (x, e) ↦ ground (arith, e, create_volume_not_invalid client args w.auth s.cloud e)
        ],
        λ x e. ground (arith, e, create_volume_not_invalid client args w.auth s.cloud e),
      )
