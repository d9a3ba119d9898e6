-- ===== src/Controller/Validate.antt =====
-- `ValidateVolumeCapabilities`.
use baiducloud_cce_csi_drive.Base.{
  String, Option, List, ◌==◌, ok, err, Exec, ◌>>=◌, ◌>>◌, pure, fail, lift, or_fail, refuse_if,
  if◌then◌else◌,
}
use baiducloud_cce_csi_drive.Cloud.Error.{err_is_not_found}
use baiducloud_cce_csi_drive.Cloud.Service.{VolumeService}
use baiducloud_cce_csi_drive.Csi.{Code, StringMap, VolumeCapability}
use baiducloud_cce_csi_drive.Controller.Capability.{volume_caps, check_volume_capabilities}
use baiducloud_cce_csi_drive.Controller.Server.{Server, Config, on_cloud, auth_code}

pub record ValidateRequest : Type 0 where
  pub volume_id : String
  pub volume_capabilities : List (Option VolumeCapability)
  pub secrets : StringMap

module _ {W : Type 0} (vs : VolumeService W) (config : Config) where
  -- The response confirms the capabilities of the request.
  unfoldable pub validate_volume_capabilities :
      ValidateRequest → Exec (Server W) Code (List (Option VolumeCapability))
  validate_volume_capabilities req = do
    refuse_if (req.volume_id == "") Code.invalid_argument
    or_fail (lift (check_volume_capabilities volume_caps req.volume_capabilities))
        (λ _. Code.invalid_argument)
    auth ← or_fail (lift (config.get_auth req.secrets)) auth_code
    found ← on_cloud (vs.get_volume_by_id req.volume_id auth)
    elim found [
      | err e ↦ fail (if err_is_not_found e then Code.not_found else Code.internal)
      | ok _ ↦ pure req.volume_capabilities
    ]
