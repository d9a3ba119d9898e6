-- ===== src/Controller/Delete.antt =====
-- `DeleteVolume`.
use baiducloud_cce_csi_drive.Base.{
  String, ◌==◌, ok, err, Exec, ◌>>=◌, ◌>>◌, pure, fail, lift, or_fail, refuse_if, if◌then◌else◌,
}
use baiducloud_cce_csi_drive.Cloud.Auth.{Auth}
use baiducloud_cce_csi_drive.Cloud.Error.{err_is_not_found}
use baiducloud_cce_csi_drive.Cloud.Service.{VolumeService}
use baiducloud_cce_csi_drive.Csi.{Code, StringMap}
use baiducloud_cce_csi_drive.Controller.Server.{Server, Config, on_cloud, auth_code}

pub record DeleteVolumeRequest : Type 0 where
  pub volume_id : String
  pub secrets : StringMap

module _ {W : Type 0} (vs : VolumeService W) (config : Config) where
  unfoldable pub check_delete : DeleteVolumeRequest → Exec (Server W) Code Auth
  check_delete req = do
    refuse_if (req.volume_id == "") Code.invalid_argument
    or_fail (lift (config.get_auth req.secrets)) auth_code

  unfoldable pub delete_volume : DeleteVolumeRequest → Exec (Server W) Code (Unit {0})
  delete_volume req = do
    auth ← check_delete req
    found ← on_cloud (vs.get_volume_by_id req.volume_id auth)
    elim found [
      | err e ↦ if err_is_not_found e then pure tt else fail Code.internal
      | ok v ↦ do
        deleted ← on_cloud (vs.delete v)
        elim deleted [ ok _ ↦ pure tt | err _ ↦ fail Code.internal ]
    ]
