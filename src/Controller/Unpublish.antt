-- ===== src/Controller/Unpublish.antt =====
-- `controllerUnpublishVolume`: one attempt of `ControllerUnpublishVolume`.
use baiducloud_cce_csi_drive.Base.{
  String, none, some, ◌==◌, ok, err, Exec, ◌>>=◌, ◌>>◌, pure, fail, lift, or_fail, refuse_if,
  if◌then◌else◌,
}
use baiducloud_cce_csi_drive.Cloud.Auth.{Auth}
use baiducloud_cce_csi_drive.Cloud.Error.{err_is_not_found}
use baiducloud_cce_csi_drive.Cloud.Volume.{Volume, is_detaching}
use baiducloud_cce_csi_drive.Cloud.Service.{VolumeService, NodeService}
use baiducloud_cce_csi_drive.Csi.{Code, StringMap}
use baiducloud_cce_csi_drive.Controller.Server.{Server, Config, on_cloud, auth_code}
use baiducloud_cce_csi_drive.Controller.Publish.{attachment_to}

pub record UnpublishRequest : Type 0 where
  pub volume_id : String
  pub node_id : String
  pub secrets : StringMap

module _ {W : Type 0} (vs : VolumeService W) (ns : NodeService W) (config : Config) where
  -- Step 3: detaching is asynchronous too.
  unfoldable pub begin_detach : String → Volume → Exec (Server W) Code (Unit {0})
  begin_detach node_id v = do
    detached ← on_cloud (vs.detach v node_id)
    elim detached [ err _ ↦ fail Code.internal | ok _ ↦ fail Code.aborted ]

  unfoldable pub unpublish_from : String → Volume → Exec (Server W) Code (Unit {0})
  unfolding begin_detach
  unpublish_from node_id v = elim (attachment_to node_id v.model.attachments) [
    | none ↦ pure tt
    | some a ↦ if is_detaching v then fail Code.aborted else begin_detach node_id v
  ]

  -- Step 1: the checks of the request, which reach no service.
  unfoldable pub check_unpublish : UnpublishRequest → Exec (Server W) Code Auth
  check_unpublish req = do
    refuse_if (req.volume_id == "") Code.invalid_argument
    refuse_if (req.node_id == "") Code.invalid_argument
    or_fail (lift (config.get_auth req.secrets)) auth_code

  unfoldable pub controller_unpublish_volume : UnpublishRequest → Exec (Server W) Code (Unit {0})
  controller_unpublish_volume req = do
    auth ← check_unpublish req
    found ← on_cloud (vs.get_volume_by_id req.volume_id auth)
    elim found [
      | err e ↦ if err_is_not_found e then pure tt else fail Code.internal
      | ok v ↦ do
        node ← on_cloud (ns.get_node_by_id req.node_id auth)
        elim node [
          | err e ↦ if err_is_not_found e then pure tt else fail Code.internal
          | ok _ ↦ unpublish_from req.node_id v
        ]
    ]
