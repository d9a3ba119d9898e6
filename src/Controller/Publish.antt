-- ===== src/Controller/Publish.antt =====
-- `controllerPublishVolume`: one attempt of `ControllerPublishVolume`.
use baiducloud_cce_csi_drive.Base.{
  String, Option, none, some, List, [], ◌∷◌, ◌==◌, ok, err, Exec, ◌>>=◌, ◌>>◌, pure, fail, lift,
  or_fail, refuse_if, if◌then◌else◌,
}
use baiducloud_cce_csi_drive.Cloud.Auth.{Auth}
use baiducloud_cce_csi_drive.Cloud.Error.{err_is_not_found}
use baiducloud_cce_csi_drive.Cloud.Volume.{
  Volume, Attachment, is_attached, is_attaching, is_available,
}
use baiducloud_cce_csi_drive.Cloud.Service.{VolumeService, NodeService}
use baiducloud_cce_csi_drive.Csi.{Code, StringMap, VolumeCapability}
use baiducloud_cce_csi_drive.Controller.Capability.{volume_caps, check_volume_capabilities}
use baiducloud_cce_csi_drive.Controller.Server.{Server, Config, on_cloud, auth_code}

pub record PublishRequest : Type 0 where
  pub volume_id : String
  pub node_id : String
  pub volume_capability : Option VolumeCapability
  pub secrets : StringMap

-- The publish context, a map of the two keys.
pub record PublishResponse : Type 0 where
  pub dev_name : String
  pub serial : String

-- The publish context of the response, with the keys `DevNameKey` and `SerialKey`.
unfoldable pub context_map : PublishResponse → List (String × String)
context_map r = ("devName", r.dev_name) ∷ ("serial", r.serial) ∷ []

-- `isAttachedToNode`: the first attachment to the node.
unfoldable pub attachment_to : String → List Attachment → Option Attachment
attachment_to node_id [] = none
attachment_to node_id (a ∷ as') =
    let later = attachment_to node_id as' in if a.instance_id == node_id then some a else later

module _ {W : Type 0} (vs : VolumeService W) (ns : NodeService W) (config : Config) where
  -- An attached volume: it is published already, or it is at another node.
  unfoldable pub published : String → Volume → Exec (Server W) Code PublishResponse
  published node_id v = elim (attachment_to node_id v.model.attachments) [
    | some a ↦ pure (record { dev_name = a.device; serial = a.serial })
    | none ↦ fail Code.failed_precondition
  ]

  -- Step 3: attaching is asynchronous, so that the attempt ends by `Aborted` when it has begun.
  unfoldable pub begin_attach : String → Volume → Exec (Server W) Code PublishResponse
  begin_attach node_id v = do
    attached ← on_cloud (vs.attach v node_id)
    elim attached [ err _ ↦ fail Code.internal | ok _ ↦ fail Code.aborted ]

  unfoldable pub publish_to : String → Volume → Exec (Server W) Code PublishResponse
  unfolding published begin_attach
  publish_to node_id v =
      if is_attached v
      then published node_id v
      else if is_attaching v
      then fail Code.aborted
      else if is_available v
      then begin_attach node_id v
      else fail Code.unavailable

  -- Step 1: the checks of the request, which reach no service.
  unfoldable pub check_publish : PublishRequest → Exec (Server W) Code Auth
  check_publish req = do
    refuse_if (req.volume_id == "") Code.invalid_argument
    refuse_if (req.node_id == "") Code.invalid_argument
    or_fail (lift (check_volume_capabilities volume_caps (req.volume_capability ∷ [])))
        (λ _. Code.invalid_argument)
    or_fail (lift (config.get_auth req.secrets)) auth_code

  unfoldable pub controller_publish_volume : PublishRequest → Exec (Server W) Code PublishResponse
  controller_publish_volume req = do
    auth ← check_publish req
    node ← on_cloud (ns.get_node_by_id req.node_id auth)
    elim node [
      | err e ↦ fail (if err_is_not_found e then Code.not_found else Code.internal)
      | ok _ ↦ do
        found ← on_cloud (vs.get_volume_by_id req.volume_id auth)
        elim found [
          | err e ↦ fail (if err_is_not_found e then Code.not_found else Code.internal)
          | ok v ↦ publish_to req.node_id v
        ]
    ]
