-- ===== src/Controller/Rpc/Attached.antt =====
-- `ControllerPublishVolume` waits for a volume to be attached.
use baiducloud_cce_csi_drive.Base.{ℕ, ◌<◌, true, false, Option, some, ◌≡◌, ◌≢◌, ok, arith, eq_iff}
use baiducloud_cce_csi_drive.Cloud.Auth.{Auth}
use baiducloud_cce_csi_drive.Cloud.Volume.{Volume, Attachment, is_attached}
use baiducloud_cce_csi_drive.Cloud.Service.{VolumeService, NodeService}
use baiducloud_cce_csi_drive.Controller.Server.{Server, Config}
use baiducloud_cce_csi_drive.Controller.Publish.{
  PublishRequest, attachment_to, check_publish, published, publish_to, controller_publish_volume,
}
use baiducloud_cce_csi_drive.Controller.Retry.{Clock, is_aborted, wait_deadline, retry_on_aborted}
use baiducloud_cce_csi_drive.Controller.Retry.Ends.{IsClock}
use baiducloud_cce_csi_drive.Controller.Retry.Live.{attempt_state, IsDone, retry_on_aborted-IsDone}
use baiducloud_cce_csi_drive.Controller.Rpc.{publish_volume_rpc}

module _ {W : Type 0} (vs : VolumeService W) (ns : NodeService W) (config : Config) where
  -- The services show the node, and the volume attached to it.
  pub record IsAttachedIn (req : PublishRequest) (s : Server W) : Type 0 where
    pub auth : Auth
    pub volume : Volume
    pub attachment : Attachment
    pub authorised : (check_publish vs ns config req s).0 ≡ ok auth
    pub node_found : (ns.get_node_by_id req.node_id auth s.cloud).0 ≡ ok tt
    pub volume_found :
        (vs.get_volume_by_id req.volume_id auth (ns.get_node_by_id req.node_id auth s.cloud).1).0
        ≡ ok volume
    pub attached : is_attached volume ≡ true
    pub at_node : attachment_to req.node_id volume.model.attachments ≡ some attachment

  attempt_ok :
      (req : PublishRequest) (s : Server W)
      → IsAttachedIn req s
      → is_aborted (controller_publish_volume vs ns config req s).0 ≡ false
  unfolding controller_publish_volume check_publish publish_to published
  attempt_ok req s h =
      ground (arith, h.authorised, h.node_found, h.volume_found, h.attached, h.at_node)

  module _ (c : Clock (Server W)) where
    -- Over a clock that does not run backwards, where the volume of a request is attached to its node
    -- when the attempt of a number, should it come to it, begins before the deadline of the wait,
    -- and the fuel allows for it: publishing returns, with the result of an attempt of at most this
    -- number that is not aborted.
    pub publish_volume_rpc-IsDone :
        (req : PublishRequest)
        → IsClock c (controller_publish_volume vs ns config req)
        → (n fuel : ℕ) (deadline : Option ℕ) (s : Server W) → req.volume_id ≢ ""
        → n < fuel
        → c.now (attempt_state c (controller_publish_volume vs ns config req) n s)
          < wait_deadline c (controller_publish_volume vs ns config req) deadline s
        → IsAttachedIn req (attempt_state c (controller_publish_volume vs ns config req) n s)
        → IsDone c
            (controller_publish_volume vs ns config req)
            n
            s
            (publish_volume_rpc vs ns config c fuel deadline req s)
    unfolding publish_volume_rpc
    publish_volume_rpc-IsDone req L n fuel deadline s named p t h =
        let f = controller_publish_volume vs ns config req in
        let e : publish_volume_rpc vs ns config c fuel deadline req s
            ≡ retry_on_aborted c f fuel deadline s =
          ground (arith, eq_iff req.volume_id "", named) in
        rw e (retry_on_aborted-IsDone c f L n fuel deadline s p t (attempt_ok req _ h))
