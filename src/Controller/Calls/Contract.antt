-- ===== src/Controller/Calls/Contract.antt =====
-- What the controller as a whole asks of the cloud, over any sequence of requests.
use baiducloud_cce_csi_drive.Base.{
  String, true, false, none, List, [], ◌∷◌, ◌++◌, ◌≡◌, ◌≢◌, refl, ap, ◌∙◌, ◌⊎◌, inl, inr,
}
use baiducloud_cce_csi_drive.Base.Int.{ltb_ℤ}
use baiducloud_cce_csi_drive.Cloud.Volume.{Volume, VolumeStatus}
use baiducloud_cce_csi_drive.Cloud.Service.{VolumeService, NodeService}
use baiducloud_cce_csi_drive.Cloud.Calls.{
  Call, create, delete, attach, detach, resize, IsLogged, Issued,
}
use baiducloud_cce_csi_drive.Controller.Server.{Server, Config}
use baiducloud_cce_csi_drive.Controller.Create.{CreateVolumeRequest, create_volume}
use baiducloud_cce_csi_drive.Controller.Delete.{DeleteVolumeRequest, delete_volume}
use baiducloud_cce_csi_drive.Controller.Publish.{
  PublishRequest, attachment_to, controller_publish_volume,
}
use baiducloud_cce_csi_drive.Controller.Unpublish.{UnpublishRequest, controller_unpublish_volume}
use baiducloud_cce_csi_drive.Controller.Expand.{ExpandRequest, controller_expand_volume}
use baiducloud_cce_csi_drive.Controller.Calls.Attaching.{
  Fetched, controller_publish_volume_calls, controller_unpublish_volume_calls, delete_volume_calls,
}
use baiducloud_cce_csi_drive.Controller.Calls.Sizing.{controller_expand_volume_calls}
use baiducloud_cce_csi_drive.Controller.Calls.Creating.{Unnamed, create_volume_calls}

module _ {W : Type 0} (vs : VolumeService W) (ns : NodeService W) (config : Config) where
  -- The service answered, to some request for a volume, with a volume of the identifier.
  abbrev pub Known : String → (Volume → Type 0) → Type 0
  Known id T =
      (v : Volume) × (asked : String) × Fetched vs ns config asked v × (v.model.id ≡ id) × T v

  -- What the controller may ask of the cloud: to create under a name that the service knows no volume
  -- of; and, of volumes as the service described them, to delete them, to attach those that are
  -- available, to detach from a node those that are attached to it and not detaching yet, and to
  -- resize, never to a smaller size, those that are available or, online, in use.
  abbrev pub Allowed : Call → Type 0
  Allowed (create name) = Unnamed vs ns config name
  Allowed (delete id) = Known id (λ v. Unit {0})
  Allowed (attach id node_id) = Known id (λ v. v.model.status ≡ VolumeStatus.available)
  Allowed (detach id node_id) = Known id (λ v.
      (attachment_to node_id v.model.attachments ≢ none)
      × (v.model.status ≢ VolumeStatus.detaching))
  Allowed (resize id size) = Known id (λ v.
      (ltb_ℤ size v.model.disk_size_in_gb ≡ false)
      × ((v.model.status ≡ VolumeStatus.available)
          ⊎ ((config.enable_online_expansion ≡ true) × (v.model.status ≡ VolumeStatus.in_use))))

  abbrev pub AllAllowed : List Call → Type 0
  AllAllowed [] = Unit
  AllAllowed (c ∷ cs) = Allowed c × AllAllowed cs

  module _ (log : W → List Call) where
    -- Attempts of the handlers, and changes of the server from outside that make no call.
    pub data Handled (s : Server W) : Server W → Type 0 where
      creates :
          (key : String) (req : CreateVolumeRequest)
          → Handled s (create_volume vs config key req s).1
      deletes : (req : DeleteVolumeRequest) → Handled s (delete_volume vs config req s).1
      publishes :
          (req : PublishRequest) → Handled s (controller_publish_volume vs ns config req s).1
      unpublishes :
          (req : UnpublishRequest) → Handled s (controller_unpublish_volume vs ns config req s).1
      expands : (req : ExpandRequest) → Handled s (controller_expand_volume vs config req s).1
      other : (t : Server W) → log t.cloud ≡ log s.cloud → Handled s t

    pub data Served (s : Server W) : Server W → Type 0 where
      here : Served s s
      next : {t u : Server W} → Served s t → Handled t u → Served s u

    Issued-map :
        {P Q : Call → Type 0} {before after : List Call}
        → ((c : Call) → P c → Q c)
        → Issued P before after
        → Issued Q before after
    Issued-map f (inl same) = inl same
    Issued-map f (inr (c, more, h)) = inr (c, more, f c h)

    module _ (L : IsLogged vs ns log) where
      Handled-Allowed : {s t : Server W} → Handled s t → Issued Allowed (log s.cloud) (log t.cloud)
      Handled-Allowed {s} (creates key req) =
          Issued-map (λ c (e, unnamed, _). rw e unnamed)
            (create_volume_calls vs ns config log L key req s)
      Handled-Allowed {s} (deletes req) =
          Issued-map (λ c (v, fetched, e). rw e (v, req.volume_id, fetched, refl, tt))
            (delete_volume_calls vs ns config log L req s)
      Handled-Allowed {s} (publishes req) =
          Issued-map (λ c (v, fetched, e, free). rw e (v, req.volume_id, fetched, refl, free))
            (controller_publish_volume_calls vs ns config log L req s)
      Handled-Allowed {s} (unpublishes req) =
          Issued-map
            (λ c (v, fetched, e, held, steady).
              rw e (v, req.volume_id, fetched, refl, (held, steady)))
            (controller_unpublish_volume_calls vs ns config log L req s)
      Handled-Allowed {s} (expands req) =
          Issued-map
            (λ c (v, size, fetched, e, (asked, grows, small, may)).
              rw e (v, req.volume_id, fetched, refl, (grows, may)))
            (controller_expand_volume_calls vs ns config log L req s)
      Handled-Allowed (other t e) = inl e

      -- Over services whose calls a log tells: after any sequence of attempts of the handlers and of
      -- changes from outside, the calls that the controller has added to the log are all allowed.
      pub calls_of_controller :
          {s t : Server W}
          → Served s t
          → (calls : List Call) × (log t.cloud ≡ calls ++ log s.cloud) × AllAllowed calls
      calls_of_controller here = ([], refl, tt)
      calls_of_controller (next r st) =
          let (calls, e, h) = calls_of_controller r in
          elim (Handled-Allowed st) [
            | inl same ↦ (calls, same ∙ e, h)
            | inr (c, more, may) ↦ (c ∷ calls, more ∙ ap (◌∷◌ c) e, (may, h))
          ]
