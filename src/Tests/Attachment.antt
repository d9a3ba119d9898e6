-- ===== src/Tests/Attachment.antt =====
-- Publishing, unpublishing, deleting and expanding over a cloud with one volume.
use baiducloud_cce_csi_drive.Base.{
  ◌*◌, true, none, some, List, [], ◌∷◌, ◌++◌, ◌≡◌, ◌≢◌, refl, arith, ok, lookup,
}
use baiducloud_cce_csi_drive.Base.Int.{ℤ, pos}
use baiducloud_cce_csi_drive.Util.Size.{gb, size_gb_to_bytes, round_up_gb}
use baiducloud_cce_csi_drive.Cloud.Auth.{choose_auth}
use baiducloud_cce_csi_drive.Cloud.Volume.{Volume, VolumeStatus, Attachment}
use baiducloud_cce_csi_drive.Cloud.Service.{VolumeService, NodeService}
use baiducloud_cce_csi_drive.Cloud.Calls.{
  Call, attach, detach, delete, resize, Issued, with_log, nodes_with_log, with_log-IsLogged,
}
use baiducloud_cce_csi_drive.Csi.{is_block, get_mode}
use baiducloud_cce_csi_drive.Controller.Capacity.{get_volume_size_gb, size_in_gb_meet_cap_range}
use baiducloud_cce_csi_drive.Controller.Capability.{check_volume_capabilities}
use baiducloud_cce_csi_drive.Controller.Capacity.Laws.{range}
use baiducloud_cce_csi_drive.Controller.Publish.{
  check_publish, publish_to, PublishRequest, PublishResponse, attachment_to,
  controller_publish_volume,
}
use baiducloud_cce_csi_drive.Controller.Unpublish.{
  UnpublishRequest, check_unpublish, unpublish_from, controller_unpublish_volume,
}
use baiducloud_cce_csi_drive.Controller.Delete.{DeleteVolumeRequest, check_delete, delete_volume}
use baiducloud_cce_csi_drive.Controller.Expand.{
  ExpandRequest, check_expand, begin_resize, expand, controller_expand_volume,
}
use baiducloud_cce_csi_drive.Controller.Calls.Attaching.{
  Fetched, controller_publish_volume_calls, controller_unpublish_volume_calls, delete_volume_calls,
}
use baiducloud_cce_csi_drive.Controller.Calls.Answers.{
  controller_publish_volume_ok, controller_unpublish_volume_ok,
}
use baiducloud_cce_csi_drive.Controller.Calls.Sizing.{
  MayResize, controller_expand_volume_calls, expand_resized,
}
use baiducloud_cce_csi_drive.Controller.Calls.Contract.{
  AllAllowed, publishes, unpublishes, here, next, calls_of_controller,
}
use baiducloud_cce_csi_drive.Tests.Clouds.{
  config, secrets, key_auth, writer, volume, one_volume, any_node, quiet,
}

-- The log is the state's second part.
abbrev World : Type 0
World = Unit {0} × List Call

abbrev calls : World → List Call
calls w = w.1

abbrev service : Volume → VolumeService World
service v = with_log (one_volume v)

abbrev nodes : NodeService World
nodes = nodes_with_log any_node

abbrev free : Volume
free = volume "v-1" (pos 100) VolumeStatus.available []

abbrev at_node : Attachment
at_node = record { instance_id = "i-1"; device = "/dev/vdb"; serial = "s-1" }

abbrev used : Volume
used = volume "v-1" (pos 100) VolumeStatus.in_use (at_node ∷ [])

abbrev publish : PublishRequest
publish = record {
  volume_id = "v-1";
  node_id = "i-1";
  volume_capability = some writer;
  secrets = secrets;
}

abbrev unpublish : UnpublishRequest
unpublish = record { volume_id = "v-1"; node_id = "i-1"; secrets = secrets }

abbrev bigger : ExpandRequest
bigger = record {
  volume_id = "v-1";
  volume_capability = some writer;
  capacity_range = some (range (200 * gb) 0);
  secrets = secrets;
}

-- A request to publish attaches the volume; one to unpublish finds it unattached, and asks nothing.
calls_of_controller_example :
    (added : List Call) × (attach "v-1" "i-1" ∷ [] ≡ added ++ [])
    × AllAllowed (service free) nodes config added
unfolding controller_publish_volume check_publish check_volume_capabilities get_mode choose_auth
    lookup publish_to controller_unpublish_volume check_unpublish unpublish_from attachment_to
calls_of_controller_example =
    calls_of_controller (service free) nodes config calls
      (with_log-IsLogged (one_volume free) any_node) {s = quiet}
      (next (next here (publishes publish)) (unpublishes unpublish))

controller_publish_volume_calls_example :
    Issued
      (λ c.
        (v : Volume) × Fetched (service free) nodes config "v-1" v
        × (c ≡ attach v.model.id "i-1")
        × (v.model.status ≡ VolumeStatus.available))
      []
      (attach "v-1" "i-1" ∷ [])
unfolding controller_publish_volume check_publish check_volume_capabilities get_mode choose_auth
    lookup publish_to
controller_publish_volume_calls_example =
    controller_publish_volume_calls (service free) nodes config calls
      (with_log-IsLogged (one_volume free) any_node) publish quiet

controller_unpublish_volume_calls_example :
    Issued
      (λ c.
        (v : Volume) × Fetched (service used) nodes config "v-1" v
        × (c ≡ detach v.model.id "i-1")
        × (attachment_to "i-1" v.model.attachments ≢ none)
        × (v.model.status ≢ VolumeStatus.detaching))
      []
      (detach "v-1" "i-1" ∷ [])
unfolding controller_unpublish_volume check_unpublish choose_auth lookup unpublish_from
    attachment_to
controller_unpublish_volume_calls_example =
    controller_unpublish_volume_calls (service used) nodes config calls
      (with_log-IsLogged (one_volume used) any_node) unpublish quiet

abbrev deletion : DeleteVolumeRequest
deletion = record { volume_id = "v-1"; secrets = secrets }

deletion_called :
    Issued
      (λ c. (v : Volume) × Fetched (service free) nodes config "v-1" v × (c ≡ delete v.model.id))
      []
      (delete "v-1" ∷ [])
unfolding delete_volume check_delete choose_auth lookup
deletion_called =
    delete_volume_calls (service free) nodes config calls
      (with_log-IsLogged (one_volume free) any_node) deletion quiet

controller_expand_volume_calls_example :
    Issued
      (λ c.
        (v : Volume) × (size : ℤ) × Fetched (service free) nodes config "v-1" v
        × (c ≡ resize v.model.id size)
        × MayResize
            (service free)
            nodes
            config
            calls
            (with_log-IsLogged (one_volume free) any_node)
            bigger
            v
            size)
      []
      (resize "v-1" (pos 200) ∷ [])
unfolding controller_expand_volume check_expand choose_auth lookup expand begin_resize
    get_volume_size_gb size_in_gb_meet_cap_range size_gb_to_bytes round_up_gb
controller_expand_volume_calls_example =
    controller_expand_volume_calls (service free) nodes config calls
      (with_log-IsLogged (one_volume free) any_node) bigger quiet

controller_publish_volume_ok_example :
    (v : Volume) × (a : Attachment) × Fetched (service used) nodes config "v-1" v
    × (v.model.status ≡ VolumeStatus.in_use)
    × (attachment_to "i-1" v.model.attachments ≡ some a)
    × (a.instance_id ≡ "i-1")
    × (◌≡◌ {A = PublishResponse}
        (record { dev_name = "/dev/vdb"; serial = "s-1" })
        (record { dev_name = a.device; serial = a.serial }))
unfolding controller_publish_volume check_publish check_volume_capabilities get_mode choose_auth
    lookup publish_to attachment_to
controller_publish_volume_ok_example =
    controller_publish_volume_ok (service used) nodes config publish quiet
      {r = record { dev_name = "/dev/vdb"; serial = "s-1" }} refl

controller_unpublish_volume_ok_example : attachment_to "i-1" free.model.attachments ≡ none
unfolding controller_unpublish_volume check_unpublish choose_auth lookup unpublish_from
    attachment_to
controller_unpublish_volume_ok_example =
    controller_unpublish_volume_ok (service free) nodes config unpublish quiet key_auth free refl
      refl refl refl

abbrev grown : Volume
grown = volume "v-1" (pos 200) VolumeStatus.in_use (at_node ∷ [])

grown_enough : expand (service grown) config bigger grown quiet ≡ (
  ok (record { capacity_bytes = size_gb_to_bytes (pos 200); node_expansion_required = true }),
  quiet,
)
unfolding get_volume_size_gb size_gb_to_bytes round_up_gb is_block
grown_enough =
    expand_resized (service grown) nodes config calls
      (with_log-IsLogged (one_volume grown) any_node) (200 * gb) 0 (omega arith) bigger grown quiet
      refl refl
