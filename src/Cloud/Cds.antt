-- ===== src/Cloud/Cds.antt =====
-- pkg/cloud/cds.go: the volume service over the SDK's client, and pkg/cloud/bcc.go: the node
-- service. The listing of `GetVolumeByName` loops until a page is the last one: `fuel` bounds the
-- pages that the model reads.
pub mod Listing
pub mod Eventual
use baiducloud_cce_csi_drive.Base.{
  ℕ, zero, suc, String, Bool, true, false, Option, none, some, List, [], ◌∷◌, ◌++◌, ◌==◌, Result,
  ok, err, Exec, ◌>>=◌, ◌>>◌, pure, fail, or_fail, attempt, refuse_if, if◌then◌else◌,
}
use baiducloud_cce_csi_drive.Cloud.Error.{CloudError, service, multi_volumes, other, unfinished}
use baiducloud_cce_csi_drive.Cloud.Auth.{Auth}
use baiducloud_cce_csi_drive.Cloud.Volume.{Volume, VolumeModel, Attachment}
use baiducloud_cce_csi_drive.Cloud.Service.{
  CreateCdsVolumeArgs, ResizeCdsVolumeArgs, VolumeService, NodeService,
}
use baiducloud_cce_csi_drive.Cloud.Sdk.{
  SdkError, service_error, client_error, CreateArgs, Page, Client,
}

abbrev from_sdk : SdkError → CloudError
from_sdk (service_error status) = service status
from_sdk client_error = other

-- `volume.Name == name` over one page.
unfoldable pub named : String → List VolumeModel → List VolumeModel
named name [] = []
named name (v ∷ vs) = let rest = named name vs in if v.name == name then v ∷ rest else rest

-- The tests on `len(volumes)` after the loop.
unfoldable pub only_volume : Auth → List VolumeModel → Result CloudError Volume
only_volume auth [] = err (service 404)
only_volume auth (v ∷ []) = ok (record { model = v; client = auth })
only_volume auth (v ∷ w ∷ vs) = err multi_volumes

-- The check of `len(result.VolumeIds) != 1`.
only_id : {W : Type 0} → List String → Exec W CloudError String
only_id (id ∷ []) = pure id
only_id _ = fail other

module _ {W : Type 0} (client : Client W) where
  unfoldable pub create_args : CreateCdsVolumeArgs → CreateArgs
  create_args args = record {
    name = args.name;
    description = args.description;
    snapshot_id = args.snapshot_id;
    zone_name = args.zone_name;
    purchase_count = 1;
    cds_size_in_gb = args.cds_size_in_gb;
    storage_type = args.storage_type;
    billing = record {
      payment_timing = args.payment_timing;
      reservation =
          if args.payment_timing == client.payment_timing_pre_paid
          then some (record {
            reservation_length = args.reservation_length;
            reservation_time_unit = args.reservation_time_unit;
          })
          else none;
    };
    encrypt_key = args.encrypt_key;
    client_token = args.client_token;
  }

  unfoldable pub create_volume : CreateCdsVolumeArgs → Auth → Exec W CloudError String
  unfolding only_id
  create_volume args auth = do
    ids ← or_fail (client.create_cds_volume auth (create_args args)) from_sdk
    only_id ids

  unfoldable pub get_volume_by_id : String → Auth → Exec W CloudError Volume
  get_volume_by_id id auth = do
    v ← or_fail (client.get_cds_volume_detail auth id) from_sdk
    pure (record { model = v; client = auth })

  unfoldable pub list_loop :
      ℕ
      → Auth
      → String
      → (marker : String) → List VolumeModel
      → Exec W CloudError (List VolumeModel)
  list_loop zero auth name marker volumes = fail unfinished
  list_loop (suc fuel) auth name marker volumes = do
    page ← or_fail (client.list_cds_volume auth 100 marker) from_sdk
    let volumes' = volumes ++ named name page.volumes
    elim page.is_truncated [
      | true ↦ list_loop fuel auth name page.next_marker volumes'
      | false ↦ pure volumes'
    ]

  unfoldable pub get_volume_by_name : ℕ → String → Auth → Exec W CloudError Volume
  get_volume_by_name fuel name auth = do
    volumes ← list_loop fuel auth name "" []
    λ w. (only_volume auth volumes, w)

  unfoldable pub delete : Volume → Exec W CloudError (Unit {0})
  delete v = do
    refuse_if (v.model.id == "") other
    or_fail (client.delete_cds_volume v.client v.model.id) from_sdk

  unfoldable pub attach : Volume → String → Exec W CloudError Attachment
  attach v instance_id = do
    refuse_if (v.model.id == "") other
    refuse_if (instance_id == "") other
    or_fail (client.attach_cds_volume v.client v.model.id instance_id) from_sdk

  unfoldable pub detach : Volume → String → Exec W CloudError (Unit {0})
  detach v instance_id = do
    refuse_if (v.model.id == "") other
    refuse_if (instance_id == "") other
    or_fail (client.detach_cds_volume v.client v.model.id instance_id) from_sdk

  unfoldable pub resize : Volume → ResizeCdsVolumeArgs → Exec W CloudError (Unit {0})
  resize v args = do
    refuse_if (v.model.id == "") other
    or_fail
        (client.resize_cds_volume v.client v.model.id args.new_cds_size_in_gb args.new_volume_type)
        from_sdk

  -- `NewCDSService`, for an endpoint that is not empty.
  abbrev pub cds_service : ℕ → VolumeService W
  cds_service fuel = record {
    create_volume = create_volume;
    get_volume_by_id = get_volume_by_id;
    get_volume_by_name = get_volume_by_name fuel;
    delete = delete;
    attach = attach;
    detach = detach;
    resize = resize;
  }

  unfoldable pub get_node_by_id : String → Auth → Exec W CloudError (Unit {0})
  get_node_by_id node_id auth = or_fail (client.get_instance_detail auth node_id) from_sdk

  abbrev pub bcc_service : NodeService W
  bcc_service = record { get_node_by_id = get_node_by_id }
