-- ===== src/Cloud/Service.antt =====
-- The interfaces of pkg/cloud through which the drivers reach the cloud, over an unknown state `W`
-- of the cloud: `CDSVolumeService` with the effects of `CDSVolume`, and `NodeService`.
use baiducloud_cce_csi_drive.Base.{String, List, Exec}
use baiducloud_cce_csi_drive.Base.Int.{ℤ}
use baiducloud_cce_csi_drive.Cloud.Error.{CloudError}
use baiducloud_cce_csi_drive.Cloud.Auth.{Auth}
use baiducloud_cce_csi_drive.Cloud.Volume.{Volume, Attachment}

pub record CreateCdsVolumeArgs : Type 0 where
  pub name : String
  pub description : String
  pub snapshot_id : String
  pub zone_name : String
  pub cds_size_in_gb : ℤ
  pub storage_type : String
  pub encrypt_key : String
  pub client_token : String
  pub payment_timing : String
  pub reservation_length : ℤ
  pub reservation_time_unit : String
  pub tags : List (String × String)

pub record ResizeCdsVolumeArgs : Type 0 where
  pub new_cds_size_in_gb : ℤ
  pub new_volume_type : String

pub record VolumeService (W : Type 0) : Type 0 where
  pub create_volume : CreateCdsVolumeArgs → Auth → Exec W CloudError String
  pub get_volume_by_id : String → Auth → Exec W CloudError Volume
  pub get_volume_by_name : String → Auth → Exec W CloudError Volume
  pub delete : Volume → Exec W CloudError (Unit {0})
  pub attach : Volume → String → Exec W CloudError Attachment
  pub detach : Volume → String → Exec W CloudError (Unit {0})
  pub resize : Volume → ResizeCdsVolumeArgs → Exec W CloudError (Unit {0})

pub record NodeService (W : Type 0) : Type 0 where
  pub get_node_by_id : String → Auth → Exec W CloudError (Unit {0})
