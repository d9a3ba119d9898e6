-- ===== src/Cloud/Sdk.antt =====
-- What the driver calls of the Baidu Cloud SDK's BCC client. The SDK is not part of the
-- repository: its operations are the fields of a record, over an unknown state of the cloud.
use baiducloud_cce_csi_drive.Base.{ℕ, String, Bool, Option, List, Exec}
use baiducloud_cce_csi_drive.Base.Int.{ℤ}
use baiducloud_cce_csi_drive.Cloud.Auth.{Auth}
use baiducloud_cce_csi_drive.Cloud.Volume.{VolumeModel, Attachment}

-- A `*bce.BceServiceError` with its HTTP status, or another error of the SDK.
pub data SdkError : Type 0 where
  service_error : ℕ → SdkError
  client_error : SdkError

pub record Reservation : Type 0 where
  pub reservation_length : ℤ
  pub reservation_time_unit : String

pub record Billing : Type 0 where
  pub payment_timing : String
  pub reservation : Option Reservation

pub record CreateArgs : Type 0 where
  pub name : String
  pub description : String
  pub snapshot_id : String
  pub zone_name : String
  pub purchase_count : ℕ
  pub cds_size_in_gb : ℤ
  pub storage_type : String
  pub billing : Billing
  pub encrypt_key : String
  pub client_token : String

pub record Page : Type 0 where
  pub volumes : List VolumeModel
  pub is_truncated : Bool
  pub next_marker : String

pub record Client (W : Type 0) : Type 0 where
  -- the value of `bccapi.PaymentTimingPrePaid`
  pub payment_timing_pre_paid : String
  pub create_cds_volume : Auth → CreateArgs → Exec W SdkError (List String)
  pub get_cds_volume_detail : Auth → String → Exec W SdkError VolumeModel
  pub list_cds_volume : Auth → (max_keys : ℕ) → (marker : String) → Exec W SdkError Page
  pub delete_cds_volume : Auth → String → Exec W SdkError (Unit {0})
  pub attach_cds_volume : Auth → (id instance_id : String) → Exec W SdkError Attachment
  pub detach_cds_volume : Auth → (id instance_id : String) → Exec W SdkError (Unit {0})
  pub resize_cds_volume :
      Auth → (id : String) → (new_size : ℤ) → (new_type : String) → Exec W SdkError (Unit {0})
  pub get_instance_detail : Auth → String → Exec W SdkError (Unit {0})
