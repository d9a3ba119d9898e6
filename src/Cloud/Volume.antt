-- ===== src/Cloud/Volume.antt =====
-- pkg/cloud/cds.go: a CDS volume as the SDK describes it, and the methods that only read it.
use Prim.Native.String.{◌++◌ as ◌<>◌}
use baiducloud_cce_csi_drive.Base.{String, Bool, true, false, List}
use baiducloud_cce_csi_drive.Base.Int.{ℤ}
use baiducloud_cce_csi_drive.Cloud.Auth.{Auth}
use baiducloud_cce_csi_drive.Util.Text.{after_last, to_upper}

-- The SDK's `VolumeStatus` values that the driver compares with, and any other.
pub data VolumeStatus : Type 0 where
  available in_use creating scaling attaching detaching : VolumeStatus
  other_status : String → VolumeStatus

pub record Attachment : Type 0 where
  pub instance_id : String
  pub device : String
  pub serial : String

pub record VolumeModel : Type 0 where
  pub id : String
  pub name : String
  pub zone_name : String
  pub disk_size_in_gb : ℤ
  pub status : VolumeStatus
  pub storage_type : String
  pub attachments : List Attachment

-- `cdsVolume`: the model, with the client that fetched it, of which the authorisation matters.
pub record Volume : Type 0 where
  pub model : VolumeModel
  pub client : Auth

unfoldable pub zone_of : String → String
zone_of zone_name = "zone" <> to_upper (after_last b'-' zone_name)

unfoldable pub zone : Volume → String
unfolding zone_of
zone v = zone_of v.model.zone_name

abbrev pub is_in_use : Volume → Bool
is_in_use v = elim v.model.status [ in_use ↦ true | _ ↦ false ]

abbrev pub is_scaling : Volume → Bool
is_scaling v = elim v.model.status [ scaling ↦ true | _ ↦ false ]

abbrev pub is_creating : Volume → Bool
is_creating v = elim v.model.status [ creating ↦ true | _ ↦ false ]

abbrev pub is_available : Volume → Bool
is_available v = elim v.model.status [ available ↦ true | _ ↦ false ]

abbrev pub is_attached : Volume → Bool
is_attached v = elim v.model.status [ in_use ↦ true | _ ↦ false ]

abbrev pub is_attaching : Volume → Bool
is_attaching v = elim v.model.status [ attaching ↦ true | _ ↦ false ]

abbrev pub is_detaching : Volume → Bool
is_detaching v = elim v.model.status [ detaching ↦ true | _ ↦ false ]
