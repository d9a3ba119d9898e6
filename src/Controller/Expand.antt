-- ===== src/Controller/Expand.antt =====
-- `ControllerExpandVolume`.
use baiducloud_cce_csi_drive.Base.{
  String, Bool, not, ◌&&◌, ◌||◌, Option, ◌==◌, ok, err, Exec, ◌>>=◌, ◌>>◌, pure, fail, lift,
  or_fail, refuse_if, is_some, if◌then◌else◌,
}
use baiducloud_cce_csi_drive.Base.Int.{ℤ, ltb_ℤ}
use baiducloud_cce_csi_drive.Util.Size.{size_gb_to_bytes}
use baiducloud_cce_csi_drive.Cloud.Auth.{Auth}
use baiducloud_cce_csi_drive.Cloud.Error.{err_is_not_found}
use baiducloud_cce_csi_drive.Cloud.Volume.{Volume, is_available, is_in_use, is_scaling}
use baiducloud_cce_csi_drive.Cloud.Service.{VolumeService}
use baiducloud_cce_csi_drive.Csi.{Code, StringMap, CapacityRange, VolumeCapability, is_block}
use baiducloud_cce_csi_drive.Controller.Capacity.{get_volume_size_gb, size_in_gb_meet_cap_range}
use baiducloud_cce_csi_drive.Controller.Server.{Server, Config, on_cloud, auth_code}

pub record ExpandRequest : Type 0 where
  pub volume_id : String
  pub volume_capability : Option VolumeCapability
  pub capacity_range : Option CapacityRange
  pub secrets : StringMap

pub record ExpandResponse : Type 0 where
  pub capacity_bytes : ℤ
  pub node_expansion_required : Bool

module _ {W : Type 0} (vs : VolumeService W) (config : Config) where
  -- The resize itself is asynchronous.
  unfoldable pub begin_resize : Volume → ℤ → Exec (Server W) Code ExpandResponse
  begin_resize v size = do
    resized ←
        on_cloud (
          vs.resize v
            (record { new_cds_size_in_gb = size; new_volume_type = v.model.storage_type }))
    elim resized [ err _ ↦ fail Code.internal | ok _ ↦ fail Code.aborted ]

  -- From the check of the capacity range on, for a volume that is not scaling.
  unfoldable pub expand : ExpandRequest → Volume → Exec (Server W) Code ExpandResponse
  expand req v = do
    refuse_if (not (is_some req.capacity_range)) Code.invalid_argument
    if size_in_gb_meet_cap_range v.model.disk_size_in_gb req.capacity_range
        then pure (record {
          capacity_bytes = size_gb_to_bytes v.model.disk_size_in_gb;
          node_expansion_required = not (is_block req.volume_capability);
        })
        else do
          size ← or_fail (lift (get_volume_size_gb req.capacity_range)) (λ _. Code.invalid_argument)
          refuse_if (ltb_ℤ size v.model.disk_size_in_gb) Code.invalid_argument
          refuse_if (not (is_available v || (config.enable_online_expansion && is_in_use v)))
              Code.failed_precondition
          begin_resize v size

  unfoldable pub check_expand : ExpandRequest → Exec (Server W) Code Auth
  check_expand req = do
    refuse_if (req.volume_id == "") Code.invalid_argument
    or_fail (lift (config.get_auth req.secrets)) auth_code

  unfoldable pub controller_expand_volume : ExpandRequest → Exec (Server W) Code ExpandResponse
  controller_expand_volume req = do
    auth ← check_expand req
    found ← on_cloud (vs.get_volume_by_id req.volume_id auth)
    elim found [
      | err e ↦ fail (if err_is_not_found e then Code.not_found else Code.internal)
      | ok v ↦ do refuse_if (is_scaling v) Code.aborted; expand req v
    ]
