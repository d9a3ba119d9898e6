-- ===== src/Node/Stats.antt =====
-- `NodeGetVolumeStats`.
use baiducloud_cce_csi_drive.Base.{
  String, Bool, true, false, not, List, [], ◌∷◌, ◌==◌, Exec, ◌>>=◌, ◌>>◌, pure, refuse_if,
}
use baiducloud_cce_csi_drive.Base.Int.{ℤ, pos}
use baiducloud_cce_csi_drive.Csi.{Code}
use baiducloud_cce_csi_drive.Node.Mounter.{Mounter, internal}

-- The numbers that Kubernetes' `MetricsStatFS` reports, as `int64`.
pub record Metrics : Type 0 where
  pub available : ℤ
  pub capacity : ℤ
  pub used : ℤ
  pub inodes_free : ℤ
  pub inodes : ℤ
  pub inodes_used : ℤ

-- Two helpers of Kubernetes, which are not part of the repository.
pub record HostUtil (F : Type 0) : Type 0 where
  pub path_is_device : String → Exec F String Bool
  pub get_metrics : String → Exec F String Metrics

pub data UsageUnit : Type 0 where
  bytes inodes : UsageUnit

pub record VolumeUsage : Type 0 where
  pub unit : UsageUnit
  pub available : ℤ
  pub total : ℤ
  pub used : ℤ

pub record StatsRequest : Type 0 where
  pub volume_id : String
  pub volume_path : String

module _ {F : Type 0} (m : Mounter F) (host : HostUtil F) where
  unfoldable pub device_stats : String → Exec F Code (List VolumeUsage)
  device_stats path = do
    size ← internal (m.get_device_size path)
    pure (record { unit = bytes; available = pos 0; total = size; used = pos 0 } ∷ [])

  unfoldable pub file_system_stats : String → Exec F Code (List VolumeUsage)
  file_system_stats path = do
    x ← internal (host.get_metrics path)
    pure (
        record { unit = bytes; available = x.available; total = x.capacity; used = x.used }
        ∷ record {
          unit = inodes;
          available = x.inodes_free;
          total = x.inodes;
          used = x.inodes_used;
        }
        ∷ [])

  unfoldable pub node_get_volume_stats : StatsRequest → Exec F Code (List VolumeUsage)
  unfolding device_stats file_system_stats
  node_get_volume_stats req = do
    refuse_if (req.volume_id == "") Code.invalid_argument
    refuse_if (req.volume_path == "") Code.invalid_argument
    exists ← internal (m.path_exists req.volume_path)
    refuse_if (not exists) Code.not_found
    is_device ← internal (host.path_is_device req.volume_path)
    elim is_device [
      | true ↦ device_stats req.volume_path
      | false ↦ file_system_stats req.volume_path
    ]
