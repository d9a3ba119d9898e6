-- ===== src/Bos/Publish.antt =====
-- `NodePublishVolume` of pkg/driver/bos/node.go, over its mounter and pkg/cloud/bos.go.
pub mod Checked
use baiducloud_cce_csi_drive.Base.{
  ℕ, String, Bool, true, false, not, Option, none, some, List, [], ◌∷◌, ◌==◌, Result, ok, err, Exec,
  ◌>>=◌, ◌>>◌, pure, fail, lift, attempt, or_fail, refuse_if, eqb, if◌then◌else◌,
}
use baiducloud_cce_csi_drive.Util.FilePath.{dir}
use baiducloud_cce_csi_drive.Cloud.Auth.{
  Auth, Credentials, get_credentials, get_auth_mode_access_key,
}
use baiducloud_cce_csi_drive.Cloud.Sdk.{SdkError, service_error, client_error}
use baiducloud_cce_csi_drive.Csi.{
  Code, AccessMode, AccessType, block, no_access_type, mount, StringMap, VolumeCapability,
}
use baiducloud_cce_csi_drive.Controller.Capability.{CapabilityError, check_volume_capabilities}
use baiducloud_cce_csi_drive.Node.Mounter.{FileSystem, internal, access_type_of}
use baiducloud_cce_csi_drive.Bos.Engine.{MountError, get_credentials_file_path}
use baiducloud_cce_csi_drive.Bos.Source.{bucket_name, mount_options, credentials_content}

-- The interface `Mounter`.
pub record BosMounter (F : Type 0) : Type 0 where
  pub fs : FileSystem F
  pub open fs use *
  pub mount_by_bosfs :
      (source target : String) (options sensitive_options : List String)
      → Exec F MountError (Unit {0})
  pub unmount_from_bosfs : (target : String) → Exec F MountError (Unit {0})

pub record BosPublishRequest : Type 0 where
  pub volume_id : String
  pub target_path : String
  pub volume_capability : Option VolumeCapability
  pub readonly : Bool
  pub secrets : StringMap

-- The access modes 1 to 5 of the enum: all but the unknown one.
abbrev pub bos_volume_caps : List AccessMode
bos_volume_caps = 1 ∷ 2 ∷ 3 ∷ 4 ∷ 5 ∷ []

-- `checkVolumeCapabilities` of node.go, which is that of the controller over its own modes.
abbrev pub bos_check_volume_capabilities :
    List (Option VolumeCapability) → Result CapabilityError (Unit {0})
bos_check_volume_capabilities = check_volume_capabilities bos_volume_caps

-- `BucketExists` after `HeadBucket`.
unfoldable pub bucket_found : Result SdkError (Unit {0}) → Result SdkError Bool
bucket_found (ok _) = ok true
bucket_found (err (service_error status)) =
    if eqb status 404 then ok false else err (service_error status)
bucket_found (err client_error) = err client_error

module _ {F : Type 0} (m : BosMounter F)
    (head_bucket : Auth → String → Exec F SdkError (Unit {0})) where
  unfoldable pub bucket_exists : String → Auth → Exec F SdkError Bool
  bucket_exists bucket auth s = let r = head_bucket auth bucket s in (bucket_found r.0, r.1)

  module _ (md5 : String → String) (bos_endpoint : String) where
    -- Step 1: the checks of the request that reach no service, which give the mount flags.
    unfoldable pub check_request : BosPublishRequest → Exec F Code (List String)
    check_request req = do
      refuse_if (req.volume_id == "") Code.invalid_argument
      refuse_if (req.target_path == "") Code.invalid_argument
      or_fail (lift (bos_check_volume_capabilities (req.volume_capability ∷ [])))
          (λ _. Code.failed_precondition)
      elim (access_type_of req.volume_capability) [
        | block ↦ fail Code.invalid_argument
        | no_access_type ↦ fail Code.failed_precondition
        | mount fs_type flags ↦ pure flags
      ]

    -- The rest of step 1: the authorisation, and a bucket that exists.
    unfoldable pub check_bucket : BosPublishRequest → Exec F Code Auth
    check_bucket req = do
      auth ← or_fail (lift (get_auth_mode_access_key req.secrets)) (λ _. Code.invalid_argument)
      refuse_if (bucket_name req.volume_id == "") Code.invalid_argument
      exists ← or_fail (bucket_exists (bucket_name req.volume_id) auth) (λ _. Code.internal)
      refuse_if (not exists) Code.not_found
      pure auth

    -- Step 2, and the credentials file of step 3.
    unfoldable pub prepare_paths : String → Credentials → Exec F Code (Unit {0})
    prepare_paths target credentials = do
      exist ← internal (m.path_exists target)
      elim exist [ true ↦ pure tt | false ↦ internal (m.mkdir_all target) ]
      internal (m.mkdir_all (dir (get_credentials_file_path md5 target)))
      internal
          (m.write_file (get_credentials_file_path md5 target) (credentials_content credentials))

    unfoldable pub bos_publish_volume : BosPublishRequest → Exec F Code (Unit {0})
    bos_publish_volume req = do
      flags ← check_request req
      auth ← check_bucket req
      prepare_paths req.target_path (get_credentials auth)
      or_fail
          (m.mount_by_bosfs req.volume_id req.target_path
            (mount_options bos_endpoint (get_credentials_file_path md5 req.target_path) req.readonly
              flags)
            [])
          (λ _. Code.internal)
