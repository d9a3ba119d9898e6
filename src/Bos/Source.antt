-- ===== src/Bos/Source.antt =====
-- `bucketName`, and the options of the mount in `NodePublishVolume`.
pub mod Endpoint
use Prim.Native.String.{◌++◌ as ◌<>◌}
use baiducloud_cce_csi_drive.Base.{
  ℕ, ◌+◌, String, Bool, true, false, not, ◌||◌, List, [], ◌∷◌, ◌++◌, ◌≡◌, refl, arith, starts_with,
  if◌then◌else◌,
}
use baiducloud_cce_csi_drive.Util.Text.{split}
use baiducloud_cce_csi_drive.Cloud.Auth.{Credentials}

abbrev first_or_empty : List String → String
first_or_empty [] = ""
first_or_empty (p ∷ ps) = p

unfoldable pub bucket_name : String → String
bucket_name source = first_or_empty (split b'/' source)

-- `endpointSetByMountFlag`
unfoldable pub sets_endpoint : List String → Bool
sets_endpoint [] = false
sets_endpoint (o ∷ os) = starts_with o "-o endpoint=" || sets_endpoint os

unfoldable pub mount_options : String → String → Bool → List String → List String
mount_options endpoint credentials_file_path readonly flags =
    ("-o tmpdir=/tmp" ∷ ("-o credentials=" <> credentials_file_path) ∷ [])
    ++ (if readonly then "-o ro" ∷ [] else [])
    ++ (if sets_endpoint flags then [] else ("-o endpoint=" <> endpoint) ∷ [])
    ++ flags

-- `credentialsFileContentTmpl` with its three texts.
unfoldable pub credentials_content : Credentials → String
credentials_content c =
    "bce_access_key_id=" <> c.access_key_id <> "\nbce_secret_access_key=" <> c.secret_access_key
    <> "\nbce_security_token=" <> c.session_token <> "\nreload_interval_s=1"
