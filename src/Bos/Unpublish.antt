-- ===== src/Bos/Unpublish.antt =====
-- `NodeUnpublishVolume` of pkg/driver/bos/node.go.
pub mod Gone
use baiducloud_cce_csi_drive.Base.{
  String, Bool, true, false, is_some, Result, ok, err, Exec, ◌>>=◌, ◌>>◌, pure, fail, or_fail,
  refuse_if, ◌==◌,
}
use baiducloud_cce_csi_drive.Util.Text.{split_first}
use baiducloud_cce_csi_drive.Util.FilePath.{dir}
use baiducloud_cce_csi_drive.Csi.{Code}
use baiducloud_cce_csi_drive.Node.Mounter.{internal}
use baiducloud_cce_csi_drive.Bos.Engine.{get_credentials_file_path}
use baiducloud_cce_csi_drive.Bos.Publish.{BosMounter}

-- `strings.Contains` of the error's text
unfoldable pub is_err_transport_endpoint_is_not_connected : String → Bool
is_err_transport_endpoint_is_not_connected e =
    is_some (split_first "transport endpoint is not connected" e)

-- The answer to whether the path exists: a path that is not connected does.
unfoldable pub exists_or_not_connected : Result String Bool → Result Code Bool
exists_or_not_connected (ok b) = ok b
exists_or_not_connected (err e) = elim (is_err_transport_endpoint_is_not_connected e) [
  | true ↦ ok true
  | false ↦ err Code.internal
]

module _ {F : Type 0} (m : BosMounter F) (md5 : String → String) where
  unfoldable pub target_exists : String → Exec F Code Bool
  target_exists path s = let r = m.path_exists path s in (exists_or_not_connected r.0, r.1)

  unfoldable pub remove_target : Bool → String → Exec F Code (Unit {0})
  remove_target false path = pure tt
  remove_target true path = do
    or_fail (m.unmount_from_bosfs path) (λ _. Code.internal)
    internal (m.remove_path path)

  -- Clean the paths that the container used.
  unfoldable pub remove_credentials : String → Exec F Code (Unit {0})
  remove_credentials dir_path = do
    exist ← internal (m.path_exists dir_path)
    elim exist [ true ↦ internal (m.remove_all dir_path) | false ↦ pure tt ]

  unfoldable pub bos_unpublish_volume : (target_path : String) → Exec F Code (Unit {0})
  bos_unpublish_volume path = do
    refuse_if (path == "") Code.invalid_argument
    exist ← target_exists path
    remove_target exist path
    remove_credentials (dir (get_credentials_file_path md5 path))
