-- ===== src/Controller/Server.antt =====
-- `controllerServer` of pkg/driver/cds/controller.go: its state, its configuration, and what its
-- handlers share.
use baiducloud_cce_csi_drive.Base.{String, Bool, List, ◌∷◌, Exec, Result, ok, remove}
use baiducloud_cce_csi_drive.Util.KeyMutex.{KeyMutex}
use baiducloud_cce_csi_drive.Cloud.Auth.{Auth, AuthError}
use baiducloud_cce_csi_drive.Csi.{Code, StringMap}

-- The cloud, `creatingVolumeCache` as the list of its keys, and `inProcessRequests`.
pub record Server (W : Type 0) : Type 0 where
  pub cloud : W
  pub creating_volume_cache : List String
  pub in_process_requests : KeyMutex

-- What does not change while the server runs. The two labels are constants of `k8s.io/api`.
pub record Config : Type 0 where
  pub cluster_id : String
  pub get_auth : StringMap → Result AuthError Auth
  pub enable_online_expansion : Bool
  pub label_zone_failure_domain : String
  pub label_failure_domain_beta_zone : String

-- A call of a service, which acts on the cloud alone. The handler looks at the error itself.
abbrev pub on_cloud : {W E F A : Type 0} → Exec W E A → Exec (Server W) F (Result E A)
on_cloud m s = (ok (m s.cloud).0, record s { cloud = (m s.cloud).1 })

-- `creatingVolumeCache.Delete(name)`; `sync.Map` removes a key or does nothing.
abbrev pub forget : {W : Type 0} → String → Server W → Server W
forget name s = record s { creating_volume_cache = remove name s.creating_volume_cache }

-- `creatingVolumeCache.Store(name, struct{}{})`
abbrev pub remember : {W : Type 0} → String → Server W → Server W
remember name s = record s { creating_volume_cache = name ∷ s.creating_volume_cache }

-- The code for an error of `getAuth`.
abbrev pub auth_code : AuthError → Code
auth_code e = Code.invalid_argument
