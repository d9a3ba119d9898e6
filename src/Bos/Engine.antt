-- ===== src/Bos/Engine.antt =====
-- What pkg/driver/bos/mount.go calls of the container engine, and `getContainerName` and
-- `getCredentialsFilePath`. The engine is Docker's client, a parameter over the state `F` of the node.
use Prim.Native.String.{◌++◌ as ◌<>◌}
use baiducloud_cce_csi_drive.Base.{ℕ, String, Bool, Option, List, [], ◌∷◌, Exec}
use baiducloud_cce_csi_drive.Base.Int.{ℤ}
use baiducloud_cce_csi_drive.Util.FilePath.{join}

-- `container.State.Status`
pub data ContainerStatus : Type 0 where
  created running paused restarting removing exited dead : ContainerStatus
  other_status : String → ContainerStatus

-- The `Health.Status` of a container with a health check.
pub record Container : Type 0 where
  pub id : String
  pub status : ContainerStatus
  pub health : String

-- An error of the engine: `client.IsErrNotFound` holds, or not.
pub data EngineError : Type 0 where
  no_such failed : EngineError

-- An event of an image being pulled: a JSON message with the fields that it has, an error of the
-- decoder, or the end of the context.
pub data PullEvent : Type 0 where
  message : (error error_message : Option String) → PullEvent
  unreadable : PullEvent
  timed_out : PullEvent

-- The part of the container's configuration that depends on its arguments.
pub record ContainerConfig : Type 0 where
  pub cmd : String
  pub image : String
  pub healthcheck : String
  pub bind_mounts : List (String × String)
  pub container_name : String

pub record Engine (F : Type 0) : Type 0 where
  pub inspect : (name_or_id : String) → Exec F EngineError Container
  pub pull : (image : String) → Exec F EngineError (List PullEvent)
  pub create : ContainerConfig → Exec F EngineError String
  pub start : (id : String) → Exec F EngineError (Unit {0})
  pub stop : (id : String) → Exec F EngineError (Unit {0})
  pub remove : (force : Bool) (id : String) → Exec F EngineError (Unit {0})
  -- the clock, in nanoseconds
  pub now : F → ℕ
  -- a call under a context that ends at the deadline
  pub inspect_until : (deadline : ℕ) (name_or_id : String) → Exec F EngineError Container
  -- the `select` on a ticker whose next tick is due at a time (`true`), and on the end of a context
  -- that ends at the deadline, or before with its parent
  pub select : (deadline next_tick : ℕ) → F → Bool × F
  -- Kubernetes' mount utilities
  pub mount_refs : (path : String) → Exec F EngineError ℤ
  pub unmount : (path : String) → Exec F EngineError (Unit {0})

-- The errors of the mounter, without their messages.
pub data MountError : Type 0 where
  engine_failed image_failed exited_or_dead transient timeout : MountError
  -- no Go error: a wait that did not end within the fuel of the model
  unfinished : MountError

unfoldable pub get_container_name : (String → String) → String → String
get_container_name md5 key = "bosfs-" <> md5 key

abbrev pub credentials_file_dir : String
credentials_file_dir = "/etc/bosfs/credentials"

unfoldable pub get_credentials_file_path : (String → String) → String → String
unfolding join
get_credentials_file_path md5 target = join (credentials_file_dir ∷ md5 target ∷ "sts" ∷ [])
