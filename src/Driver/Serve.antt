-- ===== src/Driver/Serve.antt =====
-- pkg/driver/common/server.go: where a driver listens and what it serves. The operating system is a
-- parameter over its state `F`, and gRPC's `Serve`, which runs until the server stops, is left out.
pub mod Listening
pub mod Intercepted
use Prim.Native.String.{◌++◌ as ◌<>◌}
use baiducloud_cce_csi_drive.Base.{
  String, Bool, true, false, not, ◌&&◌, List, [], ◌∷◌, ◌++◌, ◌==◌, starts_with, ok, err, Exec,
  ◌>>=◌, ◌>>◌, pure, fail, lift, attempt, or_fail, if◌then◌else◌,
}
use baiducloud_cce_csi_drive.Util.Os.{OsError, is_exist, is_not_exist}
use baiducloud_cce_csi_drive.Util.FilePath.{dir}
use baiducloud_cce_csi_drive.Util.Endpoint.{EndpointError, parse_grpc_endpoint}

pub record Os (F : Type 0) : Type 0 where
  pub mkdir_all : String → Exec F OsError (Unit {0})
  pub remove : String → Exec F OsError (Unit {0})
  pub listen : (proto addr : String) → Exec F OsError (Unit {0})

-- The errors that end the program by `glog.Fatal`.
pub data ServeError : Type 0 where
  bad_endpoint : EndpointError → ServeError
  no_directory old_socket no_listener : OsError → ServeError

pub data Service : Type 0 where
  identity controller node : Service

-- The services that are registered: those whose server is not nil.
unfoldable pub registered : (ids cs ns : Bool) → List Service
registered ids cs ns =
    (if ids then identity ∷ [] else [])
    ++ ((if cs then controller ∷ [] else []) ++ (if ns then node ∷ [] else []))

unfoldable pub listen_address : (proto addr : String) → String
listen_address proto addr =
    if proto == "unix" && not (starts_with addr "/") then "/" <> addr else addr

module _ {F : Type 0} (os : Os F) where
  -- `if err := …; err != nil && !tolerated(err)`
  abbrev fatal :
      Exec F OsError (Unit {0})
      → (OsError → Bool)
      → (OsError → ServeError)
      → Exec F ServeError (Unit {0})
  fatal m tolerated e =
      attempt m
      >>= (λ r. elim r [ ok _ ↦ pure tt | err x ↦ if tolerated x then pure tt else fail (e x) ])

  unfoldable pub prepare_socket : (addr : String) → Exec F ServeError (Unit {0})
  prepare_socket addr = do
    fatal (os.mkdir_all (dir addr)) (λ e. elim e [ is_exist ↦ true | _ ↦ false ]) no_directory
    fatal (os.remove addr) (λ e. elim e [ is_not_exist ↦ true | _ ↦ false ]) old_socket

  -- `serve`, up to the registrations.
  unfoldable pub serve : (endpoint : String) → (ids cs ns : Bool) → Exec F ServeError (List Service)
  serve endpoint ids cs ns = do
    parsed ← or_fail (lift (parse_grpc_endpoint endpoint)) bad_endpoint
    (if parsed.0 == "unix" then prepare_socket (listen_address parsed.0 parsed.1) else pure tt)
    or_fail (os.listen parsed.0 (listen_address parsed.0 parsed.1)) no_listener
    pure (registered ids cs ns)
