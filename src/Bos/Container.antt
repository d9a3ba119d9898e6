-- ===== src/Bos/Container.antt =====
-- `MountByBOSFS` and `UnmountFromBOSFS`: a container that mounts a bucket at a path.
pub mod Ready
pub mod Named
pub mod Ends
use Prim.Native.String.{◌++◌ as ◌<>◌}
use baiducloud_cce_csi_drive.Base.{
  ℕ, zero, suc, ◌+◌, ◌*◌, String, Bool, true, false, ◌&&◌, List, [], ◌∷◌, ◌==◌, Result, ok, err,
  Exec, ◌>>=◌, ◌>>◌, pure, fail, lift, or_fail, attempt, if◌then◌else◌,
}
use baiducloud_cce_csi_drive.Base.Int.{ℤ, pos, ltb_ℤ}
use baiducloud_cce_csi_drive.Util.FilePath.{dir}
use baiducloud_cce_csi_drive.Bos.Engine.{
  ContainerStatus, running, Container, EngineError, no_such, failed, Engine, ContainerConfig,
  MountError, engine_failed, image_failed, exited_or_dead, transient, timeout, unfinished,
  get_container_name, get_credentials_file_path,
}
use baiducloud_cce_csi_drive.Bos.Image.{wait_for_image_pull_finish, no_message, generate_bosfs_cmd}

abbrev pub is_running : Container → Bool
is_running c = elim c.status [ running ↦ true | _ ↦ false ]

-- The test that the container is ready.
abbrev pub is_ready : Container → Bool
is_ready c = is_running c && (c.health == "healthy")

-- `time.Millisecond` and `time.Second`
abbrev pub millisecond : ℕ
millisecond = 1000000

abbrev pub second : ℕ
second = 1000 * millisecond

module _ {F : Type 0} (engine : Engine F) (md5 : String → String) (image : String) where
  -- `fmt.Errorf` around an error of the engine
  abbrev engine_call : {A : Type 0} → Exec F EngineError A → Exec F MountError A
  engine_call m = or_fail m (λ _. engine_failed)

  -- The loop of waitForBosfsContainerReady: a ticker that was made at a time ticks first an interval
  -- later, and then once in an interval.
  unfoldable pub wait_loop :
      ℕ → (deadline interval next_tick : ℕ) → String → Exec F MountError (Unit {0})
  wait_loop zero deadline interval next_tick id s = (err unfinished, s)
  wait_loop (suc fuel) deadline interval next_tick id s =
      let t = engine.select deadline next_tick s in
      let c = engine_call (engine.inspect_until deadline id) t.1 in
      elim t.0 [
        | false ↦ (err timeout, t.1)
        | true ↦ elim c.0 [
          | err e ↦ (err e, c.1)
          | ok container ↦ elim (is_ready container) [
            | true ↦ (ok tt, c.1)
            | false ↦ wait_loop fuel deadline interval (next_tick + interval) id c.1
          ]
        ]
      ]

  -- waitForBosfsContainerReady, under a context that ends at the deadline
  unfoldable pub wait_for_ready :
      ℕ → (deadline : ℕ) → String → (interval : ℕ) → Exec F MountError (Unit {0})
  wait_for_ready fuel deadline id interval s =
      wait_loop fuel deadline interval (engine.now s + interval) id s

  unfoldable pub container_config : String → String → ContainerConfig
  container_config target cmd = record {
    cmd = "(umount " <> target <> " || echo ignore error > /dev/null) && " <> cmd;
    image = image;
    healthcheck = "stat " <> target <> " || exit 1";
    bind_mounts =
        (dir target, dir target)
        ∷ ("/dev/fuse", "/dev/fuse")
        ∷ (dir (get_credentials_file_path md5 target), dir (get_credentials_file_path md5 target))
        ∷ [];
    container_name = get_container_name md5 target;
  }

  unfoldable pub create_bosfs_container : String → String → Exec F MountError String
  create_bosfs_container target cmd = do
    events ← or_fail (engine.pull image) (λ _. image_failed)
    lift (wait_for_image_pull_finish no_message events)
    engine_call (engine.create (container_config target cmd))

  -- The container of the path, which is created where there is none.
  unfoldable pub find_container : String → String → Exec F MountError Container
  find_container target cmd = do
    found ← attempt (engine.inspect (get_container_name md5 target))
    elim found [
      | ok c ↦ pure c
      | err failed ↦ fail engine_failed
      | err no_such ↦ do id ← create_bosfs_container target cmd; engine_call (engine.inspect id)
    ]

  -- The wait of at most 15 s, with a look every 500 ms.
  unfoldable pub await_ready : ℕ → String → Exec F MountError (Unit {0})
  await_ready fuel id s = wait_for_ready fuel (engine.now s + 15 * second) id (500 * millisecond) s

  -- From the switch on the container's status on.
  unfoldable pub await : ℕ → Container → Exec F MountError (Unit {0})
  await fuel c = elim c.status [
    | ContainerStatus.exited ↦ do engine_call (engine.remove true c.id); fail exited_or_dead
    | ContainerStatus.dead ↦ do engine_call (engine.remove true c.id); fail exited_or_dead
    | ContainerStatus.running ↦ if c.health == "healthy" then pure tt else await_ready fuel c.id
    | ContainerStatus.restarting ↦ fail transient
    | ContainerStatus.removing ↦ fail transient
    | ContainerStatus.created ↦ do engine_call (engine.start c.id); await_ready fuel c.id
    | ContainerStatus.paused ↦ do engine_call (engine.start c.id); await_ready fuel c.id
    | ContainerStatus.other_status name ↦ await_ready fuel c.id
  ]

  unfoldable pub mount_by_bosfs :
      ℕ → String → String → List String → List String → Exec F MountError (Unit {0})
  mount_by_bosfs fuel source target options sensitive_options = do
    c ← find_container target (generate_bosfs_cmd source target options sensitive_options)
    await fuel c

  -- Stop and remove the container if it exists.
  unfoldable pub remove_container : String → Exec F MountError (Unit {0})
  remove_container target = do
    found ← attempt (engine.inspect (get_container_name md5 target))
    elim found [
      | err failed ↦ fail engine_failed
      | err no_such ↦ pure tt
      | ok c ↦ do
        elim (is_running c) [ true ↦ engine_call (engine.stop c.id) | false ↦ pure tt ]
        engine_call (engine.remove false c.id)
    ]

  unfoldable pub unmount_from_bosfs : String → Exec F MountError (Unit {0})
  unmount_from_bosfs target = do
    remove_container target
    refs ← engine_call (engine.mount_refs target)
    elim (ltb_ℤ (pos 0) refs) [ true ↦ engine_call (engine.unmount target) | false ↦ pure tt ]
