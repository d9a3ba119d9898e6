-- ===== src/Bos/Container/Ready.antt =====
-- A bucket is mounted only by a container that is ready.
use baiducloud_cce_csi_drive.Base.{
  ℕ, zero, suc, ◌+◌, ◌*◌, String, true, List, ◌≡◌, ◌⊎◌, ◌==◌, arith, ok, inl, inr, Result-cases,
  Bool-cases,
}
use baiducloud_cce_csi_drive.Bos.Engine.{
  ContainerStatus, Container, EngineError, get_container_name, Engine,
}
use baiducloud_cce_csi_drive.Bos.Image.{wait_for_image_pull_finish, no_message, generate_bosfs_cmd}
use baiducloud_cce_csi_drive.Bos.Container.{
  is_ready, container_config, create_bosfs_container, wait_loop, wait_for_ready, await_ready,
  second, millisecond, find_container, await, mount_by_bosfs,
}

module _ {F : Type 0} (engine : Engine F) (md5 : String → String) (image : String) where
  -- The engine showed the container under the name or the identifier.
  abbrev pub Shown : String → Container → Type 0
  Shown name c = (s : F) × ((engine.inspect name s).0 ≡ ok c)

  -- The engine showed the container under the identifier to a call with a deadline.
  abbrev pub ShownLater : String → Container → Type 0
  ShownLater id c = (deadline : ℕ) × (s : F) × ((engine.inspect_until deadline id s).0 ≡ ok c)

  -- The container has the name of the path's container, or was created for the path.
  abbrev pub OfTarget : String → Container → Type 0
  OfTarget target c =
      Shown (get_container_name md5 target) c
      ⊎ ((id : String) × (cmd : String) × (s : F) × ((engine.create
              (container_config engine md5 image target cmd) s).0
            ≡ ok id)
          × Shown id c)

  -- The container was running and healthy, or was shown so later on.
  abbrev pub IsUp : Container → Type 0
  IsUp c = (is_ready c ≡ true) ⊎ ((d : Container) × ShownLater c.id d × (is_ready d ≡ true))

  wait_loop_ok :
      (fuel deadline interval next_tick : ℕ) (id : String) (s : F)
      → (wait_loop engine md5 image fuel deadline interval next_tick id s).0 ≡ ok tt
      → (d : Container) × ShownLater id d × (is_ready d ≡ true)
  unfolding wait_loop
  wait_loop_ok zero deadline interval next_tick id s h = absurd (ground (arith, h))
  wait_loop_ok (suc fuel) deadline interval next_tick id s h =
      let t = (engine.select deadline next_tick s).1 in
      elim (Bool-cases (engine.select deadline next_tick s).0) [
        | inr e ↦ absurd (ground (arith, e))
        | inl e ↦ elim (Result-cases (engine.inspect_until deadline id t).0) [
          | inr (x, f) ↦ absurd (ground (arith, e, f))
          | inl (c, f) ↦ elim (Bool-cases (is_ready c)) [
            | inl r ↦ (c, (deadline, t, f), r)
            | inr r ↦
                wait_loop_ok fuel deadline interval (next_tick + interval) id
                  (engine.inspect_until deadline id t).1 (ground (arith, e, f, r))
          ]
        ]
      ]

  await_ready_ok :
      (fuel : ℕ) (id : String) (s : F)
      → (await_ready engine md5 image fuel id s).0 ≡ ok tt
      → (d : Container) × ShownLater id d × (is_ready d ≡ true)
  unfolding await_ready wait_for_ready
  await_ready_ok fuel id s h =
      wait_loop_ok fuel (engine.now s + 15 * second) (500 * millisecond)
        (engine.now s + 500 * millisecond) id s h

  create_bosfs_container_ok :
      (target cmd id : String) (s : F)
      → (create_bosfs_container engine md5 image target cmd s).0 ≡ ok id
      → (t : F) × ((engine.create (container_config engine md5 image target cmd) t).0 ≡ ok id)
  unfolding create_bosfs_container
  create_bosfs_container_ok target cmd id s h = elim (Result-cases (engine.pull image s).0) [
    | inr (x, e) ↦ absurd (ground (arith, e))
    | inl (events, e) ↦ elim (Result-cases (wait_for_image_pull_finish no_message events)) [
      | inr (x, f) ↦ absurd (ground (arith, e, f))
      | inl (_, f) ↦ ((engine.pull image s).1, ground (arith, e, f))
    ]
  ]

  find_container_ok :
      (target cmd : String) (s : F) (c : Container)
      → (find_container engine md5 image target cmd s).0 ≡ ok c
      → OfTarget target c
  unfolding find_container
  find_container_ok target cmd s c h =
      let name = get_container_name md5 target in
      let t = (engine.inspect name s).1 in
      elim (Result-cases (engine.inspect name s).0) [
        | inl (d, e) ↦ inl (s, ground (arith, e))
        | inr (EngineError.failed, e) ↦ absurd (ground (arith, e))
        | inr (EngineError.no_such, e) ↦
            elim (Result-cases (create_bosfs_container engine md5 image target cmd t).0) [
              | inr (x, f) ↦ absurd (ground (arith, e, f))
              | inl (id, f) ↦
                  let (u, made) = create_bosfs_container_ok target cmd id t f in
                  inr (
                    id,
                    cmd,
                    u,
                    made,
                    (
                      (create_bosfs_container engine md5 image target cmd t).1,
                      ground (arith, e, f),
                    ),
                  )
            ]
      ]

  await_ok :
      (fuel : ℕ) (id health : String) (status : ContainerStatus) (s : F)
      → (await engine md5 image fuel (record { id = id; status = status; health = health }) s).0
        ≡ ok tt
      → IsUp (record { id = id; status = status; health = health })
  unfolding await
  await_ok fuel id health ContainerStatus.created s h =
      inr (await_ready_ok fuel id (engine.start id s).1 (ground (arith, h)))
  await_ok fuel id health ContainerStatus.paused s h =
      inr (await_ready_ok fuel id (engine.start id s).1 (ground (arith, h)))
  await_ok fuel id health (ContainerStatus.other_status name) s h = inr (await_ready_ok fuel id s h)
  await_ok fuel id health ContainerStatus.running s h = elim (Bool-cases (health == "healthy")) [
    | inl e ↦ inl e
    | inr e ↦ inr (await_ready_ok fuel id s (ground (arith, e)))
  ]
  await_ok fuel id health ContainerStatus.exited s h = absurd (ground (arith, h))
  await_ok fuel id health ContainerStatus.dead s h = absurd (ground (arith, h))
  await_ok fuel id health ContainerStatus.restarting s h = absurd (ground (arith, h))
  await_ok fuel id health ContainerStatus.removing s h = absurd (ground (arith, h))

  -- A bucket is mounted successfully only by a container that has the name for the target path or was
  -- created for it, and that the engine showed as running and healthy.
  pub mount_by_bosfs_ok :
      (fuel : ℕ) (source target : String) (options sensitive_options : List String) (s : F)
      → (mount_by_bosfs engine md5 image fuel source target options sensitive_options s).0 ≡ ok tt
      → (c : Container) × OfTarget target c × IsUp c
  unfolding mount_by_bosfs
  mount_by_bosfs_ok fuel source target options sensitive_options s h =
      let cmd = generate_bosfs_cmd source target options sensitive_options in
      elim (Result-cases (find_container engine md5 image target cmd s).0) [
        | inr (x, e) ↦ absurd (ground (arith, e))
        | inl (c, e) ↦ (
          c,
          find_container_ok target cmd s c e,
          await_ok fuel c.id c.health c.status (find_container engine md5 image target cmd s).1
              (ground (arith, e)),
        )
      ]
