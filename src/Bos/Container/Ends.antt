-- ===== src/Bos/Container/Ends.antt =====
-- The wait for a container ends by its timeout.
use baiducloud_cce_csi_drive.Base.{
  ℕ, zero, suc, ◌+◌, ◌*◌, ◌≤◌, ◌<◌, String, true, List, [], ◌∷◌, ◌≡◌, ◌≢◌, ◌==◌, arith, ok, err,
  inl, inr, leb, Result-cases, Bool-cases,
}
use baiducloud_cce_csi_drive.Bos.Engine.{
  ContainerStatus, Container, EngineError, get_container_name, Engine, PullEvent, message,
  unreadable, timed_out, unfinished,
}
use baiducloud_cce_csi_drive.Bos.Image.{
  PullMessage, or_kept, judge_message, wait_for_image_pull_finish, no_message, generate_bosfs_cmd,
}
use baiducloud_cce_csi_drive.Bos.Container.{
  is_ready, millisecond, second, create_bosfs_container, wait_loop, wait_for_ready, await_ready,
  find_container, await, mount_by_bosfs,
}

pull_ends :
    (m : PullMessage) (events : List PullEvent)
    → wait_for_image_pull_finish m events ≢ err unfinished
unfolding wait_for_image_pull_finish judge_message
pull_ends m [] = λ w. ground (arith, w)
pull_ends m (message e t ∷ events) =
    pull_ends (record { error = or_kept e m.error; error_message = or_kept t m.error_message })
      events
pull_ends m (unreadable ∷ events) = λ w. cc
pull_ends m (timed_out ∷ events) = λ w. cc

-- What Go documents of tickers and contexts, and Docker's client of contexts: a tick does not come before it
-- is due, and a call under a context that has ended does not succeed.
pub record IsTimed {F : Type 0} (engine : Engine F) : Type 0 where
  pub ticks :
      (deadline next_tick : ℕ) (s : F)
      → (engine.select deadline next_tick s).0 ≡ true
      → next_tick ≤ engine.now (engine.select deadline next_tick s).1
  pub ended :
      (deadline : ℕ) (id : String) (s : F) (c : Container)
      → deadline < engine.now s
      → (engine.inspect_until deadline id s).0 ≢ ok c

module _ {F : Type 0} (engine : Engine F) (md5 : String → String) (image : String)
    (L : IsTimed engine) where
  -- A round ends where the next one does, if it looks at the container in time.
  wait_round_ends :
      (fuel deadline next_tick : ℕ) (id : String) (s : F)
      → (let t = (engine.select deadline next_tick s).1 in
          next_tick ≤ deadline
          → (wait_loop engine md5 image fuel deadline
              (500 * millisecond)
              (next_tick + 500 * millisecond)
              id
              (engine.inspect_until deadline id t).1).0
            ≢ err unfinished)
      → (wait_loop engine md5 image (suc fuel) deadline (500 * millisecond) next_tick id s).0
        ≢ err unfinished
  unfolding wait_loop
  wait_round_ends fuel deadline next_tick id s rest h =
      let t = (engine.select deadline next_tick s).1 in
      elim (Bool-cases (engine.select deadline next_tick s).0) [
        | inr e ↦ ground (arith, e, h)
        | inl e ↦ elim (Result-cases (engine.inspect_until deadline id t).0) [
          | inr (x, f) ↦ ground (arith, e, f, h)
          | inl (c, f) ↦ elim (Bool-cases (is_ready c)) [
            | inl r ↦ ground (arith, e, f, r, h)
            | inr r ↦ elim (Bool-cases (leb next_tick deadline)) [
              | inl l ↦ rest (ground (arith, l)) (ground (arith, e, f, r, h))
              | inr l ↦
                  L.ended deadline id t c (ground (arith, l, L.ticks deadline next_tick s e)) f
            ]
          ]
        ]
      ]

  -- A round for each interval to the deadline, and one more.
  wait_loop_ends :
      (rounds deadline next_tick : ℕ) (id : String) (s : F)
      → deadline < next_tick + rounds * (500 * millisecond)
      → (wait_loop engine md5 image (suc rounds) deadline (500 * millisecond) next_tick id s).0
        ≢ err unfinished
  wait_loop_ends zero deadline next_tick id s h =
      wait_round_ends zero deadline next_tick id s (λ l. absurd (omega arith))
  wait_loop_ends (suc rounds) deadline next_tick id s h =
      wait_round_ends (suc rounds) deadline next_tick id s (λ l.
        wait_loop_ends rounds deadline (next_tick + 500 * millisecond) id
          (engine.inspect_until deadline id (engine.select deadline next_tick s).1).1 (omega arith))

  -- From the switch on the container's status on, 31 rounds are enough: a look each 500 ms for 15 s, and
  -- one after them.
  await_ready_ends :
      (id : String) (s : F) → (await_ready engine md5 image 31 id s).0 ≢ err unfinished
  unfolding await_ready wait_for_ready
  await_ready_ends id s =
      wait_loop_ends 30 (engine.now s + 15 * second) (engine.now s + 500 * millisecond) id s
        (omega arith)

  await_ends :
      (id health : String) (status : ContainerStatus) (s : F)
      → (await engine md5 image 31 (record { id = id; status = status; health = health }) s).0
        ≢ err unfinished
  unfolding await
  await_ends id health ContainerStatus.created s h =
      await_ready_ends id (engine.start id s).1 (ground (arith, h))
  await_ends id health ContainerStatus.paused s h =
      await_ready_ends id (engine.start id s).1 (ground (arith, h))
  await_ends id health (ContainerStatus.other_status name) s h = await_ready_ends id s h
  await_ends id health ContainerStatus.running s h = elim (Bool-cases (health == "healthy")) [
    | inl e ↦ ground (arith, e, h)
    | inr e ↦ await_ready_ends id s (ground (arith, e, h))
  ]
  await_ends id health ContainerStatus.exited s h = ground (arith, h)
  await_ends id health ContainerStatus.dead s h = ground (arith, h)
  await_ends id health ContainerStatus.restarting s h = ground (arith, h)
  await_ends id health ContainerStatus.removing s h = ground (arith, h)

  create_bosfs_container_ends :
      (target cmd : String) (s : F)
      → (create_bosfs_container engine md5 image target cmd s).0 ≢ err unfinished
  unfolding create_bosfs_container
  create_bosfs_container_ends target cmd s h = elim (Result-cases (engine.pull image s).0) [
    | inr (x, e) ↦ ground (arith, e, h)
    | inl (events, e) ↦ elim (Result-cases (wait_for_image_pull_finish no_message events)) [
      | inr (x, f) ↦ pull_ends no_message events (ground (arith, e, f, h))
      | inl (_, f) ↦ ground (arith, e, f, h)
    ]
  ]

  find_container_ends :
      (target cmd : String) (s : F)
      → (find_container engine md5 image target cmd s).0 ≢ err unfinished
  unfolding find_container
  find_container_ends target cmd s h =
      let name = get_container_name md5 target in
      let t = (engine.inspect name s).1 in
      elim (Result-cases (engine.inspect name s).0) [
        | inl (d, e) ↦ ground (arith, e, h)
        | inr (EngineError.failed, e) ↦ ground (arith, e, h)
        | inr (EngineError.no_such, e) ↦
            elim (Result-cases (create_bosfs_container engine md5 image target cmd t).0) [
              | inr (x, f) ↦ create_bosfs_container_ends target cmd t (ground (arith, e, f, h))
              | inl (id, f) ↦ ground (arith, e, f, h)
            ]
      ]

  -- Over an engine whose ticks do not come early, and whose calls under a context that has ended do not
  -- succeed: with fuel for 31 looks at the container, the mounting of a bucket ends, since the
  -- context of its wait ends after 15 s and the ticks come every 500 ms.
  pub mount_by_bosfs_ends :
      (source target : String) (options sensitive_options : List String) (s : F)
      → (mount_by_bosfs engine md5 image 31 source target options sensitive_options s).0
        ≢ err unfinished
  unfolding mount_by_bosfs
  mount_by_bosfs_ends source target options sensitive_options s h =
      let cmd = generate_bosfs_cmd source target options sensitive_options in
      elim (Result-cases (find_container engine md5 image target cmd s).0) [
        | inr (x, e) ↦ find_container_ends target cmd s (ground (arith, e, h))
        | inl (c, e) ↦
            await_ends c.id c.health c.status (find_container engine md5 image target cmd s).1
              (ground (arith, e, h))
      ]
