-- ===== src/Tests/Retries.antt =====
-- Retries over a small clock, and creating a volume with retries.
use baiducloud_cce_csi_drive.Base.{
  ℕ, ◌+◌, ◌*◌, true, none, some, ◌∷◌, ◌≡◌, refl, arith, ok, err, Exec, ltb, if◌then◌else◌, count,
  contains, inl,
}
use baiducloud_cce_csi_drive.Csi.{Code}
use baiducloud_cce_csi_drive.Controller.Rpc.{create_volume_rpc, create_volume_rpc-IsGuarded}
use baiducloud_cce_csi_drive.Tests.Clouds.{
  Late, late, late-IsEventual, visible, config, any_node, server_on,
}
use baiducloud_cce_csi_drive.Tests.Creation.{request, fresh, shown, found, attempts}
use baiducloud_cce_csi_drive.Controller.Server.{Server}
use baiducloud_cce_csi_drive.Controller.Create.Guarded.{IsGuarded}
use baiducloud_cce_csi_drive.Controller.Retry.{
  second, Clock, retry_on_aborted, retry_loop, wait, wait_deadline,
}
use baiducloud_cce_csi_drive.Controller.Retry.Ends.{
  IsClock, Returns, IsTimely, retry_on_aborted_ends, retry_without_deadline,
}

-- The state is the time. An attempt takes a second, and is aborted until the fifth second.
abbrev clock : Clock ℕ
clock = record { now = λ t. t; sleep_until = λ t s. t; timer_first = λ s. true }

abbrev slow : Exec ℕ Code ℕ
slow t = ((if ltb t (5 * second) then err Code.aborted else ok t), t + second)

slow-IsClock : IsClock clock slow
slow-IsClock = record { forwards = λ s. omega arith; wakes = λ t s h. omega arith }

-- The third attempt, which begins after six seconds, succeeds.
third_round : retry_on_aborted clock slow 29 none 0 ≡ some (ok (6 * second), 7 * second)
unfolding retry_on_aborted retry_loop wait wait_deadline
third_round = refl

retry_on_aborted_ends_example :
    Returns clock slow
      (IsTimely clock slow (7 * second))
      (retry_on_aborted clock slow 4 (some (10 * second)) 0)
unfolding wait_deadline
retry_on_aborted_ends_example =
    retry_on_aborted_ends clock slow slow-IsClock 4 (some (10 * second)) 0 (omega arith)
      (omega arith)

thirty_rounds :
    Returns clock slow (IsTimely clock slow (57 * second)) (retry_on_aborted clock slow 30 none 0)
thirty_rounds = retry_without_deadline clock slow slow-IsClock 0

-- A clock under which the volume is shown once time has passed.
abbrev showing : Clock (Server Late)
showing = record {
  now = λ s. 0;
  sleep_until = λ t s. record s {
    cloud = record { created = s.cloud.created; shown = "pvc-1" ∷ s.cloud.shown };
  };
  timer_first = λ s. true;
}

two_attempts :
    create_volume_rpc late any_node config showing 2 (some (10 * second)) "k" request fresh
    ≡ some (ok found, server_on shown)
unfolding create_volume_rpc retry_on_aborted retry_loop wait wait_deadline
two_attempts = ground (arith, attempts.0, attempts.2)

-- The first attempt creates the volume and is aborted, and the second finds it.
unique_after_retries : IsGuarded late config (λ w. w.created) visible "pvc-1" (server_on shown)
unfolding create_volume_rpc retry_on_aborted retry_loop wait wait_deadline count contains
unique_after_retries =
    create_volume_rpc-IsGuarded late any_node config showing late-IsEventual "pvc-1"
      (λ t s. (refl, refl, λ h. ground (arith, h))) 2 (some (10 * second)) "k" request fresh
      {r = (ok found, server_on shown)} (record { at_most_one = omega arith; noted = inl refl })
      two_attempts
