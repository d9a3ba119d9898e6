-- ===== src/Controller/Retry.antt =====
-- `retryOnAborted`: attempts of a handler until one is not aborted or the deadline is near. Times
-- are nanoseconds. Callers that `singleflight` joins to a running call are not modelled: they get
-- its result.
pub mod Ends
pub mod Live
use baiducloud_cce_csi_drive.Base.{
  ℕ, zero, suc, ◌+◌, ◌-◌, ◌*◌, Bool, true, false, Option, none, some, Result, ok, err, Exec, leb,
  ltb, eqb, if◌then◌else◌,
}
use baiducloud_cce_csi_drive.Csi.{Code}

abbrev pub second : ℕ
second = 1000000000

-- The time that a state shows, waiting until a time, and the branch that `select` takes where the
-- deadline and the timer are due at the same time.
pub record Clock (S : Type 0) : Type 0 where
  pub now : S → ℕ
  pub sleep_until : ℕ → S → S
  pub timer_first : S → Bool

abbrev pub is_aborted : {A : Type 0} → Result Code A → Bool
is_aborted (ok a) = false
is_aborted (err Code.aborted) = true
is_aborted (err _) = false

-- How the `select` after an aborted attempt ends.
pub data Wait : Type 0 where
  exceeded : Wait
  deadline_first : Wait
  again : Wait

module _ {S A : Type 0} (c : Clock S) (f : Exec S Code A) where
  unfoldable pub wait : ℕ → S → Wait
  wait deadline s =
      if leb deadline (c.now s)
      then exceeded
      else if ltb (c.now s + 2 * second) deadline
      then again
      else if eqb (c.now s + 2 * second) deadline
      then (if c.timer_first s then again else deadline_first)
      else deadline_first

  -- The retry loop, with the deadline of the wait; `none` where the fuel runs out.
  unfoldable pub retry_loop : ℕ → ℕ → S → Option (Result Code A × S)
  retry_loop zero deadline s = none
  retry_loop (suc fuel) deadline s =
      let r = f s in
      elim (is_aborted r.0) [
        | false ↦ some r
        | true ↦ elim (wait deadline r.1) [
          | exceeded ↦ some r
          | deadline_first ↦ some (r.0, c.sleep_until deadline r.1)
          | again ↦ retry_loop fuel deadline (c.sleep_until (c.now r.1 + 2 * second) r.1)
        ]
      ]

  -- The deadline of the context, a minute ahead where it has none, less three seconds.
  unfoldable pub wait_deadline : Option ℕ → S → ℕ
  wait_deadline none s = c.now s + 60 * second - 3 * second
  wait_deadline (some deadline) s = deadline - 3 * second

  unfoldable pub retry_on_aborted : ℕ → Option ℕ → S → Option (Result Code A × S)
  retry_on_aborted fuel deadline s = retry_loop fuel (wait_deadline deadline s) s
