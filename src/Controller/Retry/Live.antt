-- ===== src/Controller/Retry/Live.antt =====
-- The retry loop goes on for as long as it has to.
use baiducloud_cce_csi_drive.Base.{
  ℕ, zero, suc, ◌+◌, ◌*◌, ◌≤◌, ◌<◌, false, Option, none, some, Result, ◌≡◌, refl, inl, inr, arith,
  Exec, Bool-cases,
}
use baiducloud_cce_csi_drive.Csi.{Code}
use baiducloud_cce_csi_drive.Controller.Retry.{
  second, Clock, is_aborted, again, wait, retry_loop, wait_deadline, retry_on_aborted,
}
use baiducloud_cce_csi_drive.Controller.Retry.Ends.{IsClock, Returns}

module _ {S A : Type 0} (c : Clock S) (f : Exec S Code A) where
  -- The state in which the attempt of a number begins, after attempts that were aborted.
  unfoldable pub attempt_state : ℕ → S → S
  attempt_state zero s = s
  attempt_state (suc n) s =
      let t = (f s).1 in attempt_state n (c.sleep_until (c.now t + 2 * second) t)

  attempt_later : IsClock c f → (n : ℕ) (s : S) → c.now s ≤ c.now (attempt_state n s)
  unfolding attempt_state
  attempt_later L zero s = omega arith
  attempt_later L (suc n) s =
      let t = (f s).1 in
      let next = c.now t + 2 * second in
      omega (
        arith,
        L.forwards s,
        L.wakes next t (omega arith),
        attempt_later L n (c.sleep_until next t),
      )

  waits_again :
      (deadline : ℕ) (s : S) → c.now s + 2 * second < deadline → wait c f deadline s ≡ again
  unfolding wait
  waits_again deadline s h = ground arith

  -- The loop has ended with an attempt that is not aborted, of at most the given number.
  abbrev pub IsDone : ℕ → S → Option (Result Code A × S) → Type 0
  IsDone n s r =
      Returns c f (λ x. (is_aborted x.0 ≡ false) × (i : ℕ) × (i ≤ n) × (x ≡ f (attempt_state i s)))
        r

  one_more :
      (n : ℕ) (s : S) (r : Option (Result Code A × S))
      → IsDone n (c.sleep_until (c.now (f s).1 + 2 * second) (f s).1) r
      → IsDone (suc n) s r
  unfolding attempt_state
  one_more n s none h = h
  one_more n s (some x) (a, i, le, e) = (a, suc i, omega arith, e)

  retry_loop-IsDone :
      IsClock c f
      → (n fuel deadline : ℕ) (s : S) → n < fuel
      → c.now (attempt_state n s) < deadline
      → is_aborted (f (attempt_state n s)).0 ≡ false
      → IsDone n s (retry_loop c f fuel deadline s)
  unfolding retry_loop attempt_state
  retry_loop-IsDone L n zero deadline s p t h = absurd (omega arith)
  retry_loop-IsDone L zero (suc fuel) deadline s p t h =
      rw (h, retry_loop) (h, zero, omega arith, refl)
  retry_loop-IsDone L (suc n) (suc fuel) deadline s p t h = elim (Bool-cases (is_aborted (f s).0)) [
    | inr done ↦ rw (done, retry_loop) (done, zero, omega arith, refl)
    | inl aborted ↦
        let u = (f s).1 in
        let next = c.now u + 2 * second in
        let woken = c.sleep_until next u in
        let w : wait c f deadline u ≡ again =
          waits_again deadline u
            (omega (arith, L.wakes next u (omega arith), attempt_later L n woken)) in
        rw (aborted, w, retry_loop)
          (one_more n s _ (retry_loop-IsDone L n fuel deadline woken (omega arith) t h))
  ]

  -- Over a clock that does not run backwards, where the attempt of a number, should it come to it,
  -- begins before the deadline of the wait and is not aborted, and the fuel allows for it, the
  -- retries return: the result is that of an attempt of at most this number that is not aborted.
  pub retry_on_aborted-IsDone :
      IsClock c f
      → (n fuel : ℕ) (deadline : Option ℕ) (s : S) → n < fuel
      → c.now (attempt_state n s) < wait_deadline c f deadline s
      → is_aborted (f (attempt_state n s)).0 ≡ false
      → IsDone n s (retry_on_aborted c f fuel deadline s)
  unfolding retry_on_aborted
  retry_on_aborted-IsDone L n fuel deadline s p t h = retry_loop-IsDone L n fuel _ s p t h
