-- ===== src/Controller/Retry/Ends.antt =====
-- The retry loop ends, with what it promises on its end, and keeps what an attempt keeps.
use baiducloud_cce_csi_drive.Base.{
  ℕ, zero, suc, ◌+◌, ◌-◌, ◌*◌, ◌≤◌, ◌<◌, true, Option, none, some, ◌≡◌, subst, ◌⊎◌, inl, inr, arith,
  Result, Exec, Bool-cases,
}
use baiducloud_cce_csi_drive.Csi.{Code}
use baiducloud_cce_csi_drive.Controller.Retry.{
  second, Clock, is_aborted, Wait, exceeded, deadline_first, again, wait, retry_loop, wait_deadline,
  retry_on_aborted,
}

-- Time does not run backwards in an attempt, and waiting does not end before the time that is
-- waited for.
pub record IsClock {S A : Type 0} (c : Clock S) (f : Exec S Code A) : Type 0 where
  pub forwards : (s : S) → c.now s ≤ c.now (f s).1
  pub wakes : (t : ℕ) (s : S) → c.now s ≤ t → t ≤ c.now (c.sleep_until t s)

Wait-cases : (w : Wait) → (w ≡ exceeded) ⊎ (w ≡ deadline_first) ⊎ (w ≡ again)
Wait-cases w = ground arith

module _ {S A : Type 0} (c : Clock S) (f : Exec S Code A) where
  -- The result of a loop that has ended satisfies `P`.
  abbrev pub Returns : (Result Code A × S → Type 0) → Option (Result Code A × S) → Type 0
  Returns P none = ⊥
  Returns P (some r) = P r

  -- An aborted result comes when the deadline has.
  abbrev pub IsTimely : ℕ → Result Code A × S → Type 0
  IsTimely deadline r = is_aborted r.0 ≡ true → deadline ≤ c.now r.1

  again_in_time :
      (deadline : ℕ) (s : S) → wait c f deadline s ≡ again → c.now s + 2 * second ≤ deadline
  unfolding wait
  again_in_time deadline s h = ground arith

  exceeded_at_end : (deadline : ℕ) (s : S) → wait c f deadline s ≡ exceeded → deadline ≤ c.now s
  unfolding wait
  exceeded_at_end deadline s h = ground arith

  deadline_ahead :
      (deadline : ℕ) (s : S) → wait c f deadline s ≡ deadline_first → c.now s ≤ deadline
  unfolding wait
  deadline_ahead deadline s h = ground arith

  retry_loop_ends :
      IsClock c f
      → (fuel deadline : ℕ) (s : S) → deadline < c.now s + fuel * (2 * second)
      → 0 < fuel
      → Returns (IsTimely deadline) (retry_loop c f fuel deadline s)
  unfolding retry_loop
  retry_loop_ends L zero deadline s h p = elim p [ ]
  retry_loop_ends L (suc fuel) deadline s h p = elim (Bool-cases (is_aborted (f s).0)) [
    | inr done ↦ rw (done, retry_loop) (λ a. cc (done, a))
    | inl aborted ↦
        let t = (f s).1 in
        elim (Wait-cases (wait c f deadline t)) [
          | inl w ↦ rw (aborted, w, retry_loop) (λ _. exceeded_at_end deadline t w)
          | inr (inl w) ↦
              rw (aborted, w, retry_loop)
                (λ _. omega (arith, L.wakes deadline t (deadline_ahead deadline t w)))
          | inr (inr w) ↦
              let next = c.now t + 2 * second in
              let woken : next ≤ c.now (c.sleep_until next t) = L.wakes next t (omega arith) in
              rw (aborted, w, retry_loop)
                (retry_loop_ends L fuel deadline (c.sleep_until next t)
                  (omega (arith, woken, L.forwards s))
                  (omega (arith, woken, L.forwards s, again_in_time deadline t w)))
        ]
  ]

  -- Over a clock that does not run backwards, with more than one round of fuel for each two seconds
  -- to the deadline, the retries end, and an aborted result comes only when the deadline of the wait
  -- has come.
  pub retry_on_aborted_ends :
      IsClock c f
      → (fuel : ℕ) (deadline : Option ℕ) (s : S)
      → wait_deadline c f deadline s < c.now s + fuel * (2 * second)
      → 0 < fuel
      → Returns (IsTimely (wait_deadline c f deadline s)) (retry_on_aborted c f fuel deadline s)
  unfolding retry_on_aborted
  retry_on_aborted_ends L fuel deadline s h p = retry_loop_ends L fuel _ s h p

  -- Over a clock that does not run backwards, and without a deadline of the context, thirty rounds
  -- of fuel are enough: the retries end, and an aborted result comes no earlier than 57 seconds
  -- after the start.
  pub retry_without_deadline :
      IsClock c f
      → (s : S) → Returns (IsTimely (c.now s + 57 * second)) (retry_on_aborted c f 30 none s)
  unfolding retry_on_aborted wait_deadline
  retry_without_deadline L s =
      let e : c.now s + 60 * second - 3 * second ≡ c.now s + 57 * second = omega arith in
      rw e (retry_loop_ends L 30 (c.now s + 57 * second) s (omega arith) (omega arith))

  abbrev Kept : (S → Type 0) → Option (Result Code A × S) → Type 0
  Kept P none = Unit
  Kept P (some r) = P r.1

  module _ (P : S → Type 0) (keep : (s : S) → P s → P (f s).1)
      (sleeps : (t : ℕ) (s : S) → P s → P (c.sleep_until t s)) where
    retry_loop_keeps : (fuel deadline : ℕ) (s : S) → P s → Kept P (retry_loop c f fuel deadline s)
    unfolding retry_loop
    retry_loop_keeps zero deadline s h = tt
    retry_loop_keeps (suc fuel) deadline s h = elim (Bool-cases (is_aborted (f s).0)) [
      | inr done ↦ rw (done, retry_loop) (keep s h)
      | inl aborted ↦
          let t = (f s).1 in
          elim (Wait-cases (wait c f deadline t)) [
            | inl w ↦ rw (aborted, w, retry_loop) (keep s h)
            | inr (inl w) ↦ rw (aborted, w, retry_loop) (sleeps deadline t (keep s h))
            | inr (inr w) ↦
                rw (aborted, w, retry_loop)
                  (retry_loop_keeps fuel deadline _ (sleeps (c.now t + 2 * second) t (keep s h)))
          ]
    ]

    -- What an attempt and waiting keep, the retries keep.
    pub retry_on_aborted_keeps :
        (fuel : ℕ) (deadline : Option ℕ) (s : S) {r : Result Code A × S}
        → P s
        → retry_on_aborted c f fuel deadline s ≡ some r
        → P r.1
    unfolding retry_on_aborted
    retry_on_aborted_keeps fuel deadline s h e =
        subst (Kept P) e (retry_loop_keeps fuel (wait_deadline c f deadline s) s h)
