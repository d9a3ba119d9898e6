-- ===== src/Controller/Flights.antt =====
-- The callers of a handler that retries: `retryOnAborted` with its group of `singleflight`, which
-- joins a caller to the call of its key that is running. The group is a parameter.
pub mod Joined
pub mod Answered
pub mod Publishing
pub mod Created
use baiducloud_cce_csi_drive.Base.{
  ℕ, String, Bool, true, false, Option, none, some, ◌≡◌, ◌⊎◌, Result, Exec, eqb, if◌then◌else◌,
}
use baiducloud_cce_csi_drive.Csi.{Code}
use baiducloud_cce_csi_drive.Controller.Retry.{is_aborted}

-- `singleflight.Group`: a caller enters with a key and is told whether it leads, which is to run the
-- call, and the call; a call that is finished has a result, which its waiting callers are given.
pub record Group (G C R : Type 0) : Type 0 where
  pub enter : String → G → (Bool × C) × G
  pub finish : C → R → G → G
  pub in_flight : G → C → Bool
  pub result : G → C → Option R

-- What `singleflight` documents: a caller leads where no call of its key is in flight, and otherwise
-- gets the one that is; a call is in flight until it is finished, and has then the result of its
-- leader.
pub record IsSingleFlight {G C R : Type 0} (g : Group G C R) (key_of : C → String) : Type 0 where
  pub enter-keyed : (key : String) (s : G) → key_of (g.enter key s).0.1 ≡ key
  pub enter-joins :
      (key : String) (c : C) (s : G)
      → g.in_flight s c ≡ true
      → key_of c ≡ key
      → g.enter key s ≡ ((false, c), s)
  pub enter-starts :
      (key : String) (s : G)
      → (g.enter key s).0.0 ≡ true
      → g.in_flight (g.enter key s).1 (g.enter key s).0.1 ≡ true
  pub enter-flying :
      (key : String) (c : C) (s : G)
      → g.in_flight s c ≡ true
      → g.in_flight (g.enter key s).1 c ≡ true
  pub enter-result :
      (key : String) (c : C) (s : G) (r : R)
      → g.result (g.enter key s).1 c ≡ some r
      → g.result s c ≡ some r
  pub finish-flying :
      (c d : C) (r : R) (s : G)
      → g.in_flight s c ≡ true
      → (c ≡ d) ⊎ (g.in_flight (g.finish d r s) c ≡ true)
  pub finish-given : (c : C) (r : R) (s : G) → g.result (g.finish c r s) c ≡ some r
  pub finish-result :
      (c d : C) (r q : R) (s : G)
      → g.result (g.finish d q s) c ≡ some r
      → ((c ≡ d) × (r ≡ q)) ⊎ (g.result s c ≡ some r)

-- Where a caller is: a leader has the result of its last attempt, if it has made one.
pub data Phase (Q C A : Type 0) : Type 0 where
  idle : Phase Q C A
  leading : Q → C → Option (Result Code A) → Phase Q C A
  waiting : Q → C → Phase Q C A
  answered : Q → Result Code A → Phase Q C A

pub record Flights (S G Q C A : Type 0) : Type 0 where
  pub group : G
  pub server : S
  pub callers : ℕ → Phase Q C A

abbrev pub update : {P : Type 0} → (ℕ → P) → ℕ → P → ℕ → P
update f i p j = if eqb i j then p else f j

-- An attempt follows where there was none, or the last one was aborted.
abbrev pub is_pending : {A : Type 0} → Option (Result Code A) → Bool
is_pending none = true
is_pending (some r) = is_aborted r

abbrev pub entered : {Q C A : Type 0} → Q → Bool × C → Phase Q C A
entered req (true, c) = leading req c none
entered req (false, c) = waiting req c

module _ {S G Q C A : Type 0} (g : Group G C (Result Code A)) (key : Q → String)
    (f : Q → Exec S Code A) (Drift : S → S → Type 0) where
  -- What happens: a caller enters; a leader makes an attempt, unless the last one was not aborted,
  -- or stops, since it was not or since its deadline is near; a caller that waits gets its result;
  -- and the server's state changes from outside.
  pub data FlightStep (s : Flights S G Q C A) : Flights S G Q C A → Type 0 where
    enters :
        (i : ℕ) (req : Q)
        → s.callers i ≡ idle
        → FlightStep s (record s {
          group = (g.enter (key req) s.group).1;
          callers = update s.callers i (entered req (g.enter (key req) s.group).0);
        })
    attempts :
        (i : ℕ) (req : Q) (c : C) (last : Option (Result Code A))
        → s.callers i ≡ leading req c last
        → is_pending last ≡ true
        → FlightStep s (record s {
          server = (f req s.server).1;
          callers = update s.callers i (leading req c (some (f req s.server).0));
        })
    stops :
        (i : ℕ) (req : Q) (c : C) (r : Result Code A)
        → s.callers i ≡ leading req c (some r)
        → FlightStep s (record s {
          group = g.finish c r s.group;
          callers = update s.callers i (answered req r);
        })
    wakes :
        (i : ℕ) (req : Q) (c : C) (r : Result Code A)
        → s.callers i ≡ waiting req c
        → g.result s.group c ≡ some r
        → FlightStep s (record s { callers = update s.callers i (answered req r) })
    drifts : (t : S) → Drift s.server t → FlightStep s (record s { server = t })

  pub data FlightReach (s : Flights S G Q C A) : Flights S G Q C A → Type 0 where
    here : FlightReach s s
    next : {t u : Flights S G Q C A} → FlightReach s t → FlightStep t u → FlightReach s u
