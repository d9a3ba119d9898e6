-- ===== src/Controller/Flights/Answered.antt =====
-- What `singleflight` gives the callers of a handler: results of attempts for requests with their key.
use baiducloud_cce_csi_drive.Base.{
  ℕ, String, Bool, true, false, none, some, ◌≡◌, refl, sym, ap, subst, ◌∙◌, Result, Exec,
}
use baiducloud_cce_csi_drive.Csi.{Code}
use baiducloud_cce_csi_drive.Controller.Flights.{
  Group, IsSingleFlight, Phase, idle, leading, waiting, answered, Flights, entered, enters,
  attempts, stops, wakes, FlightReach, here, next,
}
use baiducloud_cce_csi_drive.Controller.Flights.Joined.{
  request_of, OfKey, AllAsked, Leads, IsJoined, Step-IsJoined, Step-keeps,
}

entered-leads :
    {Q C A : Type 0} (q : Q) (x : Bool × C)
    → x.0 ≡ true
    → ◌≡◌ {A = Phase Q C A} (entered q x) (leading q x.1 none)
entered-leads q (true, c) e = refl
entered-leads q (false, c) e = absurd cc

module _ {S G Q C A : Type 0} (g : Group G C (Result Code A)) (key : Q → String)
    (f : Q → Exec S Code A) (Drift : S → S → Type 0) (key_of : C → String) where
  -- No caller has come yet, and no call has a result.
  pub record IsQuiet (s : Flights S G Q C A) : Type 0 where
    pub all_idle : (i : ℕ) → s.callers i ≡ idle
    pub no_result : (c : C) → g.result s.group c ≡ none

  -- A caller of the state has the request.
  abbrev pub AskedIn : Flights S G Q C A → Q → Type 0
  AskedIn t req = (j : ℕ) × (request_of (t.callers j) ≡ some req)

  module _ (L : IsSingleFlight g key_of) where
    IsQuiet-IsJoined :
        (Asked : Q → Type 0) {s : Flights S G Q C A}
        → IsQuiet s
        → IsJoined g key f Drift key_of Asked s
    IsQuiet-IsJoined Asked q = record {
      each = λ i. rw (q.all_idle i) tt;
      results = λ c r h. let no = sym (q.no_result c) ∙ h in absurd cc;
      one = λ k i j a b. absurd (subst (Leads g key f Drift key_of Asked k) (q.all_idle i) a);
    }

    Reach-IsJoined :
        (Asked : Q → Type 0) {s t : Flights S G Q C A}
        → FlightReach g key f Drift s t
        → AllAsked g key f Drift key_of Asked t
        → IsQuiet s
        → IsJoined g key f Drift key_of Asked t
    Reach-IsJoined Asked here asked q = IsQuiet-IsJoined Asked q
    Reach-IsJoined Asked (next {t = u} r st) asked q =
        let before : AllAsked g key f Drift key_of Asked u =
          λ i req h. asked i req (Step-keeps g key f Drift st i req h) in
        Step-IsJoined g key f Drift key_of Asked L st before (Reach-IsJoined Asked r before q)

    -- Over a group that acts as `IsSingleFlight` says: in every interleaving of the callers of a
    -- handler from a quiet start, the result that a caller is given is that of an attempt for a
    -- request of a caller, with the key of its own.
    pub answer-OfKey :
        {s t : Flights S G Q C A}
        → IsQuiet s
        → FlightReach g key f Drift s t
        → (i : ℕ) {q : Q} {r : Result Code A} → t.callers i ≡ answered q r
        → OfKey g key f Drift key_of (AskedIn t) (key q) r
    answer-OfKey {t = t} quiet r i x =
        let h = (Reach-IsJoined (AskedIn t) r (λ j req e. (j, e)) quiet).each i in rw x at h

    -- A caller that comes while another makes its attempt is given the result of it, whatever its own
    -- request says beside the key.
    pub joined_answer :
        (s : Flights S G Q C A) (q p : Q) {r : Result Code A}
        → IsQuiet s
        → (g.enter (key q) s.group).0.0 ≡ true
        → key p ≡ key q
        → (f q s.server).0 ≡ r
        → (t : Flights S G Q C A) × FlightReach g key f Drift s t × (t.callers 1 ≡ answered p r)
    joined_answer s q p {r} quiet free same h =
        let entry = g.enter (key q) s.group in
        let c = entry.0.1 in
        let joins : g.enter (key p) entry.1 ≡ ((false, c), entry.1) =
          L.enter-joins (key p) c entry.1 (L.enter-starts (key q) s.group free)
            (L.enter-keyed (key q) s.group ∙ sym same) in
        let waits : entered p (g.enter (key p) entry.1).0 ≡ waiting p c =
          ap (λ y. entered p y.0) joins in
        let r1 = next here (enters 0 q (quiet.all_idle 0)) in
        let r2 = next r1 (enters 1 p (quiet.all_idle 1)) in
        let r3 = next r2 (attempts 0 q c none (entered-leads q entry.0 free) refl) in
        let r4 = next r3 (stops 0 q c (f q s.server).0 refl) in
        let r5 = next r4 (
          wakes 1 p c (f q s.server).0 waits
            (L.finish-given c (f q s.server).0 (g.enter (key p) entry.1).1)) in
        (_, r5, ap (answered p) h)
