-- ===== src/Controller/Flights/Joined.antt =====
-- Who leads, and whose result a caller is given.
use baiducloud_cce_csi_drive.Base.{
  ℕ, String, Bool, true, false, Option, none, some, ◌≡◌, ◌≢◌, ◌⊎◌, inl, inr, refl, sym, ap, subst,
  ◌∙◌, arith, Result, Exec, eqb, Bool-cases,
}
use baiducloud_cce_csi_drive.Csi.{Code}
use baiducloud_cce_csi_drive.Controller.Flights.{
  Group, IsSingleFlight, Phase, idle, leading, waiting, answered, Flights, update, entered,
  FlightStep, enters, attempts, stops, wakes, drifts,
}

update-cases :
    {P : Type 0} (f : ℕ → P) (i : ℕ) (p : P) (j : ℕ)
    → ((i ≡ j) × (update f i p j ≡ p)) ⊎ ((i ≢ j) × (update f i p j ≡ f j))
update-cases f i p j = elim (Bool-cases (eqb i j)) [
  | inl e ↦ inl (ground (arith, e), ground (arith, e))
  | inr e ↦ inr (ground (arith, e), ground (arith, e))
]

-- What holds of each caller still holds when one of them changes.
update-each :
    {P : Type 0} (T : P → Type 0) (f : ℕ → P) (i : ℕ) (p : P)
    → T p
    → ((j : ℕ) → i ≢ j → T (f j))
    → (j : ℕ) → T (update f i p j)
update-each T f i p at others j = elim (update-cases f i p j) [
  | inl (_, e) ↦ rw e at
  | inr (n, e) ↦ rw e (others j n)
]

-- The request of a caller that has come.
abbrev pub request_of : {Q C A : Type 0} → Phase Q C A → Option Q
request_of idle = none
request_of (leading req c last) = some req
request_of (waiting req c) = some req
request_of (answered req r) = some req

module _ {S G Q C A : Type 0} (g : Group G C (Result Code A)) (key : Q → String)
    (f : Q → Exec S Code A) (Drift : S → S → Type 0) (key_of : C → String)
    (Asked : Q → Type 0) where
  -- The result is that of an attempt for a request that is asked, and has the key.
  abbrev pub OfKey : String → Result Code A → Type 0
  OfKey k r = (req : Q) × (t : S) × Asked req × (key req ≡ k) × ((f req t).0 ≡ r)

  -- The requests of the callers are asked.
  abbrev pub AllAsked : Flights S G Q C A → Type 0
  AllAsked s = (i : ℕ) (req : Q) → request_of (s.callers i) ≡ some req → Asked req

  abbrev LastOfKey : String → Option (Result Code A) → Type 0
  LastOfKey k none = Unit
  LastOfKey k (some r) = OfKey k r

  abbrev IsPhase : G → Phase Q C A → Type 0
  IsPhase s idle = Unit
  IsPhase s (leading req c last) =
      (key_of c ≡ key req) × (g.in_flight s c ≡ true) × LastOfKey (key req) last
  IsPhase s (waiting req c) = key_of c ≡ key req
  IsPhase s (answered req r) = OfKey (key req) r

  -- The caller runs the call of the key.
  abbrev pub Leads : String → Phase Q C A → Type 0
  Leads k (leading req c last) = key req ≡ k
  Leads k _ = ⊥

  pub record IsJoined (s : Flights S G Q C A) : Type 0 where
    pub each : (i : ℕ) → IsPhase s.group (s.callers i)
    pub results : (c : C) (r : Result Code A) → g.result s.group c ≡ some r → OfKey (key_of c) r
    pub one : (k : String) (i j : ℕ) → Leads k (s.callers i) → Leads k (s.callers j) → i ≡ j

  one-update :
      (callers : ℕ → Phase Q C A) (i : ℕ) (p : Phase Q C A)
      → ((k : String) (a b : ℕ) → Leads k (callers a) → Leads k (callers b) → a ≡ b)
      → ((k : String) (j : ℕ) → i ≢ j → Leads k p → Leads k (callers j) → ⊥)
      → (k : String) (a b : ℕ) → Leads k (update callers i p a)
      → Leads k (update callers i p b)
      → a ≡ b
  one-update callers i p one new k a b la lb = elim (update-cases callers i p a) [
    | inl (e, x) ↦ elim (update-cases callers i p b) [
      | inl (d, y) ↦ sym e ∙ d
      | inr (n, y) ↦ absurd (new k b n (subst (Leads k) x la) (subst (Leads k) y lb))
    ]
    | inr (m, x) ↦ elim (update-cases callers i p b) [
      | inl (d, y) ↦ absurd (new k a m (subst (Leads k) y lb) (subst (Leads k) x la))
      | inr (n, y) ↦ one k a b (subst (Leads k) x la) (subst (Leads k) y lb)
    ]
  ]

  module _ (L : IsSingleFlight g key_of) where
    -- A caller keeps what holds of it when another enters.
    IsPhase-enter : (k : String) (s : G) (p : Phase Q C A) → IsPhase s p → IsPhase (g.enter k s).1 p
    IsPhase-enter k s idle h = tt
    IsPhase-enter k s (leading req c last) (e, flying, h) = (e, L.enter-flying k c s flying, h)
    IsPhase-enter k s (waiting req c) h = h
    IsPhase-enter k s (answered req r) h = h

    -- A caller keeps what holds of it when a call ends, unless it leads a call of the same key.
    IsPhase-finish :
        (c : C) (r : Result Code A) (s : G) (p : Phase Q C A)
        → ¬ Leads (key_of c) p
        → IsPhase s p
        → IsPhase (g.finish c r s) p
    IsPhase-finish c r s idle n h = tt
    IsPhase-finish c r s (leading req d last) n (e, flying, h) = (
      e,
      elim (L.finish-flying d c r s flying) [
        | inl same ↦ absurd (n (sym e ∙ ap key_of same))
        | inr kept ↦ kept
      ],
      h,
    )
    IsPhase-finish c r s (waiting req d) n h = h
    IsPhase-finish c r s (answered req q) n h = h

    entered-IsPhase :
        (req : Q) (s : G) (x : Bool × C)
        → key_of x.1 ≡ key req
        → (x.0 ≡ true → g.in_flight s x.1 ≡ true)
        → IsPhase s (entered req x)
    entered-IsPhase req s (true, c) e starts = (e, starts refl, tt)
    entered-IsPhase req s (false, c) e starts = e

    -- Who leads from now on is not joined to a call that another leads.
    entered-alone :
        (req : Q) (s : G) (k : String) (p : Phase Q C A) (x : Bool × C)
        → x ≡ (g.enter (key req) s).0
        → IsPhase s p
        → Leads k (entered req x)
        → Leads k p
        → ⊥
    entered-alone req s k idle x same h a b = elim b [ ]
    entered-alone req s k (waiting q c) x same h a b = elim b [ ]
    entered-alone req s k (answered q r) x same h a b = elim b [ ]
    entered-alone req s k (leading q c last) (false, d) same h a b = elim a [ ]
    entered-alone req s k (leading q c last) (true, d) same (e, flying, h) a b =
        let joins = L.enter-joins (key req) c s flying (e ∙ b ∙ sym a) in
        let no : true ≡ false = ap (λ y. y.0) same ∙ ap (λ y. y.0.0) joins in absurd cc

    pub Step-IsJoined :
        {s t : Flights S G Q C A}
        → FlightStep g key f Drift s t
        → AllAsked s
        → IsJoined s
        → IsJoined t
    Step-IsJoined {s} (enters i req e) asked v =
        let x = (g.enter (key req) s.group).0 in
        record {
          each =
              update-each (IsPhase (g.enter (key req) s.group).1) s.callers i (entered req x)
                (entered-IsPhase req (g.enter (key req) s.group).1 x
                  (L.enter-keyed (key req) s.group) (L.enter-starts (key req) s.group))
                (λ j n. IsPhase-enter (key req) s.group (s.callers j) (v.each j));
          results = λ c r h. v.results c r (L.enter-result (key req) c s.group r h);
          one =
              one-update s.callers i (entered req x) v.one
                (λ k j n. entered-alone req s.group k (s.callers j) x refl (v.each j));
        }
    Step-IsJoined {s} (attempts i req c last e p) asked v =
        let (keyed, flying, _) = subst (IsPhase s.group) e (v.each i) in
        let q = leading req c (some (f req s.server).0) in
        record {
          each =
              update-each (IsPhase s.group) s.callers i q
                (keyed, flying, (req, s.server, asked i req (ap request_of e), refl, refl))
                (λ j n. v.each j);
          results = v.results;
          one =
              one-update s.callers i q v.one
                (λ k j n a b. n (v.one k i j (subst (Leads k) (sym e) a) b));
        }
    Step-IsJoined {s} (stops i req c r e) asked v =
        let (keyed, flying, last) = subst (IsPhase s.group) e (v.each i) in
        record {
          each =
              update-each (IsPhase (g.finish c r s.group)) s.callers i (answered req r) last (λ j n.
                IsPhase-finish c r s.group (s.callers j)
                  (λ a. n (v.one (key_of c) i j (subst (Leads (key_of c)) (sym e) (sym keyed)) a))
                  (v.each j));
          results = λ d q h. elim (L.finish-result d c q r s.group h) [
            | inl (same, given) ↦
                subst (λ y. OfKey (key_of y) q) (sym same)
                  (subst (OfKey (key_of c)) (sym given) (subst (λ y. OfKey y r) (sym keyed) last))
            | inr old ↦ v.results d q old
          ];
          one = one-update s.callers i (answered req r) v.one (λ k j n a b. a);
        }
    Step-IsJoined {s} (wakes i req c r e h) asked v =
        let keyed = subst (IsPhase s.group) e (v.each i) in
        record {
          each =
              update-each (IsPhase s.group) s.callers i (answered req r)
                (subst (λ y. OfKey y r) keyed (v.results c r h)) (λ j n. v.each j);
          results = v.results;
          one = one-update s.callers i (answered req r) v.one (λ k j n a b. a);
        }
    Step-IsJoined (drifts t d) asked v = record { each = v.each; results = v.results; one = v.one }

kept :
    {Q C A : Type 0} (callers : ℕ → Phase Q C A) (i : ℕ) (p : Phase Q C A) (j : ℕ) (req : Q)
    → request_of (callers i) ≡ request_of p
    → request_of (callers j) ≡ some req
    → request_of (update callers i p j) ≡ some req
kept callers i p j req same h = elim (update-cases callers i p j) [
  | inl (e, x) ↦ ap request_of x ∙ sym same ∙ ap (λ k. request_of (callers k)) e ∙ h
  | inr (n, x) ↦ ap request_of x ∙ h
]

-- A caller keeps its request.
pub Step-keeps :
    {S G Q C A : Type 0} (g : Group G C (Result Code A)) (key : Q → String) (f : Q → Exec S Code A)
    (Drift : S → S → Type 0) {s t : Flights S G Q C A}
    → FlightStep g key f Drift s t
    → (j : ℕ) (req : Q) → request_of (s.callers j) ≡ some req
    → request_of (t.callers j) ≡ some req
Step-keeps g key f Drift {s} (enters i q e) j req h =
    elim (update-cases s.callers i (entered q (g.enter (key q) s.group).0) j) [
      | inl (same, x) ↦
          let no : none ≡ some req =
            ap request_of (sym e) ∙ ap (λ k. request_of (s.callers k)) same ∙ h in
          absurd cc
      | inr (n, x) ↦ ap request_of x ∙ h
    ]
Step-keeps g key f Drift {s} (attempts i q c last e p) j req h =
    kept s.callers i (leading q c (some (f q s.server).0)) j req (ap request_of e) h
Step-keeps g key f Drift {s} (stops i q c r e) j req h =
    kept s.callers i (answered q r) j req (ap request_of e) h
Step-keeps g key f Drift {s} (wakes i q c r e given) j req h =
    kept s.callers i (answered q r) j req (ap request_of e) h
Step-keeps g key f Drift (drifts t d) j req h = h
