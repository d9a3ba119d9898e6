-- ===== src/Tests/Flights.antt =====
-- Callers of the controller that `singleflight` joins.
use baiducloud_cce_csi_drive.Base.{
  ℕ, suc, ◌≤◌, String, Bool, true, false, Option, none, some, [], ◌∷◌, ◌≡◌, ◌⊎◌, inl, inr, refl,
  arith, ok, Result, eqb, ◌&&◌, ◌==◌, eq_iff, count, if◌then◌else◌, Bool-cases, Option-cases,
  lookup, ap, List,
}
use baiducloud_cce_csi_drive.Base.Int.{pos}
use baiducloud_cce_csi_drive.Csi.{Code}
use baiducloud_cce_csi_drive.Cloud.Auth.{choose_auth}
use baiducloud_cce_csi_drive.Cloud.Volume.{VolumeStatus}
use baiducloud_cce_csi_drive.Cloud.Service.{VolumeService}
use baiducloud_cce_csi_drive.Csi.{get_mode}
use baiducloud_cce_csi_drive.Controller.Capability.{check_volume_capabilities}
use baiducloud_cce_csi_drive.Controller.Server.{Server}
use baiducloud_cce_csi_drive.Controller.Create.{CreateVolumeResponse, create_volume}
use baiducloud_cce_csi_drive.Controller.Publish.{
  PublishRequest, PublishResponse, attachment_to, check_publish, publish_to,
  controller_publish_volume,
}
use baiducloud_cce_csi_drive.Controller.Flights.{
  Group, IsSingleFlight, Phase, update, idle, leading, answered, Flights, enters, attempts, stops,
  here, next,
}
use baiducloud_cce_csi_drive.Controller.Flights.Joined.{request_of}
use baiducloud_cce_csi_drive.Controller.Flights.Created.{created_once}
use baiducloud_cce_csi_drive.Controller.Flights.Publishing.{
  PublishFlights, PublishReach, IsAttachmentTo, published_answer, published_elsewhere,
}
use baiducloud_cce_csi_drive.Tests.Clouds.{
  Late, late, late-IsEventual, visible, config, secrets, writer, volume, one_volume, any_node,
  server_on,
}
use baiducloud_cce_csi_drive.Tests.Creation.{request, fresh}

-- The number of the call of each key in flight, the number of the next call, and the results.
pub record Calls (R : Type 0) : Type 0 where
  pub current : String → Option ℕ
  pub coming : ℕ
  pub given : String → ℕ → Option R

abbrev at_key : {A : Type 0} → String → A → (String → A) → String → A
at_key k a f j = if k == j then a else f j

abbrev is_current : Option ℕ → ℕ → Bool
is_current none n = false
is_current (some m) n = eqb m n

pub record Ticket : Type 0 where
  pub key : String
  pub number : ℕ

abbrev enter_at : {R : Type 0} → String → Option ℕ → Calls R → (Bool × Ticket) × Calls R
enter_at k (some n) s = ((false, record { key = k; number = n }), s)
enter_at k none s = (
  (true, record { key = k; number = s.coming }),
  record s { current = at_key k (some s.coming) s.current; coming = suc s.coming },
)

abbrev pub single : (R : Type 0) → Group (Calls R) Ticket R
single R = record {
  enter = λ k s. enter_at k (s.current k) s;
  finish = λ c r s. record s {
    current = λ k. if c.key == k && is_current (s.current k) c.number then none else s.current k;
    given = λ k n. if c.key == k && eqb c.number n then some r else s.given k n;
  };
  in_flight = λ s c. is_current (s.current c.key) c.number;
  result = λ s c. s.given c.key c.number;
}

Ticket-eq : (c d : Ticket) → c.key ≡ d.key → c.number ≡ d.number → c ≡ d
Ticket-eq c d e f = rw (e, f) refl

module _ {R : Type 0} where
  joins :
      (k : String) (c : Ticket) (s : Calls R)
      → is_current (s.current c.key) c.number ≡ true
      → c.key ≡ k
      → enter_at k (s.current k) s ≡ ((false, c), s)
  joins k c s h e = elim (Option-cases (s.current k)) [
    | inl f ↦ absurd (ground (arith, h, e, f))
    | inr (n, f) ↦
        let same : c.number ≡ n = ground (arith, h, e, f) in
        rw (f, Ticket-eq c (record { key = k; number = n }) e same) refl
  ]

  flying :
      (c d : Ticket) (s : Calls R)
      → is_current (s.current c.key) c.number ≡ true
      → (c ≡ d)
        ⊎ (is_current
              (if d.key == c.key && is_current (s.current c.key) d.number
                then none
                else s.current c.key)
              c.number
            ≡ true)
  flying c d s h = elim (Bool-cases (d.key == c.key && is_current (s.current c.key) d.number)) [
    | inr f ↦ inr (ground (arith, f, h))
    | inl f ↦ elim (Option-cases (s.current c.key)) [
      | inl g ↦ absurd (ground (arith, h, g))
      | inr (n, g) ↦
          inl (Ticket-eq c d (ground (arith, f, eq_iff d.key c.key)) (ground (arith, f, g, h)))
    ]
  ]

  told :
      (c d : Ticket) (r q : R) (s : Calls R)
      → (if d.key == c.key && eqb d.number c.number then some q else s.given c.key c.number)
        ≡ some r
      → ((c ≡ d) × (r ≡ q)) ⊎ (s.given c.key c.number ≡ some r)
  told c d r q s h = elim (Bool-cases (d.key == c.key && eqb d.number c.number)) [
    | inr f ↦ inr (ground (arith, f, h))
    | inl f ↦ inl (
      Ticket-eq c d (ground (arith, f, eq_iff d.key c.key)) (ground (arith, f)),
      ground (arith, f, h),
    )
  ]

single-IsSingleFlight : (R : Type 0) → IsSingleFlight (single R) (λ c. c.key)
single-IsSingleFlight R = record {
  enter-keyed = λ k s. ground arith;
  enter-joins = joins;
  enter-starts = λ k s h. ground (arith, h, eq_iff k k);
  enter-flying = λ k c s h. ground (arith, h, eq_iff k c.key);
  enter-result = λ k c s r h. ground (arith, h);
  finish-flying = λ c d r s h. flying c d s h;
  finish-given = λ c r s. ground (arith, eq_iff c.key c.key);
  finish-result = told;
}

-- A cloud with a volume that is attached to the first of two nodes.
abbrev used : VolumeService (Unit {0})
used = one_volume (
    volume "v-1" (pos 100) VolumeStatus.in_use
      (record { instance_id = "i-1"; device = "/dev/vdb"; serial = "s-1" } ∷ []))

abbrev to_node : String → PublishRequest
to_node node_id = record {
  volume_id = "v-1";
  node_id = node_id;
  volume_capability = some writer;
  secrets = secrets;
}

abbrev NoDrift : Server (Unit {0}) → Server (Unit {0}) → Type 0
NoDrift s t = ⊥

abbrev pub calm : {S Q A : Type 0} → S → Flights S (Calls (Result Code A)) Q Ticket A
calm s = record {
  group = record { current = λ k. none; coming = 0; given = λ k n. none };
  server = s;
  callers = λ i. idle;
}

abbrev found : PublishResponse
found = record { dev_name = "/dev/vdb"; serial = "s-1" }

first_succeeds :
    (controller_publish_volume used any_node config (to_node "i-1") (server_on tt)).0 ≡ ok found
unfolding controller_publish_volume check_publish check_volume_capabilities get_mode choose_auth
    lookup publish_to attachment_to
first_succeeds = refl

abbrev Publishing : Type 0
Publishing =
    PublishFlights used any_node config (single (Result Code PublishResponse)) NoDrift (λ c. c.key)
      (single-IsSingleFlight (Result Code PublishResponse))

-- The second caller is told of success for a node that the volume is not attached to.
published_elsewhere_example :
    (t : Publishing) × PublishReach used any_node config
      (single (Result Code PublishResponse))
      NoDrift
      (λ c. c.key)
      (single-IsSingleFlight (Result Code PublishResponse))
      (calm (server_on tt))
      t
    × (t.callers 1 ≡ answered (to_node "i-2") (ok found))
    × IsAttachmentTo used any_node config
        (single (Result Code PublishResponse))
        NoDrift
        (λ c. c.key)
        (single-IsSingleFlight (Result Code PublishResponse))
        "v-1"
        "i-1"
        found
published_elsewhere_example =
    published_elsewhere used any_node config (single (Result Code PublishResponse)) NoDrift
      (λ c. c.key) (single-IsSingleFlight (Result Code PublishResponse)) (calm (server_on tt))
      (to_node "i-1") (to_node "i-2") (record { all_idle = λ i. refl; no_result = λ c. refl }) refl
      refl first_succeeds

abbrev first : Option (Result Code PublishResponse) → Phase PublishRequest Ticket PublishResponse
first last = leading (to_node "i-1") (record { key = "v-1"; number = 0 }) last

-- The callers after the first has come, made its attempt and stopped.
abbrev first_callers : ℕ → Phase PublishRequest Ticket PublishResponse
first_callers =
    update
      (update (update (λ i. idle) 0 (first none)) 0 (
        first
          (some (controller_publish_volume used any_node config (to_node "i-1") (server_on tt)).0)))
      0 (answered (to_node "i-1") (ok found))

published_answer_example :
    (j : ℕ) × (asked : PublishRequest) × (request_of (first_callers j) ≡ some asked)
    × (asked.volume_id ≡ "v-1")
    × IsAttachmentTo used any_node config
        (single (Result Code PublishResponse))
        NoDrift
        (λ c. c.key)
        (single-IsSingleFlight (Result Code PublishResponse))
        "v-1"
        asked.node_id
        found
published_answer_example =
    published_answer used any_node config (single (Result Code PublishResponse)) NoDrift
      (λ c. c.key) (single-IsSingleFlight (Result Code PublishResponse)) {s = calm (server_on tt)}
      (record { all_idle = λ i. refl; no_result = λ c. refl })
      (next
        (next (next here (enters 0 (to_node "i-1") refl))
          (attempts 0 (to_node "i-1") (record { key = "v-1"; number = 0 }) none refl refl))
        (stops 0 (to_node "i-1") (record { key = "v-1"; number = 0 }) (ok found)
          (ap (λ r. leading (to_node "i-1") (record { key = "v-1"; number = 0 }) (some r))
            first_succeeds)))
      0 {req = to_node "i-1"} refl

abbrev created_by : Late → List String
created_by w = w.created

-- Two callers for one name: the first has made its attempt when the second comes.
created_once_example :
    count "pvc-1" (create_volume late config "pvc-1" request fresh).1.cloud.created ≤ 1
created_once_example =
    created_once late config created_by visible late-IsEventual
      (single (Result Code CreateVolumeResponse)) (λ req. req.name) "pvc-1" {s = calm fresh}
      (unfold count in refl)
      (next
        (next (next here (enters 0 request refl))
          (attempts 0 request (record { key = "pvc-1"; number = 0 }) none refl refl))
        (enters 1 request refl))
