-- ===== src/Controller/Flights/Created.antt =====
-- The callers of `CreateVolume`: no name gets a second volume.
use baiducloud_cce_csi_drive.Base.{◌≤◌, String, Bool, true, List, ◌≡◌, inl, arith, Result, count}
use baiducloud_cce_csi_drive.Csi.{Code}
use baiducloud_cce_csi_drive.Cloud.Service.{VolumeService}
use baiducloud_cce_csi_drive.Controller.Server.{Server, Config}
use baiducloud_cce_csi_drive.Controller.Create.{
  CreateVolumeRequest, CreateVolumeResponse, create_volume,
}
use baiducloud_cce_csi_drive.Controller.Create.Guarded.{
  IsEventual, IsGuarded, create_volume-IsGuarded,
}
use baiducloud_cce_csi_drive.Controller.Flights.{
  Group, Flights, FlightStep, enters, attempts, stops, wakes, drifts, FlightReach, here, next,
}

module _ {W : Type 0} (vs : VolumeService W) (config : Config) (created : W → List String)
    (visible : W → String → Bool) where
  -- A change from outside: it creates no volume, hides none, and leaves the cache alone.
  pub record IsQuietDrift (s t : Server W) : Type 0 where
    pub created_same : created t.cloud ≡ created s.cloud
    pub cache_same : t.creating_volume_cache ≡ s.creating_volume_cache
    pub still_visible : (n : String) → visible s.cloud n ≡ true → visible t.cloud n ≡ true

  module _ {G C : Type 0} (L : IsEventual vs created visible)
      (g : Group G C (Result Code CreateVolumeResponse)) (text : CreateVolumeRequest → String) where
    -- The callers of `CreateVolume`, with the text of a request under which it is locked.
    abbrev pub CreateReach :
        Flights (Server W) G CreateVolumeRequest C CreateVolumeResponse
        → Flights (Server W) G CreateVolumeRequest C CreateVolumeResponse
        → Type 0
    CreateReach s t =
        FlightReach g (λ req. req.name) (λ req. create_volume vs config (text req) req) IsQuietDrift
          s t

    Step-IsGuarded :
        (n : String) {s t : Flights (Server W) G CreateVolumeRequest C CreateVolumeResponse}
        → FlightStep g
            (λ req. req.name)
            (λ req. create_volume vs config (text req) req)
            IsQuietDrift
            s
            t
        → IsGuarded vs config created visible n s.server
        → IsGuarded vs config created visible n t.server
    Step-IsGuarded n (enters i req e) h = h
    Step-IsGuarded n {s} (attempts i req c last e p) h =
        create_volume-IsGuarded vs config created visible L n (text req) req s.server h
    Step-IsGuarded n (stops i req c r e) h = h
    Step-IsGuarded n (wakes i req c r e q) h = h
    Step-IsGuarded n (drifts t d) h =
        ground (arith, h.at_most_one, h.noted, d.created_same, d.cache_same, d.still_visible n)

    Reach-IsGuarded :
        (n : String) {s t : Flights (Server W) G CreateVolumeRequest C CreateVolumeResponse}
        → CreateReach s t
        → IsGuarded vs config created visible n s.server
        → IsGuarded vs config created visible n t.server
    Reach-IsGuarded n here h = h
    Reach-IsGuarded n (next r st) h = Step-IsGuarded n st (Reach-IsGuarded n r h)

    -- Over a cloud that acts as `IsEventual` says, which may show its volumes late, and from a server
    -- under which no volume of a name has been created: however the callers of `CreateVolume` come,
    -- retry, wait for each other and give up, and however the cloud changes meanwhile without
    -- creating or hiding a volume, at most one volume of the name has been created.
    pub created_once :
        (n : String) {s t : Flights (Server W) G CreateVolumeRequest C CreateVolumeResponse}
        → count n (created s.server.cloud) ≡ 0
        → CreateReach s t
        → count n (created t.server.cloud) ≤ 1
    created_once n fresh r =
        (Reach-IsGuarded n r (record { at_most_one = omega arith; noted = inl fresh })).at_most_one
