-- ===== src/Controller/Create.antt =====
-- `createVolume`: one attempt of `CreateVolume`, with its `defer`s.
pub mod Lock
pub mod Guarded
pub mod Once
pub mod Errors
use Prim.Native.String.{◌++◌ as ◌<>◌}
use baiducloud_cce_csi_drive.Base.{
  String, Bool, true, false, not, Option, none, some, List, [], ◌∷◌, ◌==◌, Result, ok, err, Exec,
  ◌>>=◌, ◌>>◌, pure, fail, lift, or_fail, refuse_if, finally, contains, if◌then◌else◌,
}
use baiducloud_cce_csi_drive.Base.Int.{ℤ, eqb_ℤ}
use baiducloud_cce_csi_drive.Util.Size.{size_gb_to_bytes}
use baiducloud_cce_csi_drive.Util.KeyMutex.{try_lock, unlock}
use baiducloud_cce_csi_drive.Cloud.Error.{CloudError, err_is_not_found, err_is_invalid_argument}
use baiducloud_cce_csi_drive.Cloud.Auth.{Auth}
use baiducloud_cce_csi_drive.Cloud.Volume.{Volume, zone, is_creating}
use baiducloud_cce_csi_drive.Cloud.Service.{CreateCdsVolumeArgs, VolumeService}
use baiducloud_cce_csi_drive.Csi.{
  Code, StringMap, CapacityRange, Topology, TopologyRequirement, VolumeCapability,
}
use baiducloud_cce_csi_drive.Controller.Capability.{volume_caps, check_volume_capabilities}
use baiducloud_cce_csi_drive.Controller.Capacity.{get_volume_size_gb}
use baiducloud_cce_csi_drive.Controller.Zone.{get_volume_zone}
use baiducloud_cce_csi_drive.Controller.Parameters.{Parameters, no_parameters, parse_parameters}
use baiducloud_cce_csi_drive.Controller.Server.{
  Server, Config, on_cloud, forget, remember, auth_code,
}

pub record CreateVolumeRequest : Type 0 where
  pub name : String
  pub volume_capabilities : List (Option VolumeCapability)
  pub capacity_range : Option CapacityRange
  pub accessibility_requirements : Option TopologyRequirement
  pub parameters : List (String × String)
  pub secrets : StringMap

pub record CreateVolumeResponse : Type 0 where
  pub capacity_bytes : ℤ
  pub volume_id : String
  pub accessible_topology : List Topology

-- What the first part of the handler reads from the request.
pub record Wanted : Type 0 where
  pub size_gb : ℤ
  pub zone : String
  pub parameters : Parameters
  pub auth : Auth

module _ {W : Type 0} (vs : VolumeService W) (config : Config) where
  unfoldable pub response : Volume → CreateVolumeResponse
  response v = record {
    capacity_bytes = size_gb_to_bytes v.model.disk_size_in_gb;
    volume_id = v.model.id;
    accessible_topology = ((config.label_failure_domain_beta_zone, zone v) ∷ []) ∷ [];
  }

  -- The checks of the request between `TryLock` and the first call of the cloud.
  unfoldable pub read_request : CreateVolumeRequest → Exec (Server W) Code Wanted
  read_request req = do
    or_fail (lift (check_volume_capabilities volume_caps req.volume_capabilities))
        (λ _. Code.invalid_argument)
    size ← or_fail (lift (get_volume_size_gb req.capacity_range)) (λ _. Code.invalid_argument)
    ps ← or_fail (lift (parse_parameters req.parameters no_parameters)) (λ _. Code.invalid_argument)
    refuse_if (ps.storage_type == "") Code.invalid_argument
    refuse_if (ps.payment_timing == "") Code.invalid_argument
    auth ← or_fail (lift (config.get_auth req.secrets)) auth_code
    pure (record {
      size_gb = size;
      zone = get_volume_zone config.label_zone_failure_domain req.accessibility_requirements;
      parameters = ps;
      auth = auth;
    })

  -- An error of `GetVolumeByName`: no volume, unless one is being created under that name.
  unfoldable pub missing_volume : String → CloudError → Exec (Server W) Code (Option Volume)
  missing_volume name e s =
      if err_is_not_found e
      then (if contains name s.creating_volume_cache then (err Code.aborted, s) else (ok none, s))
      else (err Code.internal, s)

  -- Step 2: the volume of that name, if there is one.
  unfoldable pub find_volume : String → Auth → Exec (Server W) Code (Option Volume)
  find_volume name auth = do
    found ← on_cloud (vs.get_volume_by_name name auth)
    elim found [ ok v ↦ pure (some v) | err e ↦ missing_volume name e ]

  -- The answer for a volume that exists; its name leaves the cache when the handler returns.
  unfoldable pub existing_volume : String → ℤ → Volume → Exec (Server W) Code CreateVolumeResponse
  existing_volume name size v =
      finally
        (do
          refuse_if (not (eqb_ℤ v.model.disk_size_in_gb size)) Code.already_exists
          refuse_if (is_creating v) Code.aborted
          pure (response v))
        (forget name)

  unfoldable pub create_args : String → Wanted → CreateCdsVolumeArgs
  create_args name w = record {
    name = name;
    description = "";
    snapshot_id = "";
    zone_name = w.zone;
    cds_size_in_gb = w.size_gb;
    storage_type = w.parameters.storage_type;
    encrypt_key = "";
    client_token = if config.cluster_id == "" then name else config.cluster_id <> "-" <> name;
    payment_timing = w.parameters.payment_timing;
    reservation_length = w.parameters.reservation_length;
    reservation_time_unit = w.parameters.reservation_time_unit;
    tags =
        if config.cluster_id == ""
        then ("volume-name", name) ∷ []
        else ("cce-cluster-id", config.cluster_id) ∷ ("volume-name", name) ∷ [];
  }

  -- Step 4: the new volume as the cloud describes it. Its name leaves the cache once it is found.
  unfoldable pub fetch_created : String → String → Auth → Exec (Server W) Code CreateVolumeResponse
  fetch_created name id auth = do
    found ← on_cloud (vs.get_volume_by_id id auth)
    elim found [
      | err e ↦ fail (if err_is_not_found e then Code.aborted else Code.internal)
      | ok v ↦ finally (do refuse_if (is_creating v) Code.aborted; pure (response v)) (forget name)
    ]

  -- Step 3: create a volume, and note its name in the cache.
  unfoldable pub new_volume : String → Wanted → Exec (Server W) Code CreateVolumeResponse
  new_volume name w = do
    created ← on_cloud (vs.create_volume (create_args name w) w.auth)
    elim created [
      | err e ↦ fail (if err_is_invalid_argument e then Code.invalid_argument else Code.internal)
      | ok id ↦ do λ s. (ok tt, remember name s); fetch_created name id w.auth
    ]

  unfoldable pub find_or_create : String → Wanted → Exec (Server W) Code CreateVolumeResponse
  find_or_create name w = do
    found ← find_volume name w.auth
    elim found [ some v ↦ existing_volume name w.size_gb v | none ↦ new_volume name w ]

  -- What the handler does while its request is locked.
  unfoldable pub process : CreateVolumeRequest → Exec (Server W) Code CreateVolumeResponse
  process req = do w ← read_request req; find_or_create req.name w

  -- The handler; `key` is the text of the request, under which it is locked while in process.
  unfoldable pub create_volume :
      String → CreateVolumeRequest → Exec (Server W) Code CreateVolumeResponse
  create_volume key req = do
    refuse_if (req.name == "") Code.invalid_argument
    locked ← (λ s.
        let (b, m) = try_lock key s.in_process_requests in
        (ok b, record s { in_process_requests = m }))
    refuse_if (not locked) Code.aborted
    finally (process req) (λ s. record s { in_process_requests = unlock key s.in_process_requests })
