-- ===== src/Tests/Creation.antt =====
-- Creating volumes over a cloud that shows them late.
use baiducloud_cce_csi_drive.Base.{
  ◌≤◌, String, true, false, none, some, [], ◌∷◌, ◌≡◌, ◌≢◌, refl, arith, Result, ok, err, count,
  contains, remove, lookup, if◌then◌else◌, ◌==◌, subst, ap,
}
use baiducloud_cce_csi_drive.Base.Int.{pos}
use baiducloud_cce_csi_drive.Util.KeyMutex.{try_lock, unlock}
use baiducloud_cce_csi_drive.Cloud.Error.{CloudError, service, err_is_not_found}
use baiducloud_cce_csi_drive.Cloud.Volume.{VolumeModel, VolumeStatus, zone}
use baiducloud_cce_csi_drive.Cloud.Auth.{choose_auth}
use baiducloud_cce_csi_drive.Util.Text.{to_upper, after_last}
use baiducloud_cce_csi_drive.Util.Size.{size_gb_to_bytes}
use baiducloud_cce_csi_drive.Controller.Capability.{check_volume_capabilities}
use baiducloud_cce_csi_drive.Controller.Capacity.{get_volume_size_gb}
use baiducloud_cce_csi_drive.Controller.Zone.{get_volume_zone}
use baiducloud_cce_csi_drive.Cloud.Sdk.{Client, service_error, client_error}
use baiducloud_cce_csi_drive.Cloud.Cds.{
  cds_service, only_volume, named, list_loop, get_volume_by_name,
  create_volume as cds_create_volume, create_args as cds_create_args,
}
use baiducloud_cce_csi_drive.Cloud.Cds.Listing.{last, more, get_volume_by_name_lem}
use baiducloud_cce_csi_drive.Csi.{Code, get_mode}
use baiducloud_cce_csi_drive.Controller.Parameters.{no_parameters, parse_parameters, read_length}
use baiducloud_cce_csi_drive.Controller.Server.{Server}
use baiducloud_cce_csi_drive.Controller.Create.{
  CreateVolumeRequest, CreateVolumeResponse, Wanted, create_volume, new_volume, create_args,
  process, read_request, find_or_create, find_volume, missing_volume, existing_volume,
  fetch_created, response,
}
use baiducloud_cce_csi_drive.Controller.Create.Once.{
  Step, Reach, here, next, attempt, drift, create_volume_once,
}
use baiducloud_cce_csi_drive.Controller.Create.Lock.{
  in_process-create_volume, create_volume_in_process,
}
use baiducloud_cce_csi_drive.Controller.Create.Errors.{new_volume_refused}
use baiducloud_cce_csi_drive.Tests.Clouds.{
  Late, late, late-IsEventual, visible, config, secrets, key_auth, writer, volume, server_on,
}

abbrev pub request : CreateVolumeRequest
request = record {
  name = "pvc-1";
  volume_capabilities = some writer ∷ [];
  capacity_range = none;
  accessibility_requirements = none;
  parameters = ("storageType", "ssd") ∷ ("paymentTiming", "Postpaid") ∷ [];
  secrets = secrets;
}

abbrev pub fresh : Server Late
fresh = server_on (record { created = []; shown = [] })

-- The server once the volume is created, and not shown yet.
abbrev pub waiting : Server Late
waiting = record {
  cloud = record { created = "pvc-1" ∷ []; shown = [] };
  creating_volume_cache = "pvc-1" ∷ [];
  in_process_requests = record { kv = [] };
}

abbrev pub shown : Late
shown = record { created = "pvc-1" ∷ []; shown = "pvc-1" ∷ [] }

abbrev pub found : CreateVolumeResponse
found = record {
  capacity_bytes = pos 107374182400;
  volume_id = "pvc-1";
  accessible_topology = (("beta-zone", "zoneA") ∷ []) ∷ [];
}

-- The first attempt creates a volume that cannot be fetched yet, the second is stopped by the cache,
-- and the third finds the volume.
pub attempts :
    (create_volume late config "k" request fresh ≡ (err Code.aborted, waiting))
    × (create_volume late config "k" request waiting ≡ (err Code.aborted, waiting))
    × (create_volume late config "k" request (record waiting { cloud = shown })
        ≡ (ok found, server_on shown))
unfolding create_volume try_lock unlock contains remove lookup process read_request
    check_volume_capabilities get_mode get_volume_size_gb parse_parameters read_length choose_auth
    find_or_create find_volume missing_volume existing_volume new_volume create_args fetch_created
    response err_is_not_found size_gb_to_bytes get_volume_zone zone to_upper after_last
attempts = (refl, refl, refl)

created_late :
    count "pvc-1"
      (create_volume late config "k" request (record waiting { cloud = shown })).1.cloud.created
    ≤ 1
created_late =
    create_volume_once late config (λ w. w.created) visible late-IsEventual "pvc-1" {s = fresh}
      (unfold count in refl)
      (next
        (next
          (next
            (subst (Reach late config (λ w. w.created) visible fresh) (ap (λ r. r.1) attempts.0)
              (next here (attempt fresh "k" request)))
            (subst (Step late config (λ w. w.created) visible waiting) (ap (λ r. r.1) attempts.1)
              (attempt waiting "k" request)))
          (drift waiting shown refl (λ n h. unfold contains in absurd (ground (arith, h)))))
        (attempt (record waiting { cloud = shown }) "k" request))

unlocked_after_creation :
    (create_volume late config "k" request fresh).1.in_process_requests ≡ record { kv = [] }
unlocked_after_creation = in_process-create_volume late config "k" request fresh

abbrev busy : Server Late
busy = record fresh { in_process_requests = record { kv = "k" ∷ [] } }

refused_in_process : create_volume late config "k" request busy ≡ (err Code.aborted, busy)
unfolding contains
refused_in_process = create_volume_in_process late config "k" request busy refl (λ e. cc)

abbrev model_of : String → String → VolumeModel
model_of id name = record (volume id (pos 100) VolumeStatus.available []).model { name = name }

-- A client of two pages that refuses every creation.
abbrev two_pages : Client (Unit {0})
two_pages = record {
  payment_timing_pre_paid = "Prepaid";
  create_cds_volume = λ auth args w. (err (service_error 400), w);
  get_cds_volume_detail = λ auth id w. (err client_error, w);
  list_cds_volume = λ auth keys marker w. (
    if marker == ""
        then ok (record {
          volumes = model_of "v-1" "a" ∷ model_of "v-2" "b" ∷ [];
          is_truncated = true;
          next_marker = "m";
        })
        else ok
            (record { volumes = model_of "v-3" "c" ∷ []; is_truncated = false; next_marker = "" }),
    w,
  );
  delete_cds_volume = λ auth id w. (ok tt, w);
  attach_cds_volume = λ auth id n w. (err client_error, w);
  detach_cds_volume = λ auth id n w. (ok tt, w);
  resize_cds_volume = λ auth id size type w. (ok tt, w);
  get_instance_detail = λ auth id w. (ok tt, w);
}

get_volume_by_name_lem_example :
    get_volume_by_name two_pages 2 "c" key_auth tt
    ≡ (ok (record { model = model_of "v-3" "c"; client = key_auth }), tt)
unfolding get_volume_by_name list_loop named only_volume
get_volume_by_name_lem_example =
    get_volume_by_name_lem two_pages key_auth tt "c" 2
      (more "" "m" (model_of "v-1" "a" ∷ model_of "v-2" "b" ∷ []) ((model_of "v-3" "c" ∷ []) ∷ [])
        refl (last "m" "" (model_of "v-3" "c" ∷ []) refl))
      (omega arith)

abbrev wanted : Wanted
wanted = record { size_gb = pos 100; zone = ""; parameters = no_parameters; auth = key_auth }

new_volume_refused_example :
    ((new_volume (cds_service two_pages 2) config "pvc-1" wanted (server_on tt)).0
      ≢ err Code.invalid_argument)
    × ((e : CloudError)
        → ◌≡◌ {A = Result CloudError String} (err (service 400)) (err e)
        → (new_volume (cds_service two_pages 2) config "pvc-1" wanted (server_on tt)).0
          ≡ err Code.internal)
unfolding cds_create_volume cds_create_args create_args
new_volume_refused_example = new_volume_refused two_pages 2 config "pvc-1" wanted (server_on tt)
