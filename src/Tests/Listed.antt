-- ===== src/Tests/Listed.antt =====
-- The volume service over a client that shows its volumes late.
use baiducloud_cce_csi_drive.Base.{
  ◌≤◌, none, sym, subst, String, false, List, [], ◌∷◌, ◌≡◌, ◌≢◌, refl, arith, Result, ok, err,
  count,
}
use baiducloud_cce_csi_drive.Csi.{Code}
use baiducloud_cce_csi_drive.Cloud.Volume.{VolumeModel}
use baiducloud_cce_csi_drive.Cloud.Sdk.{SdkError, service_error, client_error, Client}
use baiducloud_cce_csi_drive.Cloud.Cds.{named, cds_service}
use baiducloud_cce_csi_drive.Cloud.Cds.Eventual.{IsEventualClient, is_listed}
use baiducloud_cce_csi_drive.Cloud.Cds.Eventual.Filled.{cds_service-IsEventual}
use baiducloud_cce_csi_drive.Controller.Create.{CreateVolumeResponse, create_volume}
use baiducloud_cce_csi_drive.Controller.Create.Guarded.{IsEventual}
use baiducloud_cce_csi_drive.Controller.Flights.{enters, attempts, here, next}
use baiducloud_cce_csi_drive.Controller.Flights.Created.{created_once}
use baiducloud_cce_csi_drive.Tests.Clouds.{config, server_on}
use baiducloud_cce_csi_drive.Tests.Creation.{request}
use baiducloud_cce_csi_drive.Tests.Flights.{single, calm}

-- The names created, and the volumes that are listed.
record Cloud : Type 0 where
  made : List String
  shown : List VolumeModel

abbrev empty : Cloud
empty = record { made = []; shown = [] }

abbrev first_of : List VolumeModel → Result SdkError VolumeModel
first_of [] = err (service_error 404)
first_of (v ∷ vs) = ok v

-- A volume has its name as its identifier.
abbrev slow : Client Cloud
slow = record {
  payment_timing_pre_paid = "Prepaid";
  create_cds_volume = λ auth args w. (ok (args.name ∷ []), record w { made = args.name ∷ w.made });
  get_cds_volume_detail = λ auth id w. (first_of (named id w.shown), w);
  list_cds_volume = λ auth keys marker w.
      (ok (record { volumes = w.shown; is_truncated = false; next_marker = "" }), w);
  delete_cds_volume = λ auth id w. (ok tt, w);
  attach_cds_volume = λ auth id n w. (err client_error, w);
  detach_cds_volume = λ auth id n w. (ok tt, w);
  resize_cds_volume = λ auth id size type w. (ok tt, w);
  get_instance_detail = λ auth id w. (ok tt, w);
}

abbrev made : Cloud → List String
made w = w.made

abbrev shown : Cloud → String → List VolumeModel
shown w marker = w.shown

first_of_ok : (vs : List VolumeModel) {v : VolumeModel} → first_of vs ≡ ok v → vs ≢ []
first_of_ok [] h = absurd cc
first_of_ok (v ∷ vs) h = λ e. cc

slow-IsEventualClient : IsEventualClient slow made shown
slow-IsEventualClient = record {
  create_ok = λ auth args w ids h. refl;
  create_one = λ auth args w ids h. (args.name, ground (arith, h));
  create_failed = λ auth args w e h. absurd (ground (arith, h));
  create_listed = λ auth args w n h. h;
  detail_created = λ auth id w. refl;
  detail_listed = λ auth id w n h. h;
  detail_found = λ auth args w id v a b.
      let e : args.name ≡ id = ground (arith, a) in
      subst (λ n. named n w.shown ≢ []) (sym e) (first_of_ok (named id w.shown) b);
  list_state = λ auth keys marker w. refl;
  list_page = λ auth keys marker w page h. ground (arith, h);
  list_refused = λ auth keys marker w status h. absurd (ground (arith, h));
}

cds_service-IsEventual_example :
    IsEventual (cds_service slow 5) made (is_listed slow made shown slow-IsEventualClient)
cds_service-IsEventual_example = cds_service-IsEventual slow made shown slow-IsEventualClient 5

-- Two callers for one name over the volume service of the driver.
created_in_cloud :
    count "pvc-1"
      (create_volume (cds_service slow 5) config "pvc-1" request (server_on empty)).1.cloud.made
    ≤ 1
created_in_cloud =
    created_once (cds_service slow 5) config made (is_listed slow made shown slow-IsEventualClient)
      (cds_service-IsEventual slow made shown slow-IsEventualClient 5)
      (single (Result Code CreateVolumeResponse)) (λ req. req.name) "pvc-1"
      {s = calm (server_on empty)} (unfold count in refl)
      (next
        (next (next here (enters 0 request refl))
          (attempts 0 request (record { key = "pvc-1"; number = 0 }) none refl refl))
        (enters 1 request refl))
