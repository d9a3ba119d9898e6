-- ===== src/Cloud/Cds/Eventual.antt =====
-- The volume service over a client of the cloud that shows its volumes late: what the controller
-- relies on of a service follows from what the SDK documents of the client.
pub mod Filled
use baiducloud_cce_csi_drive.Base.{
  ℕ, zero, suc, String, Bool, true, false, Option, List, [], ◌∷◌, ◌++◌, ◌≡◌, ◌≢◌, ◌↔◌, refl, sym,
  ap, subst, ◌∙◌, inl, inr, arith, ok, err, Result-cases, Bool-cases, if◌then◌else◌,
}
use mathlib.Core.List.{append_assoc}
use baiducloud_cce_csi_drive.Cloud.Error.{CloudError, err_is_not_found}
use baiducloud_cce_csi_drive.Cloud.Auth.{Auth}
use baiducloud_cce_csi_drive.Cloud.Volume.{Volume, VolumeModel}
use baiducloud_cce_csi_drive.Cloud.Service.{CreateCdsVolumeArgs, VolumeService}
use baiducloud_cce_csi_drive.Cloud.Sdk.{
  SdkError, service_error, client_error, CreateArgs, Page, Client,
}
use baiducloud_cce_csi_drive.Cloud.Cds.{
  named, only_volume, list_loop, get_volume_by_name, get_volume_by_id, create_volume, create_args,
  cds_service,
}
use baiducloud_cce_csi_drive.Cloud.Cds.Listing.{named-append}
use baiducloud_cce_csi_drive.Controller.Create.Guarded.{IsEventual}

-- The client of the cloud, for the names of the volumes that it has `created`, and the `listing`, which
-- may show them late, from a marker on: a creation that succeeds makes one volume, and one that fails
-- makes none; reading changes nothing but that more is shown; a volume whose details are read under
-- the identifier of its creation is listed under its name; pages follow each other through the
-- listing, and listing is not refused as a thing that is not found.
pub record IsEventualClient {W : Type 0} (client : Client W) (created : W → List String)
    (listing : W → (marker : String) → List VolumeModel) : Type 0 where
  pub create_ok :
      (auth : Auth) (args : CreateArgs) (w : W) (ids : List String)
      → (client.create_cds_volume auth args w).0 ≡ ok ids
      → created (client.create_cds_volume auth args w).1 ≡ args.name ∷ created w
  pub create_one :
      (auth : Auth) (args : CreateArgs) (w : W) (ids : List String)
      → (client.create_cds_volume auth args w).0 ≡ ok ids
      → (id : String) × (ids ≡ id ∷ [])
  pub create_failed :
      (auth : Auth) (args : CreateArgs) (w : W) (e : SdkError)
      → (client.create_cds_volume auth args w).0 ≡ err e
      → created (client.create_cds_volume auth args w).1 ≡ created w
  pub create_listed :
      (auth : Auth) (args : CreateArgs) (w : W) (n : String)
      → named n (listing w "") ≢ []
      → named n (listing (client.create_cds_volume auth args w).1 "") ≢ []
  pub detail_created :
      (auth : Auth) (id : String) (w : W)
      → created (client.get_cds_volume_detail auth id w).1 ≡ created w
  pub detail_listed :
      (auth : Auth) (id : String) (w : W) (n : String)
      → named n (listing w "") ≢ []
      → named n (listing (client.get_cds_volume_detail auth id w).1 "") ≢ []
  pub detail_found :
      (auth : Auth) (args : CreateArgs) (w : W) (id : String) (v : VolumeModel)
      → let after = (client.create_cds_volume auth args w).1 in
        (client.create_cds_volume auth args w).0 ≡ ok (id ∷ [])
        → (client.get_cds_volume_detail auth id after).0 ≡ ok v
        → named args.name (listing (client.get_cds_volume_detail auth id after).1 "") ≢ []
  pub list_state :
      (auth : Auth) (keys : ℕ) (marker : String) (w : W)
      → (client.list_cds_volume auth keys marker w).1 ≡ w
  pub list_page :
      (auth : Auth) (keys : ℕ) (marker : String) (w : W) (page : Page)
      → (client.list_cds_volume auth keys marker w).0 ≡ ok page
      → listing w marker
        ≡ (if page.is_truncated then page.volumes ++ listing w page.next_marker else page.volumes)
  pub list_refused :
      (auth : Auth) (keys : ℕ) (marker : String) (w : W) (status : ℕ)
      → (client.list_cds_volume auth keys marker w).0 ≡ err (service_error status)
      → status ≢ 404

abbrev not_empty : List VolumeModel → Bool
not_empty [] = false
not_empty (v ∷ vs) = true

not_empty_iff : (vs : List VolumeModel) → (not_empty vs ≡ true) ↔ (vs ≢ [])
not_empty_iff [] = (λ h. absurd cc, λ h. absurd (h refl))
not_empty_iff (v ∷ vs) = (λ h p. cc, λ h. refl)

module _ {W : Type 0} (client : Client W) (created : W → List String)
    (listing : W → (marker : String) → List VolumeModel)
    (L : IsEventualClient client created listing) where
  -- A volume of the name is listed.
  abbrev pub is_listed : W → String → Bool
  is_listed w n = not_empty (named n (listing w ""))

  list_loop_state :
      (fuel : ℕ) (auth : Auth) (name marker : String) (found : List VolumeModel) (w : W)
      → (list_loop client fuel auth name marker found w).1 ≡ w
  unfolding list_loop
  list_loop_state zero auth name marker found w = refl
  list_loop_state (suc fuel) auth name marker found w =
      let same = L.list_state auth 100 marker w in
      elim (Result-cases (client.list_cds_volume auth 100 marker w).0) [
        | inr (e, a) ↦ ground (arith, a, same)
        | inl (page, a) ↦
            let rest =
              list_loop_state fuel auth name page.next_marker (found ++ named name page.volumes)
                w in
            ground (arith, a, same, rest)
      ]

  list_loop_ok :
      (fuel : ℕ) (auth : Auth) (name marker : String) (found : List VolumeModel) (w : W)
      {all : List VolumeModel}
      → (list_loop client fuel auth name marker found w).0 ≡ ok all
      → all ≡ found ++ named name (listing w marker)
  unfolding list_loop
  list_loop_ok zero auth name marker found w h = absurd (ground (arith, h))
  list_loop_ok (suc fuel) auth name marker found w {all} h =
      let same = L.list_state auth 100 marker w in
      elim (Result-cases (client.list_cds_volume auth 100 marker w).0) [
        | inr (e, a) ↦ absurd (ground (arith, a, h))
        | inl (page, a) ↦
            let here = L.list_page auth 100 marker w page a in
            elim (Bool-cases page.is_truncated) [
              | inr t ↦ ground (arith, a, t, here, h, same)
              | inl t ↦ ground (
                arith,
                a,
                t,
                here,
                same,
                h,
                list_loop_ok fuel auth name page.next_marker (found ++ named name page.volumes) w
                    {all = all},
                named-append name page.volumes (listing w page.next_marker),
                append_assoc found (named name page.volumes)
                    (named name (listing w page.next_marker)),
              )
            ]
      ]

  list_loop_err :
      (fuel : ℕ) (auth : Auth) (name marker : String) (found : List VolumeModel) (w : W)
      {e : CloudError}
      → (list_loop client fuel auth name marker found w).0 ≡ err e
      → err_is_not_found e ≡ false
  unfolding list_loop err_is_not_found
  list_loop_err zero auth name marker found w h = ground (arith, h)
  list_loop_err (suc fuel) auth name marker found w {e} h =
      let same = L.list_state auth 100 marker w in
      elim (Result-cases (client.list_cds_volume auth 100 marker w).0) [
        | inr (service_error status, a) ↦
            ground (arith, a, same, h, L.list_refused auth 100 marker w status a)
        | inr (client_error, a) ↦ ground (arith, a, same, h)
        | inl (page, a) ↦
            let rest =
              list_loop_err fuel auth name page.next_marker (found ++ named name page.volumes) w
                {e = e} in
            ground (arith, a, same, h, rest)
      ]

  pub is_listed_iff : (w : W) (n : String) → (is_listed w n ≡ true) ↔ (named n (listing w "") ≢ [])
  is_listed_iff w n = not_empty_iff (named n (listing w ""))

  only_volume_ok :
      (auth : Auth) (vs : List VolumeModel) {v : Volume} → only_volume auth vs ≡ ok v → vs ≢ []
  unfolding only_volume
  only_volume_ok auth [] h = absurd cc
  only_volume_ok auth (v ∷ vs) h = λ e. cc

  only_volume_err :
      (auth : Auth) (vs : List VolumeModel) {e : CloudError}
      → only_volume auth vs ≡ err e
      → vs ≢ []
      → err_is_not_found e ≡ false
  unfolding only_volume err_is_not_found
  only_volume_err auth [] h n = absurd (n refl)
  only_volume_err auth (v ∷ []) h n = absurd cc
  only_volume_err auth (v ∷ u ∷ vs) h n = ground (arith, h)

  pub by_name_state :
      (fuel : ℕ) (name : String) (auth : Auth) (w : W)
      → (get_volume_by_name client fuel name auth w).1 ≡ w
  unfolding get_volume_by_name
  by_name_state fuel name auth w =
      let same = list_loop_state fuel auth name "" [] w in
      elim (Result-cases (list_loop client fuel auth name "" [] w).0) [
        | inl (vs, e) ↦ ground (arith, e, same)
        | inr (x, e) ↦ ground (arith, e, same)
      ]

  pub by_name_found :
      (fuel : ℕ) (name : String) (auth : Auth) (w : W) (v : Volume)
      → (get_volume_by_name client fuel name auth w).0 ≡ ok v
      → named name (listing w "") ≢ []
  unfolding get_volume_by_name
  by_name_found fuel name auth w v h =
      elim (Result-cases (list_loop client fuel auth name "" [] w).0) [
        | inr (x, e) ↦ absurd (ground (arith, e, h))
        | inl (vs, e) ↦
            let only : only_volume auth vs ≡ ok v = ground (arith, e, h) in
            let all : vs ≡ named name (listing w "") = list_loop_ok fuel auth name "" [] w e in
            subst (λ x. x ≢ []) all (only_volume_ok auth vs only)
      ]

  pub by_name_missing :
      (fuel : ℕ) (name : String) (auth : Auth) (w : W) (x : CloudError)
      → named name (listing w "") ≢ []
      → (get_volume_by_name client fuel name auth w).0 ≡ err x
      → err_is_not_found x ≡ false
  unfolding get_volume_by_name
  by_name_missing fuel name auth w x there h =
      elim (Result-cases (list_loop client fuel auth name "" [] w).0) [
        | inr (y, e) ↦
            let same : y ≡ x = ground (arith, e, h) in
            subst (λ z. err_is_not_found z ≡ false) same (list_loop_err fuel auth name "" [] w e)
        | inl (vs, e) ↦
            let only : only_volume auth vs ≡ err x = ground (arith, e, h) in
            let all : vs ≡ named name (listing w "") = list_loop_ok fuel auth name "" [] w e in
            only_volume_err auth vs only (subst (λ z. z ≢ []) (sym all) there)
      ]
