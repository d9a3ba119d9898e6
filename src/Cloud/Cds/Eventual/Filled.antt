-- ===== src/Cloud/Cds/Eventual/Filled.antt =====
-- The volume service of the driver is one that the controller can rely on.
use baiducloud_cce_csi_drive.Base.{
  ℕ, String, Bool, true, List, [], ◌∷◌, ◌≡◌, ◌≢◌, refl, sym, ap, subst, ◌∙◌, arith, inl, inr, ok,
  err, Result-cases,
}
use baiducloud_cce_csi_drive.Cloud.Error.{CloudError}
use baiducloud_cce_csi_drive.Cloud.Auth.{Auth}
use baiducloud_cce_csi_drive.Cloud.Volume.{Volume, VolumeModel}
use baiducloud_cce_csi_drive.Cloud.Service.{CreateCdsVolumeArgs}
use baiducloud_cce_csi_drive.Cloud.Sdk.{SdkError, Client}
use baiducloud_cce_csi_drive.Cloud.Cds.{
  named, create_volume, create_args, get_volume_by_id, cds_service,
}
use baiducloud_cce_csi_drive.Cloud.Cds.Eventual.{
  IsEventualClient, is_listed, is_listed_iff, by_name_state, by_name_found, by_name_missing,
}
use baiducloud_cce_csi_drive.Controller.Create.Guarded.{IsEventual}

module _ {W : Type 0} (client : Client W) (created : W → List String)
    (listing : W → (marker : String) → List VolumeModel)
    (L : IsEventualClient client created listing) where
  create_volume_ok :
      (args : CreateCdsVolumeArgs) (auth : Auth) (w : W) (id : String)
      → (create_volume client args auth w).0 ≡ ok id
      → (client.create_cds_volume auth (create_args client args) w).0 ≡ ok (id ∷ [])
  unfolding create_volume
  create_volume_ok args auth w id h =
      let made = client.create_cds_volume auth (create_args client args) w in
      elim (Result-cases made.0) [
        | inr (x, e) ↦ absurd (ground (arith, e, h))
        | inl (ids, e) ↦
            let (i, one) = L.create_one auth (create_args client args) w ids e in
            ground (arith, e, one, h)
      ]

  create_volume_failed :
      (args : CreateCdsVolumeArgs) (auth : Auth) (w : W) (x : CloudError)
      → (create_volume client args auth w).0 ≡ err x
      → (y : SdkError) × ((client.create_cds_volume auth (create_args client args) w).0 ≡ err y)
  unfolding create_volume
  create_volume_failed args auth w x h =
      let made = client.create_cds_volume auth (create_args client args) w in
      elim (Result-cases made.0) [
        | inr (y, e) ↦ (y, e)
        | inl (ids, e) ↦
            let (i, one) = L.create_one auth (create_args client args) w ids e in
            absurd (ground (arith, e, one, h))
      ]

  create_volume_state :
      (args : CreateCdsVolumeArgs) (auth : Auth) (w : W)
      → (create_volume client args auth w).1
        ≡ (client.create_cds_volume auth (create_args client args) w).1
  unfolding create_volume
  create_volume_state args auth w =
      let made = client.create_cds_volume auth (create_args client args) w in
      elim (Result-cases made.0) [
        | inr (y, e) ↦ ground (arith, e)
        | inl (ids, e) ↦
            let (i, one) = L.create_one auth (create_args client args) w ids e in
            ground (arith, e, one)
      ]

  args_name : (args : CreateCdsVolumeArgs) → (create_args client args).name ≡ args.name
  unfolding create_args
  args_name args = refl

  by_id_state :
      (id : String) (auth : Auth) (w : W)
      → (get_volume_by_id client id auth w).1 ≡ (client.get_cds_volume_detail auth id w).1
  unfolding get_volume_by_id
  by_id_state id auth w = elim (Result-cases (client.get_cds_volume_detail auth id w).0) [
    | inl (v, e) ↦ ground (arith, e)
    | inr (x, e) ↦ ground (arith, e)
  ]

  by_id_ok :
      (id : String) (auth : Auth) (w : W) (v : Volume)
      → (get_volume_by_id client id auth w).0 ≡ ok v
      → (client.get_cds_volume_detail auth id w).0 ≡ ok v.model
  unfolding get_volume_by_id
  by_id_ok id auth w v h = elim (Result-cases (client.get_cds_volume_detail auth id w).0) [
    | inl (m, e) ↦ ground (arith, e, h)
    | inr (x, e) ↦ absurd (ground (arith, e, h))
  ]

  abbrev listed : W → String → Bool
  listed = is_listed client created listing L

  to_listed : (w : W) (n : String) → named n (listing w "") ≢ [] → listed w n ≡ true
  to_listed w n = (is_listed_iff client created listing L w n).1

  of_listed : (w : W) (n : String) → listed w n ≡ true → named n (listing w "") ≢ []
  of_listed w n = (is_listed_iff client created listing L w n).0

  fetched_listed :
      (args : CreateCdsVolumeArgs) (auth : Auth) (w : W) (id : String) (v : Volume)
      → (create_volume client args auth w).0 ≡ ok id
      → (get_volume_by_id client id auth (create_volume client args auth w).1).0 ≡ ok v
      → listed (get_volume_by_id client id auth (create_volume client args auth w).1).1 args.name
        ≡ true
  fetched_listed args auth w id v a b =
      let u = (client.create_cds_volume auth (create_args client args) w).1 in
      let same = create_volume_state args auth w in
      let read : (client.get_cds_volume_detail auth id u).0 ≡ ok v.model =
        by_id_ok id auth u v (subst (λ x. (get_volume_by_id client id auth x).0 ≡ ok v) same b) in
      let there =
        L.detail_found auth (create_args client args) w id v.model
          (create_volume_ok args auth w id a) read in
      let after = (client.get_cds_volume_detail auth id u).1 in
      let shown : listed after args.name ≡ true =
        to_listed after args.name
          (subst (λ n. named n (listing after "") ≢ []) (args_name args) there) in
      subst (λ x. listed (get_volume_by_id client id auth x).1 args.name ≡ true) (sym same)
        (subst (λ x. listed x args.name ≡ true) (sym (by_id_state id auth u)) shown)

  -- Over a client that acts as `IsEventualClient` says, the volume service of the driver, with whatever
  -- fuel for its pages, is one that the controller can rely on: a volume counts as visible when it
  -- is listed.
  pub cds_service-IsEventual : (fuel : ℕ) → IsEventual (cds_service client fuel) created listed
  cds_service-IsEventual fuel = record {
    created-create = λ args auth w id h.
        ap created (create_volume_state args auth w)
        ∙ L.create_ok auth (create_args client args) w (id ∷ []) (create_volume_ok args auth w id h)
        ∙ ap (λ n. n ∷ created w) (args_name args);
    created-create_failed = λ args auth w x h.
        let (y, e) = create_volume_failed args auth w x h in
        ap created (create_volume_state args auth w)
        ∙ L.create_failed auth (create_args client args) w y e;
    created-by_id = λ id auth w. ap created (by_id_state id auth w) ∙ L.detail_created auth id w;
    created-by_name =
        λ name auth w. ap created (by_name_state client created listing L fuel name auth w);
    visible-create = λ args auth w n h.
        subst (λ u. listed u n ≡ true) (sym (create_volume_state args auth w))
          (to_listed (client.create_cds_volume auth (create_args client args) w).1 n
            (L.create_listed auth (create_args client args) w n (of_listed w n h)));
    visible-by_id = λ id auth w n h.
        subst (λ u. listed u n ≡ true) (sym (by_id_state id auth w))
          (to_listed (client.get_cds_volume_detail auth id w).1 n
            (L.detail_listed auth id w n (of_listed w n h)));
    visible-by_name = λ name auth w n h.
        subst (λ u. listed u n ≡ true)
          (sym (by_name_state client created listing L fuel name auth w)) h;
    fetched = λ args auth w id v a b. fetched_listed args auth w id v a b;
    found = λ name auth w v h.
        subst (λ u. listed u name ≡ true)
          (sym (by_name_state client created listing L fuel name auth w))
          (to_listed w name (by_name_found client created listing L fuel name auth w v h));
    not_missing = λ name auth w x h e.
        by_name_missing client created listing L fuel name auth w x (of_listed w name h) e;
  }
