-- ===== src/Controller/Calls/Creating.antt =====
-- The calls of the handler that creates.
use baiducloud_cce_csi_drive.Base.{
  String, true, false, List, ◌∷◌, ◌==◌, ◌≡◌, refl, inl, inr, arith, err, Result-cases, Bool-cases,
  contains,
}
use baiducloud_cce_csi_drive.Util.KeyMutex.{try_lock}
use baiducloud_cce_csi_drive.Cloud.Auth.{Auth}
use baiducloud_cce_csi_drive.Cloud.Error.{CloudError, err_is_not_found}
use baiducloud_cce_csi_drive.Cloud.Service.{VolumeService, NodeService}
use baiducloud_cce_csi_drive.Cloud.Calls.{Call, create, IsLogged, Issued}
use baiducloud_cce_csi_drive.Controller.Server.{Server, Config}
use baiducloud_cce_csi_drive.Controller.Create.{
  CreateVolumeRequest, Wanted, read_request, missing_volume, find_volume, existing_volume,
  create_args, fetch_created, new_volume, find_or_create, process, create_volume,
}
use baiducloud_cce_csi_drive.Controller.Create.Lock.{read_request_state}

module _ {W : Type 0} (vs : VolumeService W) (ns : NodeService W) (config : Config) where
  -- The service answered that no volume has the name.
  abbrev pub Unnamed : String → Type 0
  Unnamed name =
      (auth : Auth) × (w : W) × (e : CloudError) × ((vs.get_volume_by_name name auth w).0 ≡ err e)
      × (err_is_not_found e ≡ true)

  module _ (log : W → List Call) (L : IsLogged vs ns log) where
    new_volume_calls :
        (name : String) (w : Wanted) (s : Server W)
        → log (new_volume vs config name w s).1.cloud ≡ create name ∷ log s.cloud
    unfolding new_volume fetch_created create_args
    new_volume_calls name w s =
        let args = create_args vs config name w in
        let made = (vs.create_volume args w.auth s.cloud).1 in
        elim (Result-cases (vs.create_volume args w.auth s.cloud).0) [
          | inr (e, a) ↦ ground (arith, a, L.log-create args w.auth s.cloud)
          | inl (id, a) ↦
              ground (arith, a, L.log-create args w.auth s.cloud, L.log-by_id id w.auth made)
        ]

    find_or_create_calls :
        (name : String) (w : Wanted) (s : Server W)
        → Issued
            (λ c.
              (c ≡ create name) × Unnamed name × (contains name s.creating_volume_cache ≡ false))
            (log s.cloud)
            (log (find_or_create vs config name w s).1.cloud)
    unfolding find_or_create find_volume missing_volume existing_volume
    find_or_create_calls name w s =
        let quiet = L.log-by_name name w.auth s.cloud in
        let t = record s { cloud = (vs.get_volume_by_name name w.auth s.cloud).1 } in
        elim (Result-cases (vs.get_volume_by_name name w.auth s.cloud).0) [
          | inl (v, a) ↦ inl (ground (arith, a, quiet))
          | inr (e, a) ↦ elim (Bool-cases (err_is_not_found e)) [
            | inr b ↦ inl (ground (arith, a, b, quiet))
            | inl b ↦ elim (Bool-cases (contains name s.creating_volume_cache)) [
              | inl d ↦ inl (ground (arith, a, b, d, quiet))
              | inr d ↦ inr (
                create name,
                ground (arith, a, b, d, quiet, new_volume_calls name w t),
                (refl, (w.auth, s.cloud, e, a, b), d),
              )
            ]
          ]
        ]

    -- Over services whose calls a log tells, an attempt to create makes at most one call that changes
    -- the cloud: it creates a volume with the name of the request, for which the service found none,
    -- and which was not being created.
    pub create_volume_calls :
        (key : String) (req : CreateVolumeRequest) (s : Server W)
        → Issued
            (λ c.
              (c ≡ create req.name)
              × Unnamed req.name
              × (contains req.name s.creating_volume_cache ≡ false))
            (log s.cloud)
            (log (create_volume vs config key req s).1.cloud)
    unfolding create_volume process
    create_volume_calls key req s = elim (Bool-cases (req.name == "")) [
      | inl a ↦ inl (ground (arith, a))
      | inr a ↦ elim (Bool-cases (try_lock key s.in_process_requests).0) [
        | inr l ↦ inl (ground (arith, a, l))
        | inl l ↦
            let t = record s { in_process_requests = (try_lock key s.in_process_requests).1 } in
            let same = read_request_state vs config req t in
            elim (Result-cases (read_request vs config req t).0) [
              | inr (x, r) ↦ inl (ground (arith, a, l, r, same))
              | inl (w, r) ↦ elim (find_or_create_calls req.name w t) [
                | inl q ↦ inl (ground (arith, a, l, r, same, q))
                | inr (c, q, h) ↦ inr (c, ground (arith, a, l, r, same, q), h)
              ]
            ]
      ]
    ]
