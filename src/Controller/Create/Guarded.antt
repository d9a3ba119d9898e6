-- ===== src/Controller/Create/Guarded.antt =====
-- What keeps creations unique: the cache of names that are being created stands in for what the cloud
-- does not show yet. Every attempt to create a volume keeps this.
use baiducloud_cce_csi_drive.Base.{
  ◌≤◌, String, Bool, true, false, none, some, List, ◌∷◌, ◌≡◌, ◌∙◌, sym, ap, subst, ◌⊎◌, inl, inr,
  arith, eq_iff, ok, err, Result-cases, Bool-cases, contains, contains-remove, count,
}
use baiducloud_cce_csi_drive.Base.Int.{ℤ}
use baiducloud_cce_csi_drive.Util.KeyMutex.{try_lock}
use baiducloud_cce_csi_drive.Cloud.Error.{CloudError, err_is_not_found}
use baiducloud_cce_csi_drive.Cloud.Auth.{Auth}
use baiducloud_cce_csi_drive.Cloud.Volume.{Volume}
use baiducloud_cce_csi_drive.Cloud.Service.{CreateCdsVolumeArgs, VolumeService}
use baiducloud_cce_csi_drive.Controller.Server.{Server, Config}
use baiducloud_cce_csi_drive.Controller.Create.{
  CreateVolumeRequest, Wanted, read_request, missing_volume, find_volume, existing_volume,
  create_args, fetch_created, new_volume, find_or_create, process, create_volume,
}
use baiducloud_cce_csi_drive.Controller.Create.Lock.{read_request_state}

-- What is relied on of the cloud, for the names of the volumes that it has `created` and the names
-- that its listing shows: only a successful creation adds a volume; a name once visible stays so; a
-- volume that was fetched by the identifier of its creation, or found by its name, is visible; and a
-- visible name is not reported as missing.
pub record IsEventual {W : Type 0} (vs : VolumeService W) (created : W → List String)
    (visible : W → String → Bool) : Type 0 where
  pub created-create :
      (args : CreateCdsVolumeArgs) (auth : Auth) (w : W) (id : String)
      → (vs.create_volume args auth w).0 ≡ ok id
      → created (vs.create_volume args auth w).1 ≡ args.name ∷ created w
  pub created-create_failed :
      (args : CreateCdsVolumeArgs) (auth : Auth) (w : W) (e : CloudError)
      → (vs.create_volume args auth w).0 ≡ err e
      → created (vs.create_volume args auth w).1 ≡ created w
  pub created-by_id :
      (id : String) (auth : Auth) (w : W) → created (vs.get_volume_by_id id auth w).1 ≡ created w
  pub created-by_name :
      (name : String) (auth : Auth) (w : W)
      → created (vs.get_volume_by_name name auth w).1 ≡ created w
  pub visible-create :
      (args : CreateCdsVolumeArgs) (auth : Auth) (w : W) (n : String)
      → visible w n ≡ true
      → visible (vs.create_volume args auth w).1 n ≡ true
  pub visible-by_id :
      (id : String) (auth : Auth) (w : W) (n : String)
      → visible w n ≡ true
      → visible (vs.get_volume_by_id id auth w).1 n ≡ true
  pub visible-by_name :
      (name : String) (auth : Auth) (w : W) (n : String)
      → visible w n ≡ true
      → visible (vs.get_volume_by_name name auth w).1 n ≡ true
  pub fetched :
      (args : CreateCdsVolumeArgs) (auth : Auth) (w : W) (id : String) (v : Volume)
      → (vs.create_volume args auth w).0 ≡ ok id
      → (vs.get_volume_by_id id auth (vs.create_volume args auth w).1).0 ≡ ok v
      → visible (vs.get_volume_by_id id auth (vs.create_volume args auth w).1).1 args.name ≡ true
  pub found :
      (name : String) (auth : Auth) (w : W) (v : Volume)
      → (vs.get_volume_by_name name auth w).0 ≡ ok v
      → visible (vs.get_volume_by_name name auth w).1 name ≡ true
  pub not_missing :
      (name : String) (auth : Auth) (w : W) (e : CloudError)
      → visible w name ≡ true
      → (vs.get_volume_by_name name auth w).0 ≡ err e
      → err_is_not_found e ≡ false

module _ {W : Type 0} (vs : VolumeService W) (config : Config) (created : W → List String)
    (visible : W → String → Bool) where
  -- At most one volume was created under the name, and if one was, its name is in the cache or visible.
  pub record IsGuarded (n : String) (s : Server W) : Type 0 where
    pub at_most_one : count n (created s.cloud) ≤ 1
    pub noted :
        (count n (created s.cloud) ≡ 0)
        ⊎ (contains n s.creating_volume_cache ≡ true)
        ⊎ (visible s.cloud n ≡ true)

  module _ (L : IsEventual vs created visible) (n : String) where
    existing_volume-IsGuarded :
        (name : String) (size : ℤ) (v : Volume) (s : Server W)
        → visible s.cloud name ≡ true
        → IsGuarded n s
        → IsGuarded n (existing_volume vs config name size v s).1
    unfolding existing_volume
    existing_volume-IsGuarded name size v s h g =
        ground (arith, contains-remove name n s.creating_volume_cache, eq_iff name n)

    find_volume_missing :
        (name : String) (auth : Auth) (s : Server W)
        → (find_volume vs config name auth s).0 ≡ ok none
        → IsGuarded name s
        → count name (created s.cloud) ≡ 0
    unfolding find_volume missing_volume
    find_volume_missing name auth s h g =
        let r = (vs.get_volume_by_name name auth s.cloud).0 in
        elim (Result-cases r) [
          | inl (v, e) ↦ ground (arith, e)
          | inr (x, e) ↦ elim (Bool-cases (visible s.cloud name)) [
            | inl seen ↦ ground (arith, e, L.not_missing name auth s.cloud x seen e)
            | inr unseen ↦ ground (arith, e, unseen, g.noted)
          ]
        ]

    find_volume_found :
        (name : String) (auth : Auth) (s : Server W) (v : Volume)
        → (find_volume vs config name auth s).0 ≡ ok (some v)
        → visible (find_volume vs config name auth s).1.cloud name ≡ true
    unfolding find_volume missing_volume
    find_volume_found name auth s v h = ground (arith, L.found name auth s.cloud v)

    find_volume-IsGuarded :
        (name : String) (auth : Auth) (s : Server W)
        → IsGuarded n s
        → IsGuarded n (find_volume vs config name auth s).1
    unfolding find_volume missing_volume
    find_volume-IsGuarded name auth s g = ground (
      arith,
      g.at_most_one,
      g.noted,
      L.created-by_name name auth s.cloud,
      L.visible-by_name name auth s.cloud n,
    )

    new_volume-IsGuarded :
        (name : String) (w : Wanted) (s : Server W)
        → (name ≡ n → count n (created s.cloud) ≡ 0)
        → IsGuarded n s
        → IsGuarded n (new_volume vs config name w s).1
    unfolding new_volume fetch_created create_args contains count
    new_volume-IsGuarded name w s h g =
        let args = create_args vs config name w in
        let made = vs.create_volume args w.auth s.cloud in
        elim (Result-cases made.0) [
          | inr (x, e) ↦ ground (
            arith,
            e,
            g.at_most_one,
            g.noted,
            L.created-create_failed args w.auth s.cloud x e,
            L.visible-create args w.auth s.cloud n,
          )
          | inl (id, e) ↦ elim (Result-cases (vs.get_volume_by_id id w.auth made.1).0) [
            | inr (x, f) ↦ ground (
              arith,
              e,
              f,
              h,
              g.at_most_one,
              g.noted,
              eq_iff name n,
              L.created-create args w.auth s.cloud id e,
              L.created-by_id id w.auth made.1,
              L.visible-create args w.auth s.cloud n,
              L.visible-by_id id w.auth made.1 n,
            )
            | inl (v, f) ↦ ground (
              arith,
              e,
              f,
              h,
              g.at_most_one,
              g.noted,
              eq_iff name n,
              contains-remove name n (name ∷ s.creating_volume_cache),
              L.created-create args w.auth s.cloud id e,
              L.created-by_id id w.auth made.1,
              L.visible-create args w.auth s.cloud n,
              L.visible-by_id id w.auth made.1 n,
              L.fetched args w.auth s.cloud id v e f,
            )
          ]
        ]

    created-find_volume :
        (name : String) (auth : Auth) (s : Server W)
        → created (find_volume vs config name auth s).1.cloud ≡ created s.cloud
    unfolding find_volume missing_volume
    created-find_volume name auth s = ground (arith, L.created-by_name name auth s.cloud)

    find_or_create-IsGuarded :
        (name : String) (w : Wanted) (s : Server W)
        → IsGuarded n s
        → IsGuarded n (find_or_create vs config name w s).1
    unfolding find_or_create
    find_or_create-IsGuarded name w s g =
        let t = (find_volume vs config name w.auth s).1 in
        let kept : IsGuarded n t = find_volume-IsGuarded name w.auth s g in
        elim (Result-cases (find_volume vs config name w.auth s).0) [
          | inr (x, e) ↦ rw e kept
          | inl (some v, e) ↦ rw e (
              existing_volume-IsGuarded name w.size_gb v t (find_volume_found name w.auth s v e)
                kept)
          | inl (none, e) ↦ rw e (
              new_volume-IsGuarded name w t
                (λ p.
                  ap (count n) (created-find_volume name w.auth s)
                  ∙ ap (λ m. count m (created s.cloud)) (sym p)
                  ∙ find_volume_missing name w.auth s e (subst (λ m. IsGuarded m s) (sym p) g))
                kept)
        ]

    process-IsGuarded :
        (req : CreateVolumeRequest) (s : Server W)
        → IsGuarded n s
        → IsGuarded n (process vs config req s).1
    unfolding process
    process-IsGuarded req s g = elim (Result-cases (read_request vs config req s).0) [
      | inr (x, e) ↦ rw (e, read_request_state vs config req s) g
      | inl (w, e) ↦
          rw (e, read_request_state vs config req s) (find_or_create-IsGuarded req.name w s g)
    ]

    -- Every attempt to create a volume, whatever its request and its outcome, keeps the invariant.
    pub create_volume-IsGuarded :
        (key : String) (req : CreateVolumeRequest) (s : Server W)
        → IsGuarded n s
        → IsGuarded n (create_volume vs config key req s).1
    unfolding create_volume
    create_volume-IsGuarded key req s g =
        let t = record s { in_process_requests = (try_lock key s.in_process_requests).1 } in
        let kept : IsGuarded n (process vs config req t).1 =
          process-IsGuarded req t (record { at_most_one = g.at_most_one; noted = g.noted }) in
        ground (arith, kept.at_most_one, kept.noted)
