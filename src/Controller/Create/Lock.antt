-- ===== src/Controller/Create/Lock.antt =====
-- The lock of a request around one attempt of `createVolume`.
use baiducloud_cce_csi_drive.Base.{
  String, true, ◌≡◌, arith, eq_iff, inl, inr, Result-cases, err, contains, Bool-cases, ◌≢◌,
}
use baiducloud_cce_csi_drive.Util.KeyMutex.Locks.{unlock-try_lock}
use baiducloud_cce_csi_drive.Util.KeyMutex.{try_lock}
use baiducloud_cce_csi_drive.Cloud.Service.{VolumeService}
use baiducloud_cce_csi_drive.Csi.{Code}
use baiducloud_cce_csi_drive.Controller.Server.{Server, Config}
use baiducloud_cce_csi_drive.Controller.Create.{
  CreateVolumeRequest, Wanted, read_request, missing_volume, find_volume, existing_volume,
  fetch_created, new_volume, find_or_create, process, create_volume,
}

module _ {W : Type 0} (vs : VolumeService W) (config : Config) where
  -- Reading a request changes nothing.
  pub read_request_state :
      (req : CreateVolumeRequest) (s : Server W) → (read_request vs config req s).1 ≡ s
  unfolding read_request
  read_request_state req s = ground arith

  in_process-find_or_create :
      (name : String) (w : Wanted) (s : Server W)
      → (find_or_create vs config name w s).1.in_process_requests ≡ s.in_process_requests
  unfolding find_or_create find_volume missing_volume existing_volume new_volume fetch_created
  in_process-find_or_create name w s = ground arith

  in_process-process :
      (req : CreateVolumeRequest) (s : Server W)
      → (process vs config req s).1.in_process_requests ≡ s.in_process_requests
  unfolding process
  in_process-process req s = elim (Result-cases (read_request vs config req s).0) [
    | inl (w, e) ↦
        ground (arith, e, read_request_state req s, in_process-find_or_create req.name w s)
    | inr (c, e) ↦ ground (arith, e, read_request_state req s)
  ]

  -- An attempt leaves the locks as it found them, whatever its outcome.
  pub in_process-create_volume :
      (key : String) (req : CreateVolumeRequest) (s : Server W)
      → (create_volume vs config key req s).1.in_process_requests ≡ s.in_process_requests
  unfolding create_volume try_lock
  in_process-create_volume key req s = elim (Bool-cases (contains key s.in_process_requests.kv)) [
    | inl e ↦ ground (arith, e)
    | inr e ↦ ground (
      arith,
      e,
      unlock-try_lock key s.in_process_requests e,
      in_process-process req
          (record s { in_process_requests = (try_lock key s.in_process_requests).1 }),
    )
  ]

  -- An attempt whose request is in process already, and names a volume, is aborted and does
  -- nothing else.
  pub create_volume_in_process :
      (key : String) (req : CreateVolumeRequest) (s : Server W)
      → contains key s.in_process_requests.kv ≡ true
      → req.name ≢ ""
      → create_volume vs config key req s ≡ (err Code.aborted, s)
  unfolding create_volume try_lock
  create_volume_in_process key req s e h = ground (arith, e, h, eq_iff req.name "")
