-- ===== src/Cloud/Calls.antt =====
-- The calls that change the cloud, in the order in which they are made: a log beside a service.
use baiducloud_cce_csi_drive.Base.{String, List, ◌∷◌, ◌≡◌, ◌⊎◌, refl, Exec}
use baiducloud_cce_csi_drive.Base.Int.{ℤ}
use baiducloud_cce_csi_drive.Cloud.Auth.{Auth}
use baiducloud_cce_csi_drive.Cloud.Volume.{Volume}
use baiducloud_cce_csi_drive.Cloud.Service.{
  CreateCdsVolumeArgs, ResizeCdsVolumeArgs, VolumeService, NodeService,
}

-- A call with the volume's identifier, or the name of a volume to be created.
pub data Call : Type 0 where
  create : (name : String) → Call
  delete : (id : String) → Call
  attach : (id node_id : String) → Call
  detach : (id node_id : String) → Call
  resize : (id : String) (size : ℤ) → Call

-- `log` tells the calls that were made, the last one first, whether they succeeded or not.
pub record IsLogged {W : Type 0} (vs : VolumeService W) (ns : NodeService W) (log : W → List Call)
    : Type 0 where
  pub log-create :
      (args : CreateCdsVolumeArgs) (auth : Auth) (w : W)
      → log (vs.create_volume args auth w).1 ≡ create args.name ∷ log w
  pub log-by_id :
      (id : String) (auth : Auth) (w : W) → log (vs.get_volume_by_id id auth w).1 ≡ log w
  pub log-by_name :
      (name : String) (auth : Auth) (w : W) → log (vs.get_volume_by_name name auth w).1 ≡ log w
  pub log-delete : (v : Volume) (w : W) → log (vs.delete v w).1 ≡ delete v.model.id ∷ log w
  pub log-attach :
      (v : Volume) (n : String) (w : W) → log (vs.attach v n w).1 ≡ attach v.model.id n ∷ log w
  pub log-detach :
      (v : Volume) (n : String) (w : W) → log (vs.detach v n w).1 ≡ detach v.model.id n ∷ log w
  pub log-resize :
      (v : Volume) (args : ResizeCdsVolumeArgs) (w : W)
      → log (vs.resize v args w).1 ≡ resize v.model.id args.new_cds_size_in_gb ∷ log w
  pub log-node : (id : String) (auth : Auth) (w : W) → log (ns.get_node_by_id id auth w).1 ≡ log w

-- No call was made, or one call that satisfies `Q`.
abbrev pub Issued : (Call → Type 0) → List Call → List Call → Type 0
Issued Q before after = (after ≡ before) ⊎ ((c : Call) × (after ≡ c ∷ before) × Q c)

abbrev noted : {W E A : Type 0} → Call → Exec W E A → Exec (W × List Call) E A
noted c m (w, calls) = let (r, w') = m w in (r, (w', c ∷ calls))

abbrev unnoted : {W E A : Type 0} → Exec W E A → Exec (W × List Call) E A
unnoted m (w, calls) = let (r, w') = m w in (r, (w', calls))

-- Every service can be given a log.
abbrev pub with_log : {W : Type 0} → VolumeService W → VolumeService (W × List Call)
with_log vs = record {
  create_volume = λ args auth. noted (create args.name) (vs.create_volume args auth);
  get_volume_by_id = λ id auth. unnoted (vs.get_volume_by_id id auth);
  get_volume_by_name = λ name auth. unnoted (vs.get_volume_by_name name auth);
  delete = λ v. noted (delete v.model.id) (vs.delete v);
  attach = λ v n. noted (attach v.model.id n) (vs.attach v n);
  detach = λ v n. noted (detach v.model.id n) (vs.detach v n);
  resize = λ v args. noted (resize v.model.id args.new_cds_size_in_gb) (vs.resize v args);
}

abbrev pub nodes_with_log : {W : Type 0} → NodeService W → NodeService (W × List Call)
nodes_with_log ns = record { get_node_by_id = λ id auth. unnoted (ns.get_node_by_id id auth) }

pub with_log-IsLogged :
    {W : Type 0} (vs : VolumeService W) (ns : NodeService W)
    → IsLogged (with_log vs) (nodes_with_log ns) (λ w. w.1)
with_log-IsLogged vs ns = record {
  log-create = λ args auth w. refl;
  log-by_id = λ id auth w. refl;
  log-by_name = λ name auth w. refl;
  log-delete = λ v w. refl;
  log-attach = λ v n w. refl;
  log-detach = λ v n w. refl;
  log-resize = λ v args w. refl;
  log-node = λ id auth w. refl;
}
