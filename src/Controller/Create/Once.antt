-- ===== src/Controller/Create/Once.antt =====
-- No name gets a second volume from the server, however late the cloud's listings are.
use baiducloud_cce_csi_drive.Base.{◌≤◌, String, Bool, true, List, ◌≡◌, inl, arith, count}
use baiducloud_cce_csi_drive.Cloud.Service.{VolumeService}
use baiducloud_cce_csi_drive.Controller.Server.{Server, Config}
use baiducloud_cce_csi_drive.Controller.Create.{CreateVolumeRequest, create_volume}
use baiducloud_cce_csi_drive.Controller.Create.Guarded.{
  IsEventual, IsGuarded, create_volume-IsGuarded,
}

module _ {W : Type 0} (vs : VolumeService W) (config : Config) (created : W → List String)
    (visible : W → String → Bool) where
  -- What happens to the server: attempts to create volumes, and changes of the cloud from outside
  -- that create nothing and hide nothing.
  pub data Step : Server W → Server W → Type 0 where
    attempt :
        (s : Server W) (key : String) (req : CreateVolumeRequest)
        → Step s (create_volume vs config key req s).1
    drift :
        (s : Server W) (w : W)
        → created w ≡ created s.cloud
        → ((n : String) → visible s.cloud n ≡ true → visible w n ≡ true)
        → Step s (record s { cloud = w })

  pub data Reach (s : Server W) : Server W → Type 0 where
    here : Reach s s
    next : {t u : Server W} → Reach s t → Step t u → Reach s u

  Step-IsGuarded :
      IsEventual vs created visible
      → (n : String) → {s t : Server W} → Step s t
      → IsGuarded vs config created visible n s
      → IsGuarded vs config created visible n t
  Step-IsGuarded L n (attempt s key req) g =
      create_volume-IsGuarded vs config created visible L n key req s g
  Step-IsGuarded L n (drift s w e keeps) g = ground (arith, g.at_most_one, g.noted, e, keeps n)

  Reach-IsGuarded :
      IsEventual vs created visible
      → (n : String) → {s t : Server W} → Reach s t
      → IsGuarded vs config created visible n s
      → IsGuarded vs config created visible n t
  Reach-IsGuarded L n here g = g
  Reach-IsGuarded L n (next r st) g = Step-IsGuarded L n st (Reach-IsGuarded L n r g)

  -- Over a cloud that acts as `IsEventual` says, which may show its volumes late, and from a server under
  -- which no volume of a name has been created: after any sequence of attempts to create volumes and of
  -- changes of the cloud that create nothing and hide nothing, at most one has.
  pub create_volume_once :
      IsEventual vs created visible
      → (n : String) {s t : Server W} → count n (created s.cloud) ≡ 0
      → Reach s t
      → count n (created t.cloud) ≤ 1
  create_volume_once L n fresh r =
      (Reach-IsGuarded L n r (record { at_most_one = omega arith; noted = inl fresh })).at_most_one
