-- ===== src/Cloud/Cds/Listing.antt =====
-- Finding a volume by its name in a listing that comes in pages.
use baiducloud_cce_csi_drive.Base.{
  ℕ, zero, suc, ◌≤◌, String, true, false, List, [], ◌∷◌, ◌++◌, ◌≡◌, refl, arith, ok, err,
}
use mathlib.Core.List.{append_assoc, append-nil}
use baiducloud_cce_csi_drive.Cloud.Error.{CloudError, err_is_invalid_argument}
use baiducloud_cce_csi_drive.Cloud.Auth.{Auth}
use baiducloud_cce_csi_drive.Cloud.Volume.{VolumeModel}
use baiducloud_cce_csi_drive.Cloud.Service.{CreateCdsVolumeArgs}
use baiducloud_cce_csi_drive.Cloud.Sdk.{Client}
use baiducloud_cce_csi_drive.Cloud.Cds.{
  named, only_volume, list_loop, get_volume_by_name, create_volume,
}

pub named-append :
    (name : String) (xs ys : List VolumeModel)
    → named name (xs ++ ys) ≡ named name xs ++ named name ys
unfolding named
named-append name [] ys = refl
named-append name (v ∷ vs) ys = ground (arith, named-append name vs ys)

module _ {W : Type 0} (client : Client W) (auth : Auth) (w : W) where
  -- From a marker, the client lists these pages, the last of which is not truncated, and the cloud
  -- stays as it is.
  pub data Lists : String → List (List VolumeModel) → Type 0 where
    last :
        (marker next : String) (vs : List VolumeModel)
        → client.list_cds_volume auth 100 marker w
          ≡ (ok (record { volumes = vs; is_truncated = false; next_marker = next }), w)
        → Lists marker (vs ∷ [])
    more :
        (marker next : String) (vs : List VolumeModel) (pages : List (List VolumeModel))
        → client.list_cds_volume auth 100 marker w
          ≡ (ok (record { volumes = vs; is_truncated = true; next_marker = next }), w)
        → Lists next pages
        → Lists marker (vs ∷ pages)

  abbrev pub all_of : List (List VolumeModel) → List VolumeModel
  all_of [] = []
  all_of (p ∷ ps) = p ++ all_of ps

  abbrev pub page_count : List (List VolumeModel) → ℕ
  page_count [] = 0
  page_count (p ∷ ps) = suc (page_count ps)

  list_loop_all :
      (name : String) {marker : String} {pages : List (List VolumeModel)} (fuel : ℕ)
      (found : List VolumeModel)
      → Lists marker pages
      → page_count pages ≤ fuel
      → list_loop client fuel auth name marker found w
        ≡ (ok (found ++ named name (all_of pages)), w)
  unfolding list_loop
  list_loop_all name zero found (last m n vs e) h = absurd (omega arith)
  list_loop_all name zero found (more m n vs ps e ls) h = absurd (omega arith)
  list_loop_all name (suc fuel) found (last m n vs e) h = ground (arith, e, append-nil vs)
  list_loop_all name (suc fuel) found (more m n vs ps e ls) h = ground (
    arith,
    e,
    list_loop_all name fuel (found ++ named name vs) ls (omega arith),
    named-append name vs (all_of ps),
    append_assoc found (named name vs) (named name (all_of ps)),
  )

  -- Where the client lists pages to a last one and the cloud stays as it is, and with fuel for every
  -- page, looking a volume up by name gives what the whole listing says: the one
  -- volume of that name, a missing volume if there is none, and an error if there are several.
  pub get_volume_by_name_lem :
      (name : String) {pages : List (List VolumeModel)} (fuel : ℕ)
      → Lists "" pages
      → page_count pages ≤ fuel
      → get_volume_by_name client fuel name auth w
        ≡ (only_volume auth (named name (all_of pages)), w)
  unfolding get_volume_by_name
  get_volume_by_name_lem name fuel ls h = ground (arith, list_loop_all name fuel [] ls h)

pub create_volume_not_invalid :
    {W : Type 0} (client : Client W) (args : CreateCdsVolumeArgs) (auth : Auth) (w : W)
    {e : CloudError}
    → (create_volume client args auth w).0 ≡ err e
    → err_is_invalid_argument e ≡ false
unfolding create_volume err_is_invalid_argument
create_volume_not_invalid client args auth w h = ground arith
