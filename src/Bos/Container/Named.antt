-- ===== src/Bos/Container/Named.antt =====
-- The names of the containers that mount buckets, `getContainerName` of pkg/driver/bos/mount.go with
-- `MD5` of pkg/util/util.go.
use Prim.Native.String.{◌++◌ as ◌<>◌}
use text.Mathlib.TextLemmas.{nil-append, cons-append}
use baiducloud_cce_csi_drive.Base.{ℕ, String, List, ◌≡◌, sym, ap, ◌∙◌, refl}
use baiducloud_cce_csi_drive.Util.Digest.{md5, AllBytes, md5_inj}
use baiducloud_cce_csi_drive.Bos.Engine.{get_container_name}

abbrev rest_of : String → String
rest_of String.[] = String.[]
rest_of (String.◌∷◌ c s) = s

abbrev without_prefix : String → String
without_prefix s = rest_of (rest_of (rest_of (rest_of (rest_of (rest_of s)))))

without_prefix-append : (s : String) → without_prefix ("bosfs-" <> s) ≡ s
without_prefix-append s =
    rw (cons-append, cons-append, cons-append, cons-append, cons-append, cons-append, nil-append)
      refl

-- Two target paths have the same name of a container only where their MD5 sums are the same.
pub get_container_name_inj :
    (sum : String → List ℕ) (a b : String)
    → AllBytes (sum a)
    → AllBytes (sum b)
    → get_container_name (md5 sum) a ≡ get_container_name (md5 sum) b
    → sum a ≡ sum b
unfolding get_container_name
get_container_name_inj sum a b h k e = md5_inj sum a b h k (
    sym (without_prefix-append (md5 sum a))
    ∙ ap without_prefix e
    ∙ without_prefix-append (md5 sum b))
