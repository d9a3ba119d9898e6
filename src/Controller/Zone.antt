-- ===== src/Controller/Zone.antt =====
-- `getVolumeZone`.
use baiducloud_cce_csi_drive.Base.{
  String, Option, none, some, List, [], ◌∷◌, ◌++◌, ◌≡◌, arith, lookup,
}
use baiducloud_cce_csi_drive.Csi.{Topology, TopologyRequirement}

-- The loop over a list of topologies: the first that has the label gives the zone.
first_zone : String → List Topology → Option String
first_zone label [] = none
first_zone label (t ∷ ts) =
    let later = first_zone label ts in elim (lookup label t) [ some z ↦ some z | none ↦ later ]

-- The two loops, and the empty text after them.
pick_zone : Option String → Option String → String
pick_zone (some z) r = z
pick_zone none (some z) = z
pick_zone none none = ""

unfoldable pub get_volume_zone : String → Option TopologyRequirement → String
unfolding first_zone pick_zone
get_volume_zone label none = ""
get_volume_zone label (some r) =
    pick_zone (first_zone label r.preferred) (first_zone label r.requisite)

first_zone-append :
    (label : String) (ps rs : List Topology)
    → pick_zone (first_zone label (ps ++ rs)) none
      ≡ pick_zone (first_zone label ps) (first_zone label rs)
unfolding first_zone pick_zone
first_zone-append label [] rs = ground arith
first_zone-append label (t ∷ ts) rs = ground (arith, first_zone-append label ts rs)

-- The zone that is chosen is that of the first topology with the label, where all preferred
-- topologies come before the requisite ones.
pub get_volume_zone-append :
    (label : String) (ps rs : List Topology)
    → get_volume_zone label (some (record { requisite = rs; preferred = ps }))
      ≡ get_volume_zone label (some (record { requisite = []; preferred = ps ++ rs }))
unfolding get_volume_zone
get_volume_zone-append label ps rs = ground (arith, first_zone-append label ps rs)

-- The first preferred topology with the label gives the zone.
pub get_volume_zone-preferred :
    (label zone : String) (t : Topology) (ps rs : List Topology)
    → lookup label t ≡ some zone
    → get_volume_zone label (some (record { requisite = rs; preferred = t ∷ ps })) ≡ zone
unfolding get_volume_zone
get_volume_zone-preferred label zone t ps rs h = ground (arith, h)
