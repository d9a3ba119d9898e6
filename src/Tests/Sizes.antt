-- ===== src/Tests/Sizes.antt =====
-- Sizes, capacity ranges, capabilities, zones, parameters, endpoints and the mutex.
use Prim.Native.String.{◌++◌ as ◌<>◌}
use baiducloud_cce_csi_drive.Base.{
  ℕ, ◌+◌, ◌*◌, ◌≤◌, ◌<◌, String, true, ◌||◌, none, some, List, [], ◌∷◌, ◌≡◌, ◌≢◌, ◌↔◌, ◌⊎◌, refl,
  arith, ok, contains, remove, starts_with, lookup,
}
use baiducloud_cce_csi_drive.Base.Int.{ℤ, pos, ltb_ℤ}
use baiducloud_cce_csi_drive.Util.Digest.{md5}
use baiducloud_cce_csi_drive.Util.Size.{gb, round_up_gb, size_gb_to_bytes}
use baiducloud_cce_csi_drive.Util.Size.Laws.{size_gb_to_bytes-round_up_gb}
use baiducloud_cce_csi_drive.Util.Text.{to_lower, split_first, strip_prefix}
use baiducloud_cce_csi_drive.Util.Number.{parse_int}
use baiducloud_cce_csi_drive.Util.Endpoint.{parse_grpc_endpoint, parse_grpc_endpoint-ok}
use baiducloud_cce_csi_drive.Util.KeyMutex.{try_lock, unlock, new_key_mutex}
use baiducloud_cce_csi_drive.Util.KeyMutex.Threads.{
  System, locked, refused, unlocked, here, next, idle, holders, finish, one_if, mutual_exclusion,
}
use baiducloud_cce_csi_drive.Controller.Capability.{
  volume_caps, AllIn, check_volume_capabilities, check_volume_capabilities_iff,
}
use baiducloud_cce_csi_drive.Controller.Capacity.{
  get_volume_size_gb, size_in_gb_meet_cap_range, rounded_over_limit,
}
use baiducloud_cce_csi_drive.Controller.Capacity.Laws.{
  range, IsAnswer, get_volume_size_gb-IsAnswer, get_volume_size_gb-ok, get_volume_size_gb-err,
  size_in_gb_meet_cap_range-get_volume_size_gb, get_volume_size_gb_overflow,
}
use baiducloud_cce_csi_drive.Controller.Zone.{get_volume_zone, get_volume_zone-append}
use baiducloud_cce_csi_drive.Controller.Parameters.{
  no_parameters, read_length, parse_parameters, by_key, parse_parameters-by_key,
}
use baiducloud_cce_csi_drive.Tests.Clouds.{writer}

five_gb :
    (g : ℕ) × (round_up_gb (pos 5000000000) ≡ pos g)
    × (size_gb_to_bytes (round_up_gb (pos 5000000000)) ≡ pos (g * gb))
    × (5000000000 ≤ g * gb)
    × (g * gb < 5000000000 + gb)
five_gb = size_gb_to_bytes-round_up_gb 5000000000 (omega arith)

abbrev five_billion : ℕ
five_billion = 5000000000

-- Nearly 5 GB, with a limit of 6 GB.
accepted_limit :
    (k : ℕ) × (pos 5 ≡ pos k)
    × (5000000000 ≤ k * gb)
    × ((6 * gb ≡ 0) ⊎ (k * gb ≤ 6 * gb))
    × (five_billion ≡ 0 → k ≡ 100)
    × (five_billion ≢ 0 → k * gb < 5000000000 + gb)
unfolding get_volume_size_gb size_gb_to_bytes round_up_gb
accepted_limit = get_volume_size_gb-ok 5000000000 (6 * gb) (omega arith) (pos 5) refl

refused_limit :
    (0 < 5000000001)
    × (five_billion ≡ 0 → 5000000001 < 100 * gb)
    × (five_billion ≢ 0 → (k : ℕ) → 5000000000 ≤ k * gb → 5000000001 < k * gb)
unfolding get_volume_size_gb size_gb_to_bytes round_up_gb
refused_limit = get_volume_size_gb-err 5000000000 5000000001 (omega arith) rounded_over_limit refl

-- The range with a limit that is too small.
get_volume_size_gb-IsAnswer_example :
    IsAnswer 5000000000 5000000001
      (omega arith)
      (get_volume_size_gb (some (range 5000000000 5000000001)))
get_volume_size_gb-IsAnswer_example =
    get_volume_size_gb-IsAnswer 5000000000 5000000001 (omega arith)

size_in_gb_meet_cap_range-get_volume_size_gb_example :
    size_in_gb_meet_cap_range (pos 5) (some (range 5000000000 (6 * gb))) ≡ true
unfolding get_volume_size_gb size_gb_to_bytes round_up_gb
size_in_gb_meet_cap_range-get_volume_size_gb_example =
    size_in_gb_meet_cap_range-get_volume_size_gb 5000000000 (6 * gb) (omega arith) (pos 5) refl

-- The largest `int64`.
get_volume_size_gb_overflow_example :
    (g : ℤ) × (get_volume_size_gb (some (range 9223372036854775807 0)) ≡ ok g)
    × (ltb_ℤ g (pos 0) ≡ true)
get_volume_size_gb_overflow_example =
    get_volume_size_gb_overflow 9223372036854775807 (omega arith) (omega arith)

one_writer_passes :
    (check_volume_capabilities volume_caps (some writer ∷ none ∷ []) ≡ ok tt)
    ↔ (((some writer ∷ none ∷ []) ≢ []) × AllIn volume_caps (some writer ∷ none ∷ []))
one_writer_passes = check_volume_capabilities_iff volume_caps (some writer ∷ none ∷ [])

zone_of_requisite :
    get_volume_zone "zone"
      (some (record { requisite = (("zone", "a") ∷ []) ∷ []; preferred = [] ∷ [] }))
    ≡ "a"
unfolding get_volume_zone lookup
zone_of_requisite = get_volume_zone-append "zone" ([] ∷ []) ((("zone", "a") ∷ []) ∷ [])

parse_parameters-by_key_example :
    parse_parameters
      (("storageType", "ssd")
        ∷ ("reservationLength", "12")
        ∷ ("other", "x")
        ∷ ("paymentTiming", "Prepaid")
        ∷ [])
      no_parameters
    ≡ ok (record {
      storage_type = "cloud_hp1";
      payment_timing = "Prepaid";
      reservation_length = pos 12;
      reservation_time_unit = "";
    })
unfolding parse_parameters by_key lookup read_length parse_int
parse_parameters-by_key_example =
    parse_parameters-by_key
      (("storageType", "ssd")
        ∷ ("reservationLength", "12")
        ∷ ("other", "x")
        ∷ ("paymentTiming", "Prepaid")
        ∷ [])
      no_parameters (refl, (refl, (refl, (refl, tt))))

-- The protocol keeps its case, so that a server would not recognise it.
parse_grpc_endpoint-ok_example :
    ("UNIX" <> ("://" <> "/csi.sock") ≡ "UNIX:///csi.sock")
    × (◌≢◌ {A = String} "/csi.sock" "")
    × ((starts_with (to_lower "UNIX:///csi.sock") "unix://"
          || starts_with (to_lower "UNIX:///csi.sock") "tcp://")
        ≡ true)
unfolding parse_grpc_endpoint to_lower split_first strip_prefix
parse_grpc_endpoint-ok_example =
    parse_grpc_endpoint-ok "UNIX:///csi.sock" {proto = "UNIX"} {addr = "/csi.sock"} refl

-- One request takes the key, another is refused, the first is done, and the other takes the key.
after_first : System
after_first = record { mutex = record { kv = "k" ∷ [] }; running = (1, "k") ∷ [] }

mutual_exclusion_example :
    (holders "k" ((2, "k") ∷ []) ≤ 1)
    × (holders "k" ((2, "k") ∷ []) ≡ one_if (contains "k" ("k" ∷ [])))
unfolding try_lock unlock new_key_mutex after_first contains remove finish
mutual_exclusion_example =
    mutual_exclusion {s = record { mutex = record { kv = "k" ∷ [] }; running = (2, "k") ∷ [] }} "k"
      (next
        (next
          (next (next here (locked idle 1 "k" (record { kv = "k" ∷ [] }) refl))
            (refused after_first "k" (record { kv = "k" ∷ [] }) refl))
          (unlocked after_first 1 "k" [] refl))
        (locked idle 2 "k" (record { kv = "k" ∷ [] }) refl))

-- The MD5 sum of the empty text.
abbrev sum_of_nothing : String → List ℕ
sum_of_nothing s =
    212 ∷ 29 ∷ 140 ∷ 217 ∷ 143 ∷ 0 ∷ 178 ∷ 4 ∷ 233 ∷ 128 ∷ 9 ∷ 152 ∷ 236 ∷ 248 ∷ 66 ∷ 126 ∷ []

digest_of_nothing : md5 sum_of_nothing "" ≡ "d41d8cd98f00b204e9800998ecf8427e"
unfolding md5
digest_of_nothing = refl
