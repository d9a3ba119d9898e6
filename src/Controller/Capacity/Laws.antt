-- ===== src/Controller/Capacity/Laws.antt =====
-- The size that a capacity range asks for.
use baiducloud_cce_csi_drive.Base.{
  ℕ, ◌+◌, ◌*◌, ◌^◌, ◌≤◌, ◌<◌, ◌≡◌, ◌≢◌, ◌⊎◌, inl, inr, refl, zero, suc, true, some, ok, err, arith,
  Result, Result-cases,
}
use baiducloud_cce_csi_drive.Base.Int.{ℤ, pos, ltb_ℤ}
use baiducloud_cce_csi_drive.Util.Size.{gb, round_up_gb}
use baiducloud_cce_csi_drive.Util.Size.Laws.{
  size_gb_to_bytes-round_up_gb, size_gb_to_bytes_small, round_up_gb_overflow,
}
use baiducloud_cce_csi_drive.Csi.{CapacityRange}
use baiducloud_cce_csi_drive.Controller.Capacity.{
  get_volume_size_gb, size_in_gb_meet_cap_range, CapacityError,
}

zero-cases : (n : ℕ) → (n ≡ 0) ⊎ (n ≢ 0)
zero-cases zero = inl refl
zero-cases (suc n) = inr (λ e. omega arith)

abbrev pub range : ℕ → ℕ → CapacityRange
range required limit = record { required_bytes = pos required; limit_bytes = pos limit }

module _ (n l : ℕ) (small : n + gb ≤ 2 ^ 63) where
  -- A range that is accepted, with what it requires and its limit not negative, and what it
  -- requires at most 2^63 - 2^30 bytes: the size covers what is required, is within a positive
  -- limit, is 100 GB where nothing is required, and otherwise exceeds it by less than one GB.
  pub get_volume_size_gb-ok :
      (g : ℤ)
      → get_volume_size_gb (some (range n l)) ≡ ok g
      → (k : ℕ) × (g ≡ pos k)
        × (n ≤ k * gb)
        × ((l ≡ 0) ⊎ (k * gb ≤ l))
        × (n ≡ 0 → k ≡ 100)
        × (n ≢ 0 → k * gb < n + gb)
  unfolding get_volume_size_gb
  get_volume_size_gb-ok g h =
      let (k, a, b, c, d) = size_gb_to_bytes-round_up_gb n small in
      elim (zero-cases n) [
        | inl z ↦ (
          100,
          ground (arith, z, size_gb_to_bytes_small 100 (omega arith)),
          omega arith,
          ground (arith, z, size_gb_to_bytes_small 100 (omega arith)),
          λ _. omega arith,
          λ x. absurd (x z),
        )
        | inr z ↦ (k, ground (arith, a, z), c, ground (arith, a, b, z), λ x. absurd (z x), λ _. d)
      ]

  -- A range, with what it requires and its limit not negative, and what it requires at most 2^63 -
  -- 2^30 bytes, is refused only where its limit is positive and below the size that it would be
  -- given: below 100 GB where nothing is required, and otherwise below every number of GB that
  -- covers what is required.
  pub get_volume_size_gb-err :
      (e : CapacityError)
      → get_volume_size_gb (some (range n l)) ≡ err e
      → (0 < l) × (n ≡ 0 → l < 100 * gb) × (n ≢ 0 → (k : ℕ) → n ≤ k * gb → l < k * gb)
  unfolding get_volume_size_gb
  get_volume_size_gb-err e h =
      let (k, a, b, c, d) = size_gb_to_bytes-round_up_gb n small in
      (
        ground (arith, a, b),
        λ z. ground (arith, z, size_gb_to_bytes_small 100 (omega arith)),
        λ z j covers. let below : l < k * gb = ground (arith, a, b, z) in omega arith,
      )

  -- What an answer says of the range: the accepted size, or the limit that refuses it.
  abbrev pub IsAnswer : Result CapacityError ℤ → Type 0
  IsAnswer (ok g) =
      (k : ℕ) × (g ≡ pos k)
      × (n ≤ k * gb)
      × ((l ≡ 0) ⊎ (k * gb ≤ l))
      × (((n ≡ 0) × (k ≡ 100)) ⊎ ((n ≢ 0) × (k * gb < n + gb)))
  IsAnswer (err e) =
      (0 < l)
      × (((n ≡ 0) × (l < 100 * gb))
          ⊎ ((n ≢ 0) × (k : ℕ) × (n ≤ k * gb) × (k * gb < n + gb) × (l < k * gb)))

  -- For a range with what it requires and its limit not negative, and what it requires at most 2^63 -
  -- 2^30 bytes: a size that is answered covers what is required, is within a positive limit, is 100
  -- GB where nothing is required, and otherwise exceeds it by less than one GB; and a range is
  -- refused only where its limit is positive and below that size.
  pub get_volume_size_gb-IsAnswer : IsAnswer (get_volume_size_gb (some (range n l)))
  get_volume_size_gb-IsAnswer =
      let (j, a, b, c, d) = size_gb_to_bytes-round_up_gb n small in
      elim (Result-cases (get_volume_size_gb (some (range n l)))) [
        | inl (g, h) ↦
            let (k, same, covers, within, none_required, tight) = get_volume_size_gb-ok g h in
            rw h (
              k,
              same,
              covers,
              within,
              elim (zero-cases n) [ inl z ↦ inl (z, none_required z) | inr z ↦ inr (z, tight z) ],
            )
        | inr (e, h) ↦
            let (positive, default, below) = get_volume_size_gb-err e h in
            rw h (
              positive,
              elim (zero-cases n) [
                | inl z ↦ inl (z, default z)
                | inr z ↦ inr (z, j, c, d, below z j c)
              ],
            )
      ]

  -- A volume of the size that a range is given meets the range, for a range whose limit and what it
  -- requires are not negative, and that requires at most 2^63 - 2^30 bytes.
  pub size_in_gb_meet_cap_range-get_volume_size_gb :
      (g : ℤ)
      → get_volume_size_gb (some (range n l)) ≡ ok g
      → size_in_gb_meet_cap_range g (some (range n l)) ≡ true
  unfolding get_volume_size_gb size_in_gb_meet_cap_range
  size_in_gb_meet_cap_range-get_volume_size_gb g h =
      let (k, a, b, c, d) = size_gb_to_bytes-round_up_gb n small in
      ground (arith, a, b, size_gb_to_bytes_small 100 (omega arith))

-- Where what is required lies within one GB of the largest `int64` and there is no limit, the range
-- is accepted with a negative size.
pub get_volume_size_gb_overflow :
    (n : ℕ)
    → 2 ^ 63 < n + gb
    → n < 2 ^ 63
    → (g : ℤ) × (get_volume_size_gb (some (range n 0)) ≡ ok g) × (ltb_ℤ g (pos 0) ≡ true)
unfolding get_volume_size_gb
get_volume_size_gb_overflow n lo hi =
    (round_up_gb (pos n), ground arith, round_up_gb_overflow n lo hi)
