-- ===== src/Controller/Calls/Sizing.antt =====
-- The calls of the handler that expands a volume, and its answer once the volume has grown.
use baiducloud_cce_csi_drive.Base.{
  ℕ, ◌+◌, ◌^◌, ◌≤◌, true, false, not, some, List, ◌∷◌, ◌≡◌, refl, ◌⊎◌, inl, inr, arith, ok,
  Result-cases, Bool-cases,
}
use baiducloud_cce_csi_drive.Base.Int.{ℤ, ltb_ℤ}
use baiducloud_cce_csi_drive.Util.Size.{gb, size_gb_to_bytes}
use baiducloud_cce_csi_drive.Cloud.Volume.{Volume, VolumeStatus, is_scaling}
use baiducloud_cce_csi_drive.Cloud.Service.{VolumeService, NodeService}
use baiducloud_cce_csi_drive.Cloud.Calls.{Call, resize, IsLogged, Issued}
use baiducloud_cce_csi_drive.Csi.{is_block}
use baiducloud_cce_csi_drive.Controller.Capacity.{get_volume_size_gb, size_in_gb_meet_cap_range}
use baiducloud_cce_csi_drive.Controller.Capacity.Laws.{
  range, size_in_gb_meet_cap_range-get_volume_size_gb,
}
use baiducloud_cce_csi_drive.Controller.Server.{Server, Config}
use baiducloud_cce_csi_drive.Controller.Expand.{
  ExpandRequest, check_expand, begin_resize, expand, controller_expand_volume,
}
use baiducloud_cce_csi_drive.Controller.Calls.Attaching.{Fetched}

module _ {W : Type 0} (vs : VolumeService W) (ns : NodeService W) (config : Config)
    (log : W → List Call) (L : IsLogged vs ns log) where
  -- When a volume may be resized, and to which size.
  abbrev pub MayResize : ExpandRequest → Volume → ℤ → Type 0
  MayResize req v size =
      (get_volume_size_gb req.capacity_range ≡ ok size)
      × (ltb_ℤ size v.model.disk_size_in_gb ≡ false)
      × (size_in_gb_meet_cap_range v.model.disk_size_in_gb req.capacity_range ≡ false)
      × ((v.model.status ≡ VolumeStatus.available)
          ⊎ ((config.enable_online_expansion ≡ true) × (v.model.status ≡ VolumeStatus.in_use)))

  expand_calls_at :
      (req : ExpandRequest) (v : Volume) (s : Server W) (size : ℤ)
      → get_volume_size_gb req.capacity_range ≡ ok size
      → (log (expand vs config req v s).1.cloud ≡ log s.cloud)
        ⊎ ((log (expand vs config req v s).1.cloud ≡ resize v.model.id size ∷ log s.cloud)
            × MayResize req v size)
  unfolding expand begin_resize
  expand_calls_at req v s size e = ground (
    arith,
    L.log-resize v (record { new_cds_size_in_gb = size; new_volume_type = v.model.storage_type })
        s.cloud,
  )

  expand_calls :
      (req : ExpandRequest) (v : Volume) (s : Server W)
      → (log (expand vs config req v s).1.cloud ≡ log s.cloud)
        ⊎ ((size : ℤ) × (log (expand vs config req v s).1.cloud
              ≡ resize v.model.id size ∷ log s.cloud)
            × MayResize req v size)
  unfolding expand begin_resize
  expand_calls req v s = elim (Result-cases (get_volume_size_gb req.capacity_range)) [
    | inr (x, e) ↦ inl (ground (arith, e))
    | inl (size, e) ↦ elim (expand_calls_at req v s size e) [
      | inl same ↦ inl same
      | inr (more, may) ↦ inr (size, more, may)
    ]
  ]

  check_expand_state : (req : ExpandRequest) (s : Server W) → (check_expand vs config req s).1 ≡ s
  unfolding check_expand
  check_expand_state req s = ground arith

  -- Over services whose calls a log tells, an expansion makes at most one call that changes the
  -- cloud: it resizes a volume that the service fetched for the identifier of the request, and that
  -- does not meet the capacity range yet, to the size that the range asks for. That size is not
  -- below the size of the volume, and the volume is available, or in use where online expansion is
  -- enabled.
  pub controller_expand_volume_calls :
      (req : ExpandRequest) (s : Server W)
      → Issued
          (λ c.
            (v : Volume) × (size : ℤ) × Fetched vs ns config req.volume_id v
            × (c ≡ resize v.model.id size)
            × MayResize req v size)
          (log s.cloud)
          (log (controller_expand_volume vs config req s).1.cloud)
  unfolding controller_expand_volume
  controller_expand_volume_calls req s =
      let checked = check_expand_state req s in
      elim (Result-cases (check_expand vs config req s).0) [
        | inr (x, a) ↦ inl (ground (arith, checked, a))
        | inl (auth, a) ↦
            let w = (vs.get_volume_by_id req.volume_id auth s.cloud).1 in
            let quiet = L.log-by_id req.volume_id auth s.cloud in
            elim (Result-cases (vs.get_volume_by_id req.volume_id auth s.cloud).0) [
              | inr (x, f) ↦ inl (ground (arith, checked, a, f, quiet))
              | inl (v, f) ↦
                  let t = record s { cloud = w } in
                  elim (Bool-cases (is_scaling v)) [
                    | inl busy ↦ inl (ground (arith, checked, a, f, quiet, busy))
                    | inr steady ↦ elim (expand_calls req v t) [
                      | inl same ↦ inl (ground (arith, checked, a, f, quiet, steady, same))
                      | inr (size, more, may) ↦ inr (
                        resize v.model.id size,
                        ground (arith, checked, a, f, quiet, steady, more),
                        (v, size, (auth, s.cloud, f), refl, may),
                      )
                    ]
                  ]
            ]
      ]

  -- Once a volume has the size that the range of a request was given, the handler, from its check of the
  -- range on, succeeds without a call that changes the cloud and answers with that size, for a range that
  -- is not negative and requires at most 2^63 - 2^30 bytes. The node has to expand its file system unless
  -- the volume is a block volume.
  pub expand_resized :
      (n l : ℕ)
      → n + gb ≤ 2 ^ 63
      → (req : ExpandRequest) (v : Volume) (s : Server W) → req.capacity_range ≡ some (range n l)
      → get_volume_size_gb req.capacity_range ≡ ok v.model.disk_size_in_gb
      → expand vs config req v s ≡ (
        ok (record {
          capacity_bytes = size_gb_to_bytes v.model.disk_size_in_gb;
          node_expansion_required = not (is_block req.volume_capability);
        }),
        s,
      )
  unfolding expand
  expand_resized n l small req v s r size = ground (
    arith,
    r,
    size_in_gb_meet_cap_range-get_volume_size_gb n l small v.model.disk_size_in_gb (rw r at size),
  )
