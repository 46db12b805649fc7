-- ===== src/Resource/Cu.antt =====
-- curesourceimpl.go and wflocation.go: the resources of one compute unit. A panic is `none`.
pub mod Match
pub mod Sgpr
pub mod Marks
pub mod Simd
pub mod Vgpr
pub mod Lds
pub mod Limits
pub mod Free
pub mod Ready
pub mod Reserve
pub mod RoundTrip
use sampled_mgpu_sim.Prelude.{
  ℕ, ◌+◌, ◌*◌, ◌/◌, ◌%◌, Bool, true, false, Option, none, some, List, [], ◌∷◌, ◌==◌, store, ◌>>=◌,
  ◌>>◌, guard, if◌then◌else◌, map, get_elem?, length, not,
}
use sampled_mgpu_sim.Prelude.Int.{ℤ, pos, ◌+ℤ◌, ◌-ℤ◌}
use sampled_mgpu_sim.Resource.Mask.{
  AllocStatus, free, to_reserve, reserved, ResourceMask, next_region, set_status, convert_status,
}
use Match.{WfLocation, SimdState, match_loop}

-- The fields of `insts.HsaCo` that the reservation reads.
pub record CodeObject : Type 0 where
  pub wf_sgpr_count : ℕ
  pub wi_vgpr_count : ℕ
  pub wg_group_segment_byte_size : ℕ

-- `kernels.WorkGroup`; `address` is the pointer, which is the key of `reservedWGs`.
pub record WorkGroup : Type 0 where
  pub address : ℕ
  pub code_object : CodeObject
  pub wavefronts : List ℕ

pub record CuResource : Type 0 where
  pub port : ℕ
  pub wf_pool_free_count : List ℤ
  pub sreg_count : ℤ
  pub sreg_granularity : ℕ
  pub sreg_mask : ResourceMask
  pub vreg_counts : List ℤ
  pub vreg_granularity : ℕ
  pub vreg_masks : List ResourceMask
  pub lds_byte_size : ℤ
  pub lds_granularity : ℕ
  pub lds_mask : ResourceMask
  pub next_simd : ℕ
  pub reserved_wgs : List (ℕ × List WfLocation)

unfoldable pub units_occupy : ℕ → ℕ → ℕ
units_occupy amount granularity =
    if amount % granularity == 0 then amount / granularity else amount / granularity + 1

-- The map `reservedWGs`.
unfoldable pub find_wg : ℕ → List (ℕ × List WfLocation) → Option (List WfLocation)
find_wg key [] = none
find_wg key ((k, v) ∷ rest) = if k == key then some v else find_wg key rest

unfoldable pub delete_wg : ℕ → List (ℕ × List WfLocation) → List (ℕ × List WfLocation)
delete_wg key [] = []
delete_wg key ((k, v) ∷ rest) = if k == key then delete_wg key rest else (k, v) ∷ delete_wg key rest

-- The loop of `withinSGPRLimitation`. On failure the units found so far stay marked.
unfoldable pub sgpr_loop :
    ℕ → ResourceMask → List WfLocation → Option (Bool × List WfLocation × ResourceMask)
sgpr_loop required mask [] = some (true, [], mask)
sgpr_loop required mask (l ∷ ls) =
    let (offset, mask₁) = next_region mask required free in
    elim offset [
      | none ↦ some (false, l ∷ ls, mask₁)
      | some o ↦ do
        mask₂ ← set_status mask₁ o required to_reserve
        (found, ls', mask₃) ← sgpr_loop required mask₂ ls
        some (found, record l { sgpr_offset = o * 16 * 4 } ∷ ls', mask₃)
    ]

unfoldable pub within_sgpr_limitation :
    CuResource → WorkGroup → List WfLocation → Option (Bool × List WfLocation × CuResource)
within_sgpr_limitation r wg locations = do
  let required = units_occupy wg.code_object.wf_sgpr_count r.sreg_granularity
  (found, ls, mask) ← sgpr_loop required r.sreg_mask locations
  some (found, ls, record r { sreg_mask = mask })

unfoldable pub within_lds_limitation :
    CuResource → WorkGroup → List WfLocation → Option (Bool × List WfLocation × CuResource)
within_lds_limitation r wg locations =
    let required = units_occupy wg.code_object.wg_group_segment_byte_size r.lds_granularity in
    let (offset, mask₁) = next_region r.lds_mask required free in
    elim offset [
      | none ↦ some (false, locations, record r { lds_mask = mask₁ })
      | some o ↦ do
        mask₂ ← set_status mask₁ o required to_reserve
        some (
          true,
          map {A = WfLocation} (λ l. record l { lds_offset = o * r.lds_granularity }) locations,
          record r { lds_mask = mask₂ },
        )
    ]

unfoldable pub match_wf_with_simds :
    CuResource → WorkGroup → List WfLocation → Option (Bool × List WfLocation × CuResource)
match_wf_with_simds r wg locations = do
  let required = units_occupy wg.code_object.wi_vgpr_count r.vreg_granularity
  (found, ls, s) ←
      match_loop required r.vreg_granularity r.wf_pool_free_count
        (record {
          next_simd = r.next_simd;
          vreg_masks = r.vreg_masks;
          wf_pool_entry_used = map (λ _. 0) r.wf_pool_free_count;
        })
        locations
  some (found, ls, record r { next_simd = s.next_simd; vreg_masks = s.vreg_masks })

-- `r.vregMasks[i].convertStatus(from, to)` for each `i` below the number of wavefront pools.
unfoldable pub convert_vregs :
    AllocStatus → AllocStatus → List ℤ → List ResourceMask → Option (List ResourceMask)
convert_vregs from to [] masks = some masks
convert_vregs from to (c ∷ cs) [] = none
convert_vregs from to (c ∷ cs) (m ∷ masks) = do
  rest ← convert_vregs from to cs masks
  some (convert_status from to m ∷ rest)

unfoldable pub convert_masks : AllocStatus → AllocStatus → CuResource → Option CuResource
convert_masks from to r = do
  masks ← convert_vregs from to r.wf_pool_free_count r.vreg_masks
  some (record r {
    sreg_mask = convert_status from to r.sreg_mask;
    lds_mask = convert_status from to r.lds_mask;
    vreg_masks = masks;
  })

unfoldable pub take_entries : List ℤ → List WfLocation → Option (List ℤ)
take_entries counts [] = some counts
take_entries counts (l ∷ ls) = do
  c ← get_elem? counts l.simd_id
  counts' ← store counts l.simd_id (c -ℤ pos 1)
  take_entries counts' ls

unfoldable pub reserve_resources : CuResource → WorkGroup → List WfLocation → Option CuResource
reserve_resources r wg locations = do
  counts ← take_entries r.wf_pool_free_count locations
  r' ← convert_masks to_reserve reserved (record r { wf_pool_free_count = counts })
  elim (find_wg wg.address r'.reserved_wgs) [
    | some _ ↦ none
    | none ↦ some (record r' { reserved_wgs = (wg.address, locations) ∷ r'.reserved_wgs })
  ]

unfoldable pub clear_temp_reservation : CuResource → Option CuResource
clear_temp_reservation r = convert_masks to_reserve free r

abbrev pub new_location : ℕ → WfLocation
new_location wf = record {
  wavefront = wf;
  simd_id = 0;
  vgpr_offset = 0;
  sgpr_offset = 0;
  lds_offset = 0;
}

-- The three checks in turn; a later one runs only if those before it passed.
unfoldable pub within_limitations :
    CuResource → WorkGroup → Option (Bool × List WfLocation × CuResource)
within_limitations r wg = do
  (sgpr_ok, ls₁, r₁) ← within_sgpr_limitation r wg (map new_location wg.wavefronts)
  elim sgpr_ok [
    | false ↦ some (false, ls₁, r₁)
    | true ↦ do
      (lds_ok, ls₂, r₂) ← within_lds_limitation r₁ wg ls₁
      elim lds_ok [ false ↦ some (false, ls₂, r₂) | true ↦ match_wf_with_simds r₂ wg ls₂ ]
  ]

-- `none` inside is the result `nil, false`.
unfoldable pub reserve_resource_for_wg :
    CuResource → WorkGroup → Option (Option (List WfLocation) × CuResource)
reserve_resource_for_wg r wg = do
  (found, locations, r₁) ← within_limitations r wg
  elim found [
    | true ↦ do r₂ ← reserve_resources r₁ wg locations; some (some locations, r₂)
    | false ↦ do r₂ ← clear_temp_reservation r₁; some (none, r₂)
  ]

-- One round of the loop of `FreeResourcesForWG`.
unfoldable pub free_location : CuResource → WorkGroup → WfLocation → Option CuResource
free_location r wg l = do
  c ← get_elem? r.wf_pool_free_count l.simd_id
  counts ← store r.wf_pool_free_count l.simd_id (c +ℤ pos 1)
  let lds_units = units_occupy wg.code_object.wg_group_segment_byte_size r.lds_granularity
  lds ← set_status r.lds_mask (l.lds_offset / r.lds_granularity) lds_units free
  let sgpr_units = units_occupy wg.code_object.wf_sgpr_count r.sreg_granularity
  sregs ← set_status r.sreg_mask (l.sgpr_offset / 4 / r.sreg_granularity) sgpr_units free
  let vgpr_units = units_occupy wg.code_object.wi_vgpr_count r.vreg_granularity
  vmask ← get_elem? r.vreg_masks l.simd_id
  vmask' ← set_status vmask (l.vgpr_offset / 4 / r.vreg_granularity) vgpr_units free
  vmasks ← store r.vreg_masks l.simd_id vmask'
  some (record r {
    wf_pool_free_count = counts;
    lds_mask = lds;
    sreg_mask = sregs;
    vreg_masks = vmasks;
  })

unfoldable pub free_locations : CuResource → WorkGroup → List WfLocation → Option CuResource
free_locations r wg [] = some r
free_locations r wg (l ∷ ls) = do r' ← free_location r wg l; free_locations r' wg ls

unfoldable pub free_resources_for_wg : CuResource → WorkGroup → Option CuResource
free_resources_for_wg r wg = do
  locations ← find_wg wg.address r.reserved_wgs
  r' ← free_locations r wg locations
  some (record r' { reserved_wgs = delete_wg wg.address r'.reserved_wgs })
