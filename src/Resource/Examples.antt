-- ===== src/Resource/Examples.antt =====
-- A small compute unit, and runs on it.
use sampled_mgpu_sim.Prelude.{
  ◌+◌, ◌≡◌, ◌≢◌, refl, some, none, Option, List, [], ◌∷◌, replicate, arith,
}
use sampled_mgpu_sim.Prelude.Int.{pos, negsuc, ◌-ℤ◌}
use sampled_mgpu_sim.Resource.Mask.{
  AllocStatus, free, reserved, used, limited, next_region, next_region_impl, scan, set_status,
  set_status_impl, convert_status, convert_impl, status_count_impl,
}
use sampled_mgpu_sim.Resource.Mask.Fill.{fill, set_status-fill}
use sampled_mgpu_sim.Resource.Mask.Region.{FirstRegion, next_region-FirstRegion}
use sampled_mgpu_sim.Resource.Mask.Convert.{count-convert}
use sampled_mgpu_sim.Resource.Cu.Match.{
  WfLocation, advance, has_entry, place, find_simd, match_loop,
}
use sampled_mgpu_sim.Resource.Cu.{
  CodeObject, WorkGroup, CuResource, units_occupy, find_wg, sgpr_loop, within_sgpr_limitation,
  within_lds_limitation, match_wf_with_simds, convert_vregs, convert_masks, take_entries,
  reserve_resources, clear_temp_reservation, within_limitations, reserve_resource_for_wg,
  free_resources_for_wg,
}
use sampled_mgpu_sim.Resource.Cu.Ready.{IsReady, view}
use sampled_mgpu_sim.Resource.Cu.Reserve.{reserve-refused}
use sampled_mgpu_sim.Resource.Cu.RoundTrip.{
  reserve_total, reserve_twice, Located, reserve-Located, free-reserve,
}
use sampled_mgpu_sim.Resource.Pool.{DispatchableCu, CuResourcePool}

abbrev sregs : List AllocStatus
sregs = used ∷ free ∷ free ∷ free ∷ free ∷ free ∷ []

abbrev vregs : List AllocStatus
vregs = free ∷ free ∷ []

abbrev unit : CuResource
unit = record {
  port = 0;
  wf_pool_free_count = pos 2 ∷ pos 1 ∷ [];
  sreg_count = pos 96;
  sreg_granularity = 16;
  sreg_mask = limited sregs;
  vreg_counts = pos 512 ∷ pos 512 ∷ [];
  vreg_granularity = 4;
  vreg_masks = limited vregs ∷ limited vregs ∷ [];
  lds_byte_size = pos 1024;
  lds_granularity = 256;
  lds_mask = limited (replicate 4 free);
  next_simd = 1;
  reserved_wgs = [];
}

abbrev code : CodeObject
code = record { wf_sgpr_count = 20; wi_vgpr_count = 5; wg_group_segment_byte_size = 300 }

abbrev group : WorkGroup
group = record { address = 7; code_object = code; wavefronts = 1 ∷ 2 ∷ [] }

-- Three wavefronts want six units of scalar registers, and five are free.
abbrev big_group : WorkGroup
big_group = record group { wavefronts = 1 ∷ 2 ∷ 3 ∷ [] }

abbrev locations : List WfLocation
locations =
    record { wavefront = 1; simd_id = 1; vgpr_offset = 0; sgpr_offset = 64; lds_offset = 0 }
    ∷ record { wavefront = 2; simd_id = 0; vgpr_offset = 0; sgpr_offset = 192; lds_offset = 0 }
    ∷ []

abbrev holding_unit : CuResource
holding_unit = record unit {
  wf_pool_free_count = pos 1 ∷ pos 0 ∷ [];
  sreg_mask = limited (used ∷ reserved ∷ reserved ∷ reserved ∷ reserved ∷ free ∷ []);
  vreg_masks = limited (reserved ∷ reserved ∷ []) ∷ limited (reserved ∷ reserved ∷ []) ∷ [];
  lds_mask = limited (reserved ∷ reserved ∷ free ∷ free ∷ []);
  next_simd = 1;
  reserved_wgs = (7, locations) ∷ [];
}

unit-IsReady : IsReady unit
unit-IsReady = record {
  sreg_unit = refl;
  vreg_unit = refl;
  lds_unit = refl;
  next = omega arith;
  masks = refl;
  sregs_clear = ground arith;
  lds_clear = ground arith;
  vregs_clear = ground arith;
}

granted_run : reserve_resource_for_wg unit group ≡ some (some locations, holding_unit)
unfolding reserve_resource_for_wg within_limitations within_sgpr_limitation sgpr_loop units_occupy
    next_region next_region_impl scan set_status set_status_impl within_lds_limitation
    match_wf_with_simds match_loop find_simd has_entry place advance reserve_resources take_entries
    convert_masks convert_vregs convert_status convert_impl find_wg ◌-ℤ◌
granted_run = refl

refused_run : reserve_resource_for_wg unit big_group ≡ some (none, unit)
unfolding reserve_resource_for_wg within_limitations within_sgpr_limitation sgpr_loop units_occupy
    next_region next_region_impl scan set_status set_status_impl convert_masks convert_vregs
    convert_status convert_impl clear_temp_reservation
refused_run = refl

-- The run gave each wavefront a SIMD unit of its own.
reserve_total_example :
    (answer : Option (List WfLocation)) × (r' : CuResource) × (reserve_resource_for_wg unit group
      ≡ some (answer, r'))
    × IsReady r'
unfolding find_wg
reserve_total_example = reserve_total unit group unit-IsReady refl

holding-IsReady : IsReady holding_unit
holding-IsReady = record {
  sreg_unit = refl;
  vreg_unit = refl;
  lds_unit = refl;
  next = omega arith;
  masks = refl;
  sregs_clear = ground arith;
  lds_clear = ground arith;
  vregs_clear = ground arith;
}

reserve_twice_example :
    reserve_resource_for_wg holding_unit group ≢ some (some locations, holding_unit)
unfolding find_wg
reserve_twice_example = reserve_twice holding_unit group holding-IsReady refl

reserve-refused_example : view unit ≡ view unit
reserve-refused_example = reserve-refused unit big_group unit-IsReady refused_run

reserve-Located_example : Located unit group locations
reserve-Located_example = reserve-Located unit group unit-IsReady granted_run

free-reserve_example :
    (r'' : CuResource) × (free_resources_for_wg holding_unit group ≡ some r'')
    × (view r'' ≡ view unit)
    × IsReady r''
free-reserve_example = free-reserve unit group unit-IsReady (λ e. cc) granted_run

abbrev dispatchable : DispatchableCu
dispatchable = record {
  address = 3;
  dispatching_port = 0;
  wf_pool_sizes = pos 10 ∷ pos 10 ∷ [];
  vreg_counts = pos 1024 ∷ negsuc 0 ∷ [];
  sreg_count = pos 3200;
  lds_bytes = pos 65536;
}

abbrev empty_pool : CuResourcePool
empty_pool = record { registered_cus = 4 ∷ []; cus = [] }

next_region-FirstRegion_example : FirstRegion sregs 2 free 0 (next_region_impl sregs 2 free)
next_region-FirstRegion_example = next_region-FirstRegion sregs 2 free

set_status-fill_example : set_status_impl sregs 1 3 used ≡ some (fill sregs 1 3 used)
set_status-fill_example = set_status-fill sregs 1 3 used (omega arith)

count-convert_example :
    (status_count_impl free (convert_impl free reserved sregs) ≡ 0)
    × (status_count_impl reserved (convert_impl free reserved sregs)
        ≡ status_count_impl free sregs + status_count_impl reserved sregs)
    × (used ≢ free
        → used ≢ reserved
        → status_count_impl used (convert_impl free reserved sregs) ≡ status_count_impl used sregs)
count-convert_example = count-convert free reserved used sregs (λ e. cc)
