-- ===== src/Dispatch/Examples.antt =====
-- A pool of two compute units, of which one is full.
use sampled_mgpu_sim.Prelude.{ℕ, ◌≡◌, refl, Option, none, some, List, [], ◌∷◌, All, length, arith}
use sampled_mgpu_sim.Prelude.Int.{pos}
use sampled_mgpu_sim.Resource.Mask.{free, used, limited}
use sampled_mgpu_sim.Resource.Cu.Match.{WfLocation}
use sampled_mgpu_sim.Resource.Cu.{CodeObject, WorkGroup, CuResource, find_wg}
use sampled_mgpu_sim.Resource.Cu.Ready.{IsReady}
use sampled_mgpu_sim.Dispatch.{Ops, DispatchLocation, RoundRobin, fetch, next}
use sampled_mgpu_sim.Dispatch.Laws.{resource_ops, resource_laws}
use sampled_mgpu_sim.Dispatch.Greedy.{Greedy, greedy_next, resting_result, greedy-next}
use sampled_mgpu_sim.Dispatch.Search.{Result, next-Ends}

abbrev open_unit : CuResource
open_unit = record {
  port = 1;
  wf_pool_free_count = pos 1 ∷ [];
  sreg_count = pos 32;
  sreg_granularity = 16;
  sreg_mask = limited (free ∷ free ∷ []);
  vreg_counts = pos 512 ∷ [];
  vreg_granularity = 4;
  vreg_masks = limited (free ∷ free ∷ []) ∷ [];
  lds_byte_size = pos 256;
  lds_granularity = 256;
  lds_mask = limited (free ∷ []);
  next_simd = 0;
  reserved_wgs = [];
}

abbrev full_unit : CuResource
full_unit = record open_unit { port = 0; sreg_mask = limited (used ∷ used ∷ []) }

abbrev code : CodeObject
code = record { wf_sgpr_count = 16; wi_vgpr_count = 8; wg_group_segment_byte_size = 100 }

abbrev group : WorkGroup
group = record { address = 5; code_object = code; wavefronts = 9 ∷ [] }

abbrev pop : List WorkGroup → Option (Option WorkGroup × List WorkGroup)
pop [] = some (none, [])
pop (wg ∷ wgs) = some (some wg, wgs)

abbrev ops : Ops CuResource WorkGroup WfLocation (List WorkGroup) ℕ
ops = resource_ops pop length

abbrev idle : RoundRobin CuResource WorkGroup (List WorkGroup)
idle = record {
  grid_builder = group ∷ [];
  cus = full_unit ∷ open_unit ∷ [];
  curr_wg = none;
  next_cu = 0;
  num_dispatched_wgs = 0;
}

abbrev loaded : RoundRobin CuResource WorkGroup (List WorkGroup)
loaded = record idle { grid_builder = []; curr_wg = some group }

fetched : fetch ops idle ≡ some loaded
unfolding fetch
fetched = refl

open-IsReady : IsReady open_unit
open-IsReady = record {
  sreg_unit = refl;
  vreg_unit = refl;
  lds_unit = refl;
  next = omega arith;
  masks = refl;
  sregs_clear = ground arith;
  lds_clear = ground arith;
  vregs_clear = ground arith;
}

full-IsReady : IsReady full_unit
full-IsReady = record {
  sreg_unit = refl;
  vreg_unit = refl;
  lds_unit = refl;
  next = omega arith;
  masks = refl;
  sregs_clear = ground arith;
  lds_clear = ground arith;
  vregs_clear = ground arith;
}

next-Ends_example :
    (r : Option (DispatchLocation WorkGroup WfLocation ℕ)
      × RoundRobin CuResource WorkGroup (List WorkGroup))
    × (next ops idle ≡ some r)
    × Result ops (resource_laws pop length) loaded group r
    × All IsReady r.1.cus
unfolding find_wg
next-Ends_example =
    next-Ends ops (resource_laws pop length) idle loaded group fetched refl (omega arith)
      (full-IsReady, (open-IsReady, tt)) (refl, (refl, tt))

abbrev greedy : Greedy CuResource WorkGroup (List WorkGroup)
greedy = record {
  grid_builder = group ∷ [];
  cus = full_unit ∷ open_unit ∷ [];
  curr_wg = none;
  num_dispatched_wgs = 0;
}

greedy-next_example : greedy_next ops greedy ≡ resting_result (next ops idle)
greedy-next_example = greedy-next ops greedy
