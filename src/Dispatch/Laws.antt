-- ===== src/Dispatch/Laws.antt =====
-- What the dispatching algorithms rely on in a compute unit, and that the resource component keeps
-- it.
use sampled_mgpu_sim.Prelude.{◌≡◌, Option, none, some, List, ℕ}
use sampled_mgpu_sim.Dispatch.{Ops}
use sampled_mgpu_sim.Resource.Cu.Match.{WfLocation}
use sampled_mgpu_sim.Resource.Cu.{
  CuResource, WorkGroup, find_wg, reserve_resource_for_wg, free_resources_for_wg,
}
use sampled_mgpu_sim.Resource.Cu.Ready.{CuView, view, IsReady}
use sampled_mgpu_sim.Resource.Cu.Reserve.{reserve-refused}
use sampled_mgpu_sim.Resource.Cu.RoundTrip.{reserve_total}

-- `IsSound` is the invariant of a compute unit, `IsNew` that it does not hold the work-group.
pub record Laws {Cu Wg Loc Builder Port : Type 0} (ops : Ops Cu Wg Loc Builder Port) : Type 1 where
  pub View : Type 0
  pub IsSound : Cu → Type 0
  pub IsNew : Cu → Wg → Type 0
  pub view_of : Cu → View
  pub total :
      (cu : Cu) (wg : Wg)
      → IsSound cu
      → IsNew cu wg
      → (answer : Option (List Loc)) × (cu' : Cu) × (ops.reserve_resource_for_wg cu wg
          ≡ some (answer, cu'))
        × IsSound cu'
  pub refusal :
      (cu : Cu) (wg : Wg) (cu' : Cu)
      → IsSound cu
      → ops.reserve_resource_for_wg cu wg ≡ some (none, cu')
      → view_of cu' ≡ view_of cu

module _ {Builder : Type 0} (next_wg : Builder → Option (Option WorkGroup × Builder))
    (num_wg : Builder → ℕ) where
  abbrev pub resource_ops : Ops CuResource WorkGroup WfLocation Builder ℕ
  resource_ops = record {
    reserve_resource_for_wg = reserve_resource_for_wg;
    free_resources_for_wg = free_resources_for_wg;
    dispatching_port = λ r. r.port;
    next_wg = next_wg;
    num_wg = num_wg;
  }

  abbrev pub resource_laws : Laws resource_ops
  resource_laws = record {
    View = CuView;
    IsSound = IsReady;
    IsNew = λ r wg. find_wg wg.address r.reserved_wgs ≡ none;
    view_of = view;
    total = reserve_total;
    refusal = λ r wg r' v e. reserve-refused r wg v e;
  }
