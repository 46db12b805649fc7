-- ===== src/Dispatch.antt =====
-- timing/cp/internal/dispatching/roundrobin.go: the round-robin algorithm, over the operations of
-- the compute units and the grid builder that it calls. `dispatchLocation{}`, which is not valid,
-- is `none`.
pub mod Laws
pub mod Spot
pub mod Search
pub mod Greedy
mod Examples
use sampled_mgpu_sim.Prelude.{
  ℕ, zero, suc, ◌+◌, ◌%◌, [], ◌∷◌, Option, none, some, Bool, List, length, get_elem?, set, ◌>>=◌,
  ltb,
}

-- `CUResource`, and `GridBuilder` after `SetKernel`.
pub record Ops (Cu Wg Loc Builder Port : Type 0) : Type 0 where
  pub reserve_resource_for_wg : Cu → Wg → Option (Option (List Loc) × Cu)
  pub free_resources_for_wg : Cu → Wg → Option Cu
  pub dispatching_port : Cu → Port
  pub next_wg : Builder → Option (Option Wg × Builder)
  pub num_wg : Builder → ℕ

pub record DispatchLocation (Wg Loc Port : Type 0) : Type 0 where
  pub cu : Port
  pub cu_id : ℕ
  pub wg : Wg
  pub locations : List Loc

pub record RoundRobin (Cu Wg Builder : Type 0) : Type 0 where
  pub grid_builder : Builder
  pub cus : List Cu
  pub curr_wg : Option Wg
  pub next_cu : ℕ
  pub num_dispatched_wgs : ℕ

module _ {Cu Wg Loc Builder Port : Type 0} (ops : Ops Cu Wg Loc Builder Port) where
  -- `StartNewKernel`, with the builder that `SetKernel` sets up.
  unfoldable pub start_new_kernel : RoundRobin Cu Wg Builder → Builder → RoundRobin Cu Wg Builder
  start_new_kernel a builder = record a { num_dispatched_wgs = 0; grid_builder = builder }

  unfoldable pub has_next : RoundRobin Cu Wg Builder → Bool
  has_next a = ltb a.num_dispatched_wgs (ops.num_wg a.grid_builder)

  -- `if a.currWG == nil { a.currWG = a.gridBuilder.NextWG() }`
  unfoldable pub fetch : RoundRobin Cu Wg Builder → Option (RoundRobin Cu Wg Builder)
  fetch a = elim a.curr_wg [
    | some wg ↦ some a
    | none ↦ ops.next_wg a.grid_builder >>= λ found.
        some (record a { curr_wg = found.0; grid_builder = found.1 })
  ]

  unfoldable pub light_next : RoundRobin Cu Wg Builder → Option (RoundRobin Cu Wg Builder)
  light_next a = fetch a >>= λ b. elim b.cus [
    | [] ↦ some b
    | _ ∷ _ ↦ some (record b { curr_wg = none; num_dispatched_wgs = b.num_dispatched_wgs + 1 })
  ]

  -- The body of the loop of `Next` where the compute unit takes the work-group.
  unfoldable pub dispatched : RoundRobin Cu Wg Builder → ℕ → Cu → RoundRobin Cu Wg Builder
  dispatched a cu_id cu' = record a {
    cus = set a.cus cu_id cu';
    next_cu = (cu_id + 1) % length a.cus;
    curr_wg = none;
    num_dispatched_wgs = a.num_dispatched_wgs + 1;
  }

  -- The loop of `Next`, with the number of rounds that are left and the counter `i`. The
  -- reservation of a nil work-group panics.
  unfoldable pub search_cu :
      ℕ
      → ℕ
      → RoundRobin Cu Wg Builder
      → Option (Option (DispatchLocation Wg Loc Port) × RoundRobin Cu Wg Builder)
  search_cu zero i a = some (none, a)
  search_cu (suc left) i a =
      let cu_id = (a.next_cu + i) % length a.cus in
      get_elem? a.cus cu_id >>= λ cu. a.curr_wg >>= λ wg.
      ops.reserve_resource_for_wg cu wg >>= λ answer. elim answer.0 [
        | none ↦ search_cu left (i + 1) (record a { cus = set a.cus cu_id answer.1 })
        | some locations ↦ some (
          some (record {
            cu = ops.dispatching_port cu;
            cu_id = cu_id;
            wg = wg;
            locations = locations;
          }),
          dispatched a cu_id answer.1,
        )
      ]

  unfoldable pub next :
      RoundRobin Cu Wg Builder
      → Option (Option (DispatchLocation Wg Loc Port) × RoundRobin Cu Wg Builder)
  next a = fetch a >>= λ b. search_cu (length b.cus) 0 b

  unfoldable pub free_resources :
      RoundRobin Cu Wg Builder → DispatchLocation Wg Loc Port → Option (RoundRobin Cu Wg Builder)
  free_resources a location = get_elem? a.cus location.cu_id >>= λ cu.
      ops.free_resources_for_wg cu location.wg >>= λ cu'.
      some (record a { cus = set a.cus location.cu_id cu' })
