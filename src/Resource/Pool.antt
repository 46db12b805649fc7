-- ===== src/Resource/Pool.antt =====
-- curesourcepool.go: the compute units of a GPU, registered one by one.
pub mod Register
use sampled_mgpu_sim.Prelude.{
  ℕ, ◌+◌, ◌*◌, ◌/◌, ◌%◌, Bool, true, false, Option, none, some, List, [], ◌∷◌, ◌++◌, ◌==◌, ◌>>=◌,
  ◌>>◌, guard, if◌then◌else◌, get_elem?, length,
}
use sampled_mgpu_sim.Prelude.Int.{ℤ, pos, negsuc}
use sampled_mgpu_sim.Resource.Mask.{ResourceMask, unlimited, new_resource_mask}
use sampled_mgpu_sim.Resource.Cu.{CuResource}

-- The interface `DispatchableCU`; `address` stands for the object that is the key of the map.
pub record DispatchableCu : Type 0 where
  pub address : ℕ
  pub dispatching_port : ℕ
  pub wf_pool_sizes : List ℤ
  pub vreg_counts : List ℤ
  pub sreg_count : ℤ
  pub lds_bytes : ℤ

pub record CuResourcePool : Type 0 where
  pub registered_cus : List ℕ
  pub cus : List CuResource

unfoldable pub num_cu : CuResourcePool → ℕ
num_cu p = length p.cus

unfoldable pub get_cu : CuResourcePool → ℕ → Option CuResource
get_cu p i = get_elem? p.cus i

-- `countMustBeAMultipleOfGranularity`, then the mask; a negative count is unlimited.
unfoldable pub create_mask : ℤ → ℕ → Option ResourceMask
create_mask (negsuc n) granularity = some (unlimited 0)
create_mask (pos count) granularity = do
  guard (count % granularity == 0)
  some (new_resource_mask (count / granularity))

unfoldable pub create_vreg_masks : List ℤ → Option (List ResourceMask)
create_vreg_masks [] = some []
create_vreg_masks (c ∷ cs) = do m ← create_mask c (4 * 64); ms ← create_vreg_masks cs; some (m ∷ ms)

unfoldable pub is_registered : ℕ → List ℕ → Bool
is_registered key [] = false
is_registered key (k ∷ ks) = if k == key then true else is_registered key ks

-- The new `CUResourceImpl`, with the masks that the three `create` methods make.
unfoldable pub new_cu : DispatchableCu → Option CuResource
new_cu cu = do
  sregs ← create_mask cu.sreg_count 16
  vregs ← create_vreg_masks cu.vreg_counts
  lds ← create_mask cu.lds_bytes 256
  some (record {
    port = cu.dispatching_port;
    wf_pool_free_count = cu.wf_pool_sizes;
    sreg_count = cu.sreg_count;
    sreg_granularity = 16;
    sreg_mask = sregs;
    vreg_counts = cu.vreg_counts;
    vreg_granularity = 4;
    vreg_masks = vregs;
    lds_byte_size = cu.lds_bytes;
    lds_granularity = 256;
    lds_mask = lds;
    next_simd = 0;
    reserved_wgs = [];
  })

unfoldable pub register_cu : CuResourcePool → DispatchableCu → Option CuResourcePool
register_cu p cu = if is_registered cu.address p.registered_cus then some p else do
  r ← new_cu cu
  some (record { registered_cus = cu.address ∷ p.registered_cus; cus = p.cus ++ r ∷ [] })
