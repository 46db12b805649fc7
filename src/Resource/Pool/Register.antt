-- ===== src/Resource/Pool/Register.antt =====
-- What `RegisterCU` puts into the pool.
use sampled_mgpu_sim.Prelude.{ℕ, ◌<◌, ◌≡◌, length, All, ◌%◌, ◌*◌}
use sampled_mgpu_sim.Prelude.Int.{ℤ, pos, negsuc}
use sampled_mgpu_sim.Resource.Pool.{DispatchableCu}

-- Unlimited, or a multiple of the granularity.
abbrev pub Multiple : ℤ → ℕ → Type 0
Multiple (negsuc n) g = Unit {0}
Multiple (pos n) g = n % g ≡ 0

-- What a compute unit must report: counts that the granularities divide, and as many register
-- files as wavefront pools, one at least.
pub record IsSound (cu : DispatchableCu) : Type 0 where
  pub sregs : Multiple cu.sreg_count 16
  pub vregs : All (λ c. Multiple c (4 * 64)) cu.vreg_counts
  pub lds : Multiple cu.lds_bytes 256
  pub files : length cu.vreg_counts ≡ length cu.wf_pool_sizes
  pub pools : 0 < length cu.wf_pool_sizes
