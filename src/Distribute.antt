-- ===== src/Distribute.antt =====
-- driver/distributor.go: the distribution of a range of pages over several GPUs. What the memory
-- allocator is asked to do is a list of its `Remap` calls, in order; the context, which each call
-- takes, plays no part.
pub mod Tiling
pub mod Pages
pub mod Cover
mod Examples
use sampled_mgpu_sim.Prelude.{
  ℕ, zero, suc, ◌+◌, ◌-◌, ◌*◌, ◌/◌, ◌%◌, ◌^◌, Option, none, some, List, [], ◌∷◌, ◌++◌, Bool, true,
  false, length, get_elem?, set, replicate, ◌>>=◌, ◌>>◌, guard, store, ltb, ◌==◌, if◌then◌else◌,
}

pub record Remap : Type 0 where
  pub address : ℕ
  pub byte_size : ℕ
  pub gpu_id : ℕ

-- `byteAllocatedOnEachGPU`, and the calls so far.
pub record Progress : Type 0 where
  pub bytes : List ℕ
  pub calls : List Remap

-- `uint64`.
unfoldable pub wrap : ℕ → ℕ
wrap n = n % 2 ^ 64

module _ (addr page_size : ℕ) (gpu_ids : List ℕ) where
  -- A call of `Remap` and the addition to `byteAllocatedOnEachGPU`, for the GPU at index `i`.
  unfoldable pub remap : ℕ → ℕ → ℕ → Progress → Option Progress
  remap offset size i p = do
    gpu ← get_elem? gpu_ids i
    b ← get_elem? p.bytes i
    bytes ← store p.bytes i (wrap (b + size))
    some (record {
      bytes = bytes;
      calls =
          p.calls ++ record { address = wrap (addr + offset); byte_size = size; gpu_id = gpu } ∷ [];
    })

  -- The first loop, with the rounds that are left.
  unfoldable pub share : ℕ → ℕ → ℕ → Progress → Option Progress
  share zero i pages_per_gpu p = some p
  share (suc left) i pages_per_gpu p = do
    p' ← remap (wrap (i * pages_per_gpu * page_size)) (wrap (pages_per_gpu * page_size)) i p
    share left (i + 1) pages_per_gpu p'

  -- The second loop: `first` is `numPagesPerGPU * numGPUsToUse`.
  unfoldable pub give_rest : ℕ → ℕ → ℕ → ℕ → Progress → Option Progress
  give_rest zero i first last_gpu p = some p
  give_rest (suc left) i first last_gpu p = do
    p' ← remap (wrap ((first + i) * page_size)) page_size last_gpu p
    give_rest left (i + 1) first last_gpu p'

-- `(byteSize-1)/pageSize + 1`, where `byteSize-1` wraps.
unfoldable pub num_pages : ℕ → ℕ → ℕ
num_pages byte_size page_size = wrap (wrap (byte_size + 2 ^ 64 - 1) / page_size + 1)

unfoldable pub num_gpus_to_use : ℕ → ℕ → ℕ
num_gpus_to_use pages gpus =
    let per_gpu = pages / gpus in
    let used = if ltb 0 per_gpu then pages / per_gpu else 0 in if ltb gpus used then gpus else used

-- `Distribute`; without a GPU, or with a page size that `uint64` does not hold, it
-- panics in a division by 0. `used - 1` is `lastAllocatedGPU`, 0 where
-- the first loop has no round.
unfoldable pub distribute : ℕ → ℕ → ℕ → List ℕ → Option Progress
distribute page_size_as_power_of_2 addr byte_size gpu_ids = do
  let page_size = wrap (2 ^ page_size_as_power_of_2)
  guard (ltb 0 page_size)
  guard (addr % page_size == 0)
  guard (ltb 0 (length gpu_ids))
  let pages = num_pages byte_size page_size
  let per_gpu = pages / length gpu_ids
  let used = num_gpus_to_use pages (length gpu_ids)
  p ←
      share addr page_size gpu_ids used 0 per_gpu
        (record { bytes = replicate (length gpu_ids) 0; calls = [] })
  give_rest addr page_size gpu_ids (pages % length gpu_ids) 0 (per_gpu * used) (used - 1) p
