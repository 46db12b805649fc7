-- ===== src/Distribute/Examples.antt =====
-- Seven pages on three GPUs.
use sampled_mgpu_sim.Prelude.{◌+◌, ◌*◌, ◌<◌, ◌≤◌, ◌≡◌, refl, some, [], ◌∷◌, length, arith}
use sampled_mgpu_sim.Distribute.{
  Progress, wrap, remap, share, give_rest, num_pages, num_gpus_to_use, distribute,
}
use sampled_mgpu_sim.Distribute.Tiling.{Tiles, sum}
use sampled_mgpu_sim.Distribute.Cover.{distribute-IsMapped}

abbrev result : Progress
result = record {
  bytes = 8192 ∷ 8192 ∷ 12288 ∷ [];
  calls =
      record { address = 4096; byte_size = 8192; gpu_id = 1 }
      ∷ record { address = 12288; byte_size = 8192; gpu_id = 2 }
      ∷ record { address = 20480; byte_size = 8192; gpu_id = 3 }
      ∷ record { address = 28672; byte_size = 4096; gpu_id = 3 }
      ∷ [];
}

distribute_run : distribute 12 4096 28000 (1 ∷ 2 ∷ 3 ∷ []) ≡ some result
unfolding distribute num_pages num_gpus_to_use wrap share remap give_rest
distribute_run = refl

distribute-IsMapped_example :
    (p : Progress) × (distribute 12 4096 28000 (1 ∷ 2 ∷ 3 ∷ []) ≡ some p)
    × Tiles 4096 p.calls (4096 + 7 * 4096)
    × (sum p.bytes ≡ 7 * 4096)
    × (length p.bytes ≡ 3)
    × (28000 ≤ 7 * 4096)
    × (7 * 4096 < 28000 + 4096)
unfolding num_pages wrap
distribute-IsMapped_example =
    distribute-IsMapped 12 4096 28000 (1 ∷ 2 ∷ 3 ∷ []) (omega arith) refl (omega arith)
      (omega arith) (omega arith) (omega arith)
