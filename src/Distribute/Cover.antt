-- ===== src/Distribute/Cover.antt =====
-- The whole of `Distribute`.
use native.Mathlib.Nat.{mul-le-mul_right}
use sampled_mgpu_sim.Prelude.{
  ℕ, ◌+◌, ◌-◌, ◌*◌, ◌/◌, ◌%◌, ◌^◌, ◌<◌, ◌≤◌, ◌≡◌, sym, ap, ◌∙◌, subst, some, List, [], length,
  replicate, ◌>>=◌, arith, length-replicate, lt→ltb,
}
use sampled_mgpu_sim.Distribute.{Progress, share, give_rest, num_pages, num_gpus_to_use, distribute}
use sampled_mgpu_sim.Distribute.Tiling.{
  Tiles, sum, sum-replicate, wrap-eq, IsMapped, Mapped, share-IsMapped, give_rest-IsMapped,
}
use sampled_mgpu_sim.Distribute.Pages.{shared_pages, rounded_up, page_bounds}

module _ (addr page : ℕ) (gpus : List ℕ) (pages : ℕ) where
  abbrev start : Progress
  start = record { bytes = replicate (length gpus) 0; calls = [] }

  start-IsMapped : (per : ℕ) → IsMapped addr page gpus start (0 * per * page)
  start-IsMapped per = record {
    tiles = omega arith;
    accounted = sum-replicate (length gpus) ∙ omega arith;
    one_each = length-replicate (length gpus) 0;
  }

  -- Both loops, for a number of pages that is given.
  loops-IsMapped :
      0 < length gpus
      → addr + pages * page < 2 ^ 64
      → Mapped addr page gpus
          (share addr page gpus (num_gpus_to_use pages (length gpus)) 0 (pages / length gpus) start
            >>= λ p.
                give_rest addr page gpus
                  (pages % length gpus)
                  0
                  (pages / length gpus * num_gpus_to_use pages (length gpus))
                  (num_gpus_to_use pages (length gpus) - 1)
                  p)
          (pages * page)
  loops-IsMapped h bound = run_both fits shared (omega (arith, mul-le-mul_right page below)) whole
    where
      used : ℕ
      used = num_gpus_to_use pages (length gpus)

      per : ℕ
      per = pages / length gpus

      fits : used ≤ length gpus
      fits = (shared_pages pages (length gpus)).0

      all : per * used + pages % length gpus ≡ pages
      all = (shared_pages pages (length gpus)).1

      shared : (used + 0) * per ≡ per * used + 0
      shared = omega arith

      below : (used + 0) * per ≤ pages
      below = omega (arith, all, shared)

      whole : pages % length gpus + 0 + per * used ≡ pages
      whole = omega (arith, all)

      run_both :
          used ≤ length gpus
          → (used + 0) * per ≡ per * used + 0
          → addr + (used + 0) * per * page < 2 ^ 64
          → pages % length gpus + 0 + per * used ≡ pages
          → Mapped addr page gpus
              (share addr page gpus used 0 per start >>= λ p.
                give_rest addr page gpus (pages % length gpus) 0 (per * used) (used - 1) p)
              (pages * page)
      run_both fits shared first_bound whole =
          let (p, run, mapped) =
            share-IsMapped addr page gpus used 0 per start (start-IsMapped per) (omega arith)
              first_bound in
          let (p', run', mapped') =
            give_rest-IsMapped addr page gpus (pages % length gpus) 0 (per * used) (used - 1) p
              (subst (IsMapped addr page gpus p) (ap (λ m. m * page) shared) mapped) (omega arith)
              (subst (λ m. addr + m * page < 2 ^ 64) (sym whole) bound) in
          (p', rw run run', subst (λ m. IsMapped addr page gpus p' (m * page)) whole mapped')

-- On a range that begins on a page, is not empty and stays below 2 ^ 64 with its pages, and with a
-- GPU, `Distribute` does not panic. Its calls of `Remap` cover the whole pages of the range, one after the other from
-- the range's address on, without a gap or an overlap; the bytes that it reports, one number for each
-- GPU, add up to the size of these pages, which is the size asked for, rounded up to pages.
pub distribute-IsMapped :
    (k addr byte_size : ℕ) (gpus : List ℕ)
    → k < 64
    → addr % 2 ^ k ≡ 0
    → 0 < byte_size
    → byte_size < 2 ^ 64
    → addr + num_pages byte_size (2 ^ k) * 2 ^ k < 2 ^ 64
    → 0 < length gpus
    → (p : Progress) × (distribute k addr byte_size gpus ≡ some p)
      × Tiles addr p.calls (addr + num_pages byte_size (2 ^ k) * 2 ^ k)
      × (sum p.bytes ≡ num_pages byte_size (2 ^ k) * 2 ^ k)
      × (length p.bytes ≡ length gpus)
      × (byte_size ≤ num_pages byte_size (2 ^ k) * 2 ^ k)
      × (num_pages byte_size (2 ^ k) * 2 ^ k < byte_size + 2 ^ k)
unfolding distribute
distribute-IsMapped k addr byte_size gpus hk aligned positive small bound some_gpu =
    let (some_bytes, fits) = page_bounds k hk in
    let (p, run, mapped) =
      loops-IsMapped addr (2 ^ k) gpus (num_pages byte_size (2 ^ k)) some_gpu bound in
    let (enough, tight) = rounded_up byte_size (2 ^ k) positive small some_bytes in
    (
      p,
      rw (wrap-eq (2 ^ k) fits) (
          rw (lt→ltb 0 (2 ^ k) some_bytes) (rw aligned (rw (lt→ltb 0 (length gpus) some_gpu) run))),
      mapped.tiles,
      mapped.accounted,
      mapped.one_each,
      enough,
      tight,
    )
