-- ===== src/Memory/Buddy/RoundTrip.antt =====
-- Allocating from a memory that is all free, and giving the pages back.
use sampled_mgpu_sim.Prelude.{
  ℕ, zero, suc, ◌+◌, ◌-◌, ◌*◌, ◌^◌, ◌≤◌, ◌<◌, ◌≡◌, refl, sym, ap, ap₂, subst, Bool, true, false,
  ◌&&◌, Option, none, some, List, [], ◌∷◌, ◌++◌, arith, ltb, ◌==◌, if◌then◌else◌, ◌>>=◌, length,
  get_elem?, set,
}
use native.Mathlib.Nat.{pow-suc}
use sampled_mgpu_sim.Prelude.{◌∙◌}
use sampled_mgpu_sim.Prelude.{replicate, length-replicate}
use sampled_mgpu_sim.Prelude.Elements.{element, element-append_new}
use sampled_mgpu_sim.Memory.Buddy.{
  BlockTracker, BuddyState, level_of_pages, find_block, take_block, split_block, update_merge,
  track_pages, track_block, allocate_buddy_pages, push_back,
}
use sampled_mgpu_sim.Memory.Buddy.Level.{retrack, IsClear, pow-le}
use sampled_mgpu_sim.Memory.Buddy.Path.{split_block-IsSplit}
use sampled_mgpu_sim.Memory.Buddy.Pages.{
  order_of_pages_lem, find_block-first, pages_from, free_all, IsTracked, track_pages-IsTracked,
  free_all_lem,
}
use sampled_mgpu_sim.Memory.Buddy.Freed.{IsFresh, free_block-first}

-- The memory `u` has the free blocks and the bits of `s`.
pub record IsRestored (s u : BuddyState) : Type 0 where
  pub free_list : u.free_list ≡ s.free_list
  pub splits : u.bf_block_split ≡ s.bf_block_split
  pub merges : u.bf_merge_list ≡ s.bf_merge_list

get_elem?-empties :
    (k l : ℕ) → 0 < l → l ≤ k → get_elem? {A = List ℕ} ([] ∷ replicate k []) l ≡ some []
get_elem?-empties k zero low high = absurd (omega arith)
get_elem?-empties zero (suc l) low high = absurd (omega arith)
get_elem?-empties (suc k) (suc zero) low high = refl
get_elem?-empties (suc k) (suc (suc l)) low high =
    get_elem?-empties k (suc l) (omega arith) (omega arith)

pow-pages : (k : ℕ) → 2 ^ (12 + k) ≡ 2 ^ k * 4096
pow-pages zero = refl
pow-pages (suc k) =
    ap (λ j. 2 ^ j) (succ_of k) ∙ omega (arith, pow-suc 2 (12 + k), pow-suc 2 k, pow-pages k)
  where
    succ_of : (k : ℕ) → 12 + suc k ≡ suc (12 + k)
    succ_of k = omega arith

not_taken :
    {A : Type 0} (b : Bool) (taken : Option A) (kept : A)
    → (if b && ltb 0 0 then taken else some kept) ≡ some kept
not_taken true taken kept = refl
not_taken false taken kept = refl

module _ (s : BuddyState) (k n : ℕ) (f : IsFresh s k) (fits : suc n ≤ 2 ^ k) where
  emptied : BuddyState
  emptied = record s { free_list = [] ∷ replicate k [] }

  level_of_pages-fresh : (level : ℕ) × (level_of_pages s (suc n) ≡ some level) × (level ≤ k)
  unfolding level_of_pages
  level_of_pages-fresh =
      let (order, found, low, high) =
        order_of_pages_lem k 51 12 (suc n) (f.small)
          (subst (λ b. suc n * 4096 ≤ b) (sym (pow-pages k)) (omega (arith, fits))) in
      let levels : length (s.free_list) ≡ suc k =
        ap length (f.one_block) ∙ ap suc (length-replicate k []) in
      let enough : ltb (order - 12) (length (s.free_list)) ≡ true = ground (arith, levels) in
      (
        length (s.free_list) - 1 - (order - 12),
        ap
              (λ o. o >>= (λ order.
                if ltb (order - 12) (length (s.free_list))
                then some (length (s.free_list) - 1 - (order - 12))
                else none))
              found
            ∙ ap (λ b. if b then some (length (s.free_list) - 1 - (order - 12)) else none) enough,
        omega arith,
      )

  emptied-IsClear : (top : ℕ) → top ≤ k → IsClear emptied 0 top
  unfolding emptied
  emptied-IsClear top h = record {
    small = omega (arith, f.small);
    room = omega (arith, f.whole, pow-le top k h);
    fits = f.fits;
    split_room = omega (arith, f.split_room, pow-le top k h);
    merge_room = omega (arith, f.merge_room, pow-le top k h);
    unset = λ l low high. f.no_merge l (omega arith);
    empty = λ l low high. get_elem?-empties k l low (omega arith);
  }

  -- What the allocation gives when the block is split into `t`.
  abbrev tracked : BuddyState → List ℕ × (ℕ → Option ℕ)
  tracked t = track_pages (suc n) (s.initial_address) (t.fresh) (t.block_tracking)

  abbrev block_tracker : BlockTracker
  block_tracker = record { num_of_pages = suc n; initial_addr = s.initial_address }

  abbrev allocated : BuddyState → BuddyState
  allocated t =
      retrack t ((tracked t).1) (t.trackers ++ ((t.fresh, block_tracker) ∷ [])) (suc (t.fresh))

  allocate_buddy_pages-fresh :
      (t : BuddyState) (level : ℕ)
      → level_of_pages s (suc n) ≡ some level
      → level ≤ k
      → split_block level 0 (s.initial_address) emptied ≡ some t
      → allocate_buddy_pages s (suc n) ≡ some ((tracked t).0, allocated t)
  unfolding allocate_buddy_pages take_block track_block emptied
  allocate_buddy_pages-fresh t level e1 low e2 =
      ap (λ o. o >>= from_level) e1
      ∙ ap (λ o. o >>= from_block level) found
      ∙ ap (λ o. o >>= from_taken level 0 (s.initial_address))
          (not_taken (0 == level)
            (update_merge (with_lists (set (s.free_list) 0 [])) (s.initial_address) (0 - 1))
            (with_lists (set (s.free_list) 0 [])))
      ∙ ap (λ lists. from_taken level 0 (s.initial_address) (with_lists (set lists 0 [])))
          (f.one_block)
      ∙ ap
          (λ l.
            split_block l 0 (s.initial_address) (with_lists ([] ∷ replicate k []))
            >>= (λ t. some (track_block (suc n) (s.initial_address) t)))
          no_levels
      ∙ ap (λ o. o >>= (λ t. some (track_block (suc n) (s.initial_address) t))) e2
    where
      with_lists : List (List ℕ) → BuddyState
      with_lists lists = record s { free_list = lists }

      from_taken : (level i block : ℕ) → BuddyState → Option (List ℕ × BuddyState)
      from_taken level i block s1 =
          split_block (level - i) i block s1 >>= (λ t. some (track_block (suc n) block t))

      from_block : ℕ → ℕ × ℕ × List ℕ → Option (List ℕ × BuddyState)
      from_block level x =
          take_block level (x.0) (x.1) (with_lists (set (s.free_list) (x.0) (x.2)))
          >>= from_taken level (x.0) (x.1)

      from_level : ℕ → Option (List ℕ × BuddyState)
      from_level level = find_block (s.free_list) level >>= from_block level

      found : find_block (s.free_list) level ≡ some (0, s.initial_address, [])
      found =
          ap (λ lists. find_block lists level) (f.one_block)
          ∙ find_block-first k level (s.initial_address) low

      no_levels : level - 0 ≡ level
      no_levels = omega arith

-- For a memory of 2 ^ k pages of 4096 bytes with k < 51, all of it in the one free block, no bit of a
-- split or a merge on the path to its first page set, the number of the next tracker unused and its
-- addresses below 2 ^ 64: allocating from one to 2 ^ k pages returns, gives the consecutive pages
-- from its initial address, and giving back all of them in this order returns a memory with the free
-- lists and the two bit fields that it had before.
pub allocate_buddy_pages-free_all :
    (s : BuddyState) (k n : ℕ)
    → IsFresh s k
    → suc n ≤ 2 ^ k
    → (t : BuddyState) × (allocate_buddy_pages s (suc n)
        ≡ some (pages_from (suc n) (s.initial_address), t))
      × (u : BuddyState) × (free_all (pages_from (suc n) (s.initial_address)) t ≡ some u)
      × IsRestored s u
unfolding emptied
allocate_buddy_pages-free_all s k n f fits =
    let (level, e1, low) = level_of_pages-fresh s k n f fits in
    let (t, e2, split) =
      split_block-IsSplit level 0 level (emptied s k n f fits) (omega arith)
        (emptied-IsClear s k n f fits level low) in
    let pages : IsTracked (suc n) (s.initial_address) (t.fresh) (t.block_tracking)
        (tracked s k n f fits t) =
      track_pages-IsTracked (suc n) (s.initial_address) (t.fresh) (t.block_tracking)
        (omega (arith, f.fits, f.whole, fits)) in
    let unused : element (t.fresh) (t.trackers) ≡ none =
      ap₂ (λ n trackers. element n trackers) (split.same_fresh) (split.same_trackers) ∙ f.unused in
    let (tracking, trackers, freed) =
      free_all_lem n (s.initial_address) (t.fresh) (s.initial_address) (allocated s k n f fits t)
        (element-append_new (t.fresh) (block_tracker s k n f fits) (t.trackers) unused)
        (pages.tracked) in
    let levels : length (t.free_list) ≡ suc k =
      split.same_levels ∙ ap suc (length-replicate k []) in
    (
      allocated s k n f fits t,
      allocate_buddy_pages-fresh s k n f fits t level e1 low e2
          ∙ ap (λ addrs. some (addrs, allocated s k n f fits t)) (pages.addrs),
      record (retrack s tracking trackers (suc (t.fresh))) {
        free_list = push_back ([] ∷ replicate k []) 0 (s.initial_address);
      },
      freed
          ∙ free_block-first s t k level f low ([] ∷ replicate k []) split tracking trackers
              (suc (t.fresh)) levels,
      record { free_list = sym (f.one_block); splits = refl; merges = refl },
    )
