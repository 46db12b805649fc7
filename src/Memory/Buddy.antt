-- ===== src/Memory/Buddy.antt =====
-- The buddy allocator of a device's memory (driver/internal/devicebuddymemstate.go) and its
-- structures (driver/internal/buddystructures.go). A free list is the list of its values, and a
-- `*blockTracker` is a number under which the trackers stand.
pub mod Field
mod Step
mod Level
mod Path
pub mod Pages
pub mod Freed
pub mod RoundTrip
use sampled_mgpu_sim.Prelude.{
  ℕ, zero, suc, ◌+◌, ◌-◌, ◌*◌, ◌/◌, ◌%◌, ◌^◌, ◌≤◌, ◌<◌, min, max, ◌≡◌, refl, sym, ap, ap₂, subst,
  ◌≢◌, ◌↔◌, ◌⊎◌, inl, inr, Bool, true, false, not, ◌&&◌, ◌||◌, Option, none, some, List, [], ◌∷◌,
  ◌++◌, map, arith, ltb, leb, ◌==◌, if◌then◌else◌, Bool-cases, Option-cases, ltb→lt, ltb-false,
  lt→ltb, le→leb, leb→le, ==_iff, ==_refl, ◌>>=◌, length, get_elem?, set, All,
}
use sampled_mgpu_sim.Prelude.Elements.{put, element, set_element}
use sampled_mgpu_sim.Prelude.{modify, replicate}
use sampled_mgpu_sim.Prelude.Words.{sub_word, shift_left}
use sampled_mgpu_sim.Memory.Buddy.Field.{BitField, new_bit_field, update_bit, check_bit}

pub record BlockTracker : Type 0 where
  pub num_of_pages : ℕ
  pub initial_addr : ℕ

pub record BuddyState : Type 0 where
  pub init_flag : Bool
  pub log2_page_size : ℕ
  pub initial_address : ℕ
  pub storage_size : ℕ
  pub free_list : List (List ℕ)
  pub bf_block_split : BitField
  pub bf_merge_list : BitField
  pub block_tracking : ℕ → Option ℕ
  pub trackers : List (ℕ × BlockTracker)
  pub fresh : ℕ

-- A nil `*bitField` has no words, so each use of it panics.
unfoldable pub new_buddy_state : ℕ → BuddyState
new_buddy_state log2_page_size = record {
  init_flag = false;
  log2_page_size = log2_page_size;
  initial_address = 0;
  storage_size = 0;
  free_list = [];
  bf_block_split = record { field = []; size = 0 };
  bf_merge_list = record { field = []; size = 0 };
  block_tracking = λ addr. none;
  trackers = [];
  fresh = 0;
}

-- `bms.freeList[level].PushBack(addr)` on a level that is there.
abbrev pub push_back : List (List ℕ) → ℕ → ℕ → List (List ℕ)
push_back lists level addr = modify lists level (λ xs. xs ++ (addr ∷ []))

unfoldable pub set_buddy_address : BuddyState → ℕ → BuddyState
set_buddy_address s addr = record s {
  initial_address = addr;
  block_tracking = λ a. none;
  free_list = push_back (s.free_list) 0 addr;
  init_flag = length (s.free_list) == 0;
}

-- `1 << order` is 0 from 64 on, so this ends by then or never.
unfoldable pub order_of_size : (fuel : ℕ) → (order size : ℕ) → Option ℕ
order_of_size zero order size = none
order_of_size (suc fuel) order size =
    let rest = order_of_size fuel (suc order) size in
    if ltb (shift_left 64 1 order) size then rest else some order

unfoldable pub set_buddy_size : BuddyState → ℕ → Option BuddyState
set_buddy_size s size = do
  found ← order_of_size 65 (s.log2_page_size) size
  let order = found - s.log2_page_size
  let lists : List (List ℕ) = replicate (order + 1) []
  some (record s {
    storage_size = size;
    free_list = if s.init_flag then push_back lists 0 (s.initial_address) else lists;
    bf_block_split = new_bit_field (shift_left 64 1 order);
    bf_merge_list = new_bit_field (shift_left 64 1 order);
  })

unfoldable pub no_buddy_p_addrs : List (List ℕ) → Bool
no_buddy_p_addrs [] = true
no_buddy_p_addrs ([] ∷ lists) = no_buddy_p_addrs lists
no_buddy_p_addrs ((addr ∷ addrs) ∷ lists) = false

unfoldable pub size_of_level : BuddyState → ℕ → ℕ
size_of_level s level = s.storage_size / 2 ^ level

-- A level of no bytes panics, by the division.
unfoldable pub index_in_level_of : BuddyState → (ptr level : ℕ) → Option ℕ
index_in_level_of s ptr level =
    if size_of_level s level == 0
    then none
    else some (sub_word 64 ptr (s.initial_address) / size_of_level s level)

unfoldable pub index_of_block : BuddyState → (ptr level : ℕ) → Option ℕ
index_of_block s ptr level = do
  index ← index_in_level_of s ptr level
  some (sub_word 64 ((2 ^ level + index) % 2 ^ 64) 1)

unfoldable pub buddy_of : BuddyState → (addr level : ℕ) → Option ℕ
buddy_of s addr level = do
  index ← index_in_level_of s addr level
  some (
      if index % 2 == 0
      then (addr + size_of_level s level) % 2 ^ 64
      else sub_word 64 addr (size_of_level s level))

unfoldable pub update_split : BuddyState → (block level : ℕ) → Option BuddyState
update_split s block level = do
  index ← index_of_block s block level
  bits ← update_bit (s.bf_block_split) index
  some (record s { bf_block_split = bits })

unfoldable pub update_merge : BuddyState → (block level : ℕ) → Option BuddyState
update_merge s block level = do
  index ← index_of_block s block level
  bits ← update_bit (s.bf_merge_list) index
  some (record s { bf_merge_list = bits })

-- The orders of a signed word: from 63 on `1 << order` is negative or 0, so the loop does not end.
unfoldable pub order_of_pages : (fuel : ℕ) → (order num_pages : ℕ) → Option ℕ
order_of_pages zero order num_pages = none
order_of_pages (suc fuel) order num_pages =
    let rest = order_of_pages fuel (suc order) num_pages in
    if ltb (2 ^ order) (num_pages * 4096) then rest else some order

-- The nearest level at or above this one with a free block, and what is left of its list.
unfoldable pub find_block : List (List ℕ) → (level : ℕ) → Option (ℕ × ℕ × List ℕ)
find_block lists zero = do
  free ← get_elem? lists 0
  elim free [ [] ↦ none | block ∷ rest ↦ some (0, block, rest) ]
find_block lists (suc above) =
    let higher = find_block lists above in
    do
      free ← get_elem? lists (suc above)
      elim free [ [] ↦ higher | block ∷ rest ↦ some (suc above, block, rest) ]

-- Splitting the block from level `i` down `n` levels; the other half goes to the free list.
unfoldable pub split_block : (n i : ℕ) → (block : ℕ) → BuddyState → Option BuddyState
split_block zero i block s = some s
split_block (suc n) i block s = do
  s1 ← update_split s block i
  s2 ← update_merge s1 block i
  other ← buddy_of s2 block (suc i)
  split_block n (suc i) block (record s2 { free_list = push_back (s2.free_list) (suc i) other })

-- The pages from `block` on, each under the tracker.
unfoldable pub track_pages :
    (n block : ℕ) → (tracker : ℕ) → (ℕ → Option ℕ) → List ℕ × (ℕ → Option ℕ)
track_pages zero block tracker tracking = ([], tracking)
track_pages (suc n) block tracker tracking =
    let (addrs, tracking1) =
      track_pages n ((block + 4096) % 2 ^ 64) tracker (put tracking block (some tracker)) in
    (block ∷ addrs, tracking1)

unfoldable pub track_block : (num_pages block : ℕ) → BuddyState → List ℕ × BuddyState
track_block num_pages block s =
    let (addrs, tracking) = track_pages num_pages block (s.fresh) (s.block_tracking) in
    (
      addrs,
      record s {
        block_tracking = tracking;
        trackers =
            s.trackers
            ++ ((s.fresh, record { num_of_pages = num_pages; initial_addr = block }) ∷ []);
        fresh = suc (s.fresh);
      },
    )

-- A block of the level itself changes the bit of its parent; a higher one does not.
unfoldable pub take_block : (level i block : ℕ) → BuddyState → Option BuddyState
take_block level i block s = if i == level && ltb 0 i then update_merge s block (i - 1) else some s

unfoldable pub level_of_pages : BuddyState → ℕ → Option ℕ
level_of_pages s num_pages = do
  order ← order_of_pages 51 12 num_pages
  if ltb (order - 12) (length (s.free_list))
      then some (length (s.free_list) - 1 - (order - 12))
      else none

unfoldable pub allocate_buddy_pages : BuddyState → (num_pages : ℕ) → Option (List ℕ × BuddyState)
allocate_buddy_pages s num_pages = do
  level ← level_of_pages s num_pages
  (i, block, rest) ← find_block (s.free_list) level
  s1 ← take_block level i block (record s { free_list = set (s.free_list) i rest })
  s2 ← split_block (level - i) i block s1
  some (track_block num_pages block s2)

unfoldable pub remove_by_value : List ℕ → ℕ → List ℕ
remove_by_value [] addr = []
remove_by_value (x ∷ xs) addr =
    let rest = remove_by_value xs addr in if x == addr then xs else x ∷ rest

unfoldable pub block_has_been_split : BuddyState → (ptr level : ℕ) → Option Bool
block_has_been_split s ptr level = do
  index ← index_of_block s ptr level
  check_bit (s.bf_block_split) index

unfoldable pub block_or_buddy_is_allocated : BuddyState → (ptr level : ℕ) → Option Bool
block_or_buddy_is_allocated s ptr level = do
  index ← index_of_block s ptr (level - 1)
  check_bit (s.bf_merge_list) index

-- The loop from level `n` up.
unfoldable pub level_of_block : (n : ℕ) → BuddyState → (addr : ℕ) → Option ℕ
level_of_block zero s addr = some 0
level_of_block (suc n) s addr =
    let rest = level_of_block n s addr in
    do was_split ← block_has_been_split s addr n; if was_split then some (suc n) else rest

-- Merging the block with its other half, level by level.
unfoldable pub merge_block : (level addr : ℕ) → BuddyState → Option BuddyState
merge_block zero addr s = some (record s { free_list = push_back (s.free_list) 0 addr })
merge_block (suc level) addr s = do
  s1 ← update_merge s addr level
  allocated ← block_or_buddy_is_allocated s1 addr (suc level)
  if allocated
      then some (record s1 { free_list = push_back (s1.free_list) (suc level) addr })
      else do
        s2 ← update_split s1 addr level
        other ← buddy_of s2 addr (suc level)
        merge_block level (if ltb other addr then other else addr) (record s2 {
          free_list = modify (s2.free_list) (suc level) (λ xs. remove_by_value xs other);
        })

-- Without any free list the last write panics.
unfoldable pub free_block : BuddyState → (addr : ℕ) → Option BuddyState
free_block s addr =
    if length (s.free_list) == 0
    then none
    else do level ← level_of_block (length (s.free_list) - 1) s addr; merge_block level addr s

-- Whether the last page of the block is removed, and the tracker after it.
unfoldable pub remove_tracked_page : BlockTracker → Bool × BlockTracker
remove_tracked_page bt = (bt.num_of_pages == 1, record bt { num_of_pages = bt.num_of_pages - 1 })

-- An address that no tracker has is left alone.
unfoldable pub add_tracked_p_addr : BuddyState → ℕ → ℕ → Option BuddyState
add_tracked_p_addr s addr n = do
  bt ← element n (s.trackers)
  let (last, bt1) = remove_tracked_page bt
  let s1 = record s {
    block_tracking = put (s.block_tracking) addr none;
    trackers = set_element n bt1 (s.trackers);
  }
  if last then free_block s1 (bt.initial_addr) else some s1

unfoldable pub add_buddy_p_addr : BuddyState → ℕ → Option BuddyState
add_buddy_p_addr s addr = elim (s.block_tracking addr) [
  | none ↦ some s
  | some n ↦ add_tracked_p_addr s addr n
]
