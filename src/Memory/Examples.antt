-- ===== src/Memory/Examples.antt =====
-- Each theorem at one input, and tests of the memory management.
use sampled_mgpu_sim.Prelude.{
  ℕ, zero, suc, ◌-◌, ◌^◌, ◌<◌, ◌≡◌, refl, false, Option, none, some, List, [], ◌∷◌, arith,
}
use sampled_mgpu_sim.Prelude.Elements.{element, set_element}
use sampled_mgpu_sim.Memory.{
  RegularState, add_pages, add_regular_p_addr, set_regular_address, pop_regular_p_addr,
  allocate_regular_pages,
}
use sampled_mgpu_sim.Memory.Device.{
  regular, Device, gpu, set_initial_address, storage_size_of, initial_address_of,
  no_available_p_addrs, pop_next_p_addr, allocate_own_page, allocate_own_pages, allocate_page,
  allocate_multiple_pages, allocate_state_pages, add_single_p_addr,
}
use sampled_mgpu_sim.Memory.Allocator.{
  MemoryAllocator, TableCall, new_memory_allocator, register_device, put_device,
  is_p_addr_on_device, device_id_by_p_addr, allocate_next, map_pages, process_state, allocate_pages,
  num_pages_of, allocate, page_v_addrs, remap_pages, allocate_multiple_pages_with_given_v_addrs,
  remap_bytes, new_page, return_page, free,
}
use sampled_mgpu_sim.Memory.Ledger.{Ledger, empty_ledger, tell_all, frames_of}
use sampled_mgpu_sim.Memory.Frames.{frees}
use sampled_mgpu_sim.Memory.Reaches.{
  Reaches, start, by_register, by_allocate, by_remap, by_free, IsNew, IsOwned,
}
use sampled_mgpu_sim.Memory.Brought.{registered, filled}
use sampled_mgpu_sim.Memory.OnePage.{IsReady}
use sampled_mgpu_sim.Memory.Mapped.{IsAllocated, allocate-IsAllocated}
use sampled_mgpu_sim.Memory.Device.{with_mem_state}
use sampled_mgpu_sim.Memory.Owned.{reached-IsOwned}
use sampled_mgpu_sim.Memory.Buddy.{
  BuddyState, new_buddy_state, set_buddy_address, set_buddy_size, order_of_size, size_of_level,
  index_in_level_of, index_of_block, buddy_of, update_split, update_merge, order_of_pages,
  find_block, split_block, track_pages, track_block, take_block, level_of_pages,
  allocate_buddy_pages, remove_by_value, block_has_been_split, block_or_buddy_is_allocated,
  level_of_block, merge_block, free_block, remove_tracked_page, add_tracked_p_addr,
  add_buddy_p_addr,
}
use sampled_mgpu_sim.Memory.Buddy.Field.{
  BitField, new_bit_field, update_bit, check_bit, is_set, IsToggled, update_bit-IsToggled,
}
use sampled_mgpu_sim.Memory.Buddy.Pages.{pages_from, free_all}
use sampled_mgpu_sim.Memory.Buddy.Freed.{IsFresh}
use sampled_mgpu_sim.Memory.Buddy.RoundTrip.{IsRestored, allocate_buddy_pages-free_all}

-- A device with four pages, registered first.
abbrev four_pages : RegularState
four_pages = record {
  log2_page_size = 12;
  initial_address = 0;
  storage_size = 0x4000;
  available_p_addrs = [];
}

abbrev first_device : Device
first_device = record {
  id = 1;
  device_type = gpu;
  actual_gpus = [];
  next_actual_gpu_index = 0;
  mem_state = regular four_pages;
}

abbrev one_device : MemoryAllocator
one_device = registered (new_memory_allocator 12) first_device four_pages 4

first_device-IsNew : IsNew (new_memory_allocator 12) first_device four_pages 4
unfolding new_memory_allocator element
first_device-IsNew = record {
  unknown = refl;
  default = refl;
  same_page = refl;
  empty = refl;
  whole = refl;
  fits = omega arith;
}

one_device_reached : Reaches 12 empty_ledger one_device
unfolding new_memory_allocator register_device set_initial_address set_regular_address add_pages
    add_regular_p_addr storage_size_of put_device element
one_device_reached = by_register start first_device four_pages 4 first_device-IsNew refl

-- Two pages for process 7, of which the second is freed.
abbrev after : Option (ℕ × MemoryAllocator × List TableCall) → MemoryAllocator
after r = elim r [ none ↦ one_device | some t ↦ t.1 ]

abbrev two_pages : MemoryAllocator
two_pages = after (allocate one_device 7 5000 1)

abbrev calls_of : Option (ℕ × MemoryAllocator × List TableCall) → List TableCall
calls_of r = elim r [ none ↦ [] | some t ↦ t.2 ]

two_pages_reached :
    Reaches 12 (tell_all (calls_of (allocate one_device 7 5000 1)) empty_ledger) two_pages
unfolding new_memory_allocator allocate num_pages_of allocate_pages process_state map_pages
    allocate_next allocate_page allocate_own_page no_available_p_addrs pop_next_p_addr
    pop_regular_p_addr element set_element device_id_by_p_addr is_p_addr_on_device
    initial_address_of storage_size_of
two_pages_reached = by_allocate one_device_reached 7 5000 1 {v_addr = 0x1000} refl

-- The first page is remapped, which takes a third frame for its address.
abbrev remapped : Option (MemoryAllocator × List TableCall)
remapped = remap_bytes two_pages 7 0x1000 0x1000 1

abbrev remapped_pages : MemoryAllocator
remapped_pages = elim remapped [ none ↦ one_device | some t ↦ t.0 ]

abbrev remap_calls : List TableCall
remap_calls = elim remapped [ none ↦ [] | some t ↦ t.1 ]

abbrev remapped_ledger : Ledger
remapped_ledger =
    tell_all remap_calls (tell_all (calls_of (allocate one_device 7 5000 1)) empty_ledger)

remapped_reached : Reaches 12 remapped_ledger remapped_pages
unfolding new_memory_allocator allocate num_pages_of allocate_pages process_state map_pages
    allocate_next allocate_page allocate_own_page no_available_p_addrs pop_next_p_addr
    pop_regular_p_addr element set_element device_id_by_p_addr is_p_addr_on_device
    initial_address_of storage_size_of remap_bytes page_v_addrs
    allocate_multiple_pages_with_given_v_addrs allocate_multiple_pages allocate_state_pages
    allocate_regular_pages allocate_own_pages remap_pages
remapped_reached = by_remap two_pages_reached 7 0x1000 0x1000 1 refl

-- The frame 0x1000 stays taken, and no page has it.
remap_loses :
    (frames_of (remapped_ledger.standing) ≡ 0x3000 ∷ 0x2000 ∷ [])
    × (remapped_ledger.lost ≡ 0x1000 ∷ [])
    × (frees 0x1000 (remapped_pages.devices) ≡ 0)
unfolding new_memory_allocator allocate num_pages_of allocate_pages process_state map_pages
    allocate_next allocate_page allocate_own_page no_available_p_addrs pop_next_p_addr
    pop_regular_p_addr element set_element device_id_by_p_addr is_p_addr_on_device
    initial_address_of storage_size_of remap_bytes page_v_addrs
    allocate_multiple_pages_with_given_v_addrs allocate_multiple_pages allocate_state_pages
    allocate_regular_pages allocate_own_pages remap_pages
remap_loses = (refl, refl, refl)

-- The second page is freed.
abbrev freed : Option (MemoryAllocator × List TableCall)
freed = free remapped_pages 0x2000

abbrev freed_pages : MemoryAllocator
freed_pages = elim freed [ none ↦ one_device | some t ↦ t.0 ]

abbrev free_calls : List TableCall
free_calls = elim freed [ none ↦ [] | some t ↦ t.1 ]

freed_reached : Reaches 12 (tell_all free_calls remapped_ledger) freed_pages
unfolding new_memory_allocator allocate num_pages_of allocate_pages process_state map_pages
    allocate_next allocate_page allocate_own_page no_available_p_addrs pop_next_p_addr
    pop_regular_p_addr element set_element device_id_by_p_addr is_p_addr_on_device
    initial_address_of storage_size_of remap_bytes page_v_addrs
    allocate_multiple_pages_with_given_v_addrs allocate_multiple_pages allocate_state_pages
    allocate_regular_pages allocate_own_pages remap_pages free return_page add_single_p_addr
    add_regular_p_addr
freed_reached = by_free remapped_reached (new_page 12 7 0x2000 0x2000 1 false) 0x2000 refl refl refl

reached-IsOwned_example : IsOwned 12 (tell_all free_calls remapped_ledger) freed_pages
reached-IsOwned_example = reached-IsOwned 12 (omega arith) freed_reached

-- The buddy allocator with four pages, and with the bits that it then has.
abbrev memory_of : Option BuddyState → BuddyState
memory_of o = elim o [ none ↦ new_buddy_state 12 | some s ↦ s ]

abbrev four_buddies : BuddyState
four_buddies = memory_of (set_buddy_size (set_buddy_address (new_buddy_state 12) 0x1000) 0x4000)

abbrev bits : BitField
bits = record { field = 5 ∷ 0 ∷ []; size = 64 }

update_bit-IsToggled_example :
    (new : BitField) × (update_bit bits 2 ≡ some new) × IsToggled bits new 2
update_bit-IsToggled_example = update_bit-IsToggled bits 2 (omega arith)

no_split : (l : ℕ) → l < 2 → is_set (four_buddies.bf_block_split) (2 ^ l - 1) ≡ false
unfolding new_buddy_state set_buddy_address set_buddy_size order_of_size new_bit_field check_bit
no_split zero h = refl
no_split (suc zero) h = refl
no_split (suc (suc l)) h = absurd (omega arith)

no_merge : (l : ℕ) → l < 2 → check_bit (four_buddies.bf_merge_list) (2 ^ l - 1) ≡ some false
unfolding new_buddy_state set_buddy_address set_buddy_size order_of_size new_bit_field check_bit
no_merge zero h = refl
no_merge (suc zero) h = refl
no_merge (suc (suc l)) h = absurd (omega arith)

four_buddies-IsFresh : IsFresh four_buddies 2
unfolding new_buddy_state set_buddy_address set_buddy_size order_of_size new_bit_field check_bit
    element
four_buddies-IsFresh = record {
  small = omega arith;
  whole = refl;
  fits = omega arith;
  one_block = refl;
  split_room = omega arith;
  merge_room = omega arith;
  no_split = no_split;
  no_merge = no_merge;
  unused = refl;
}

allocate_buddy_pages-free_all_example :
    (t : BuddyState) × (allocate_buddy_pages four_buddies 3 ≡ some (pages_from 3 0x1000, t))
    × (u : BuddyState) × (free_all (pages_from 3 0x1000) t ≡ some u)
    × IsRestored four_buddies u
unfolding new_buddy_state set_buddy_address set_buddy_size order_of_size
allocate_buddy_pages-free_all_example =
    allocate_buddy_pages-free_all four_buddies 2 2 four_buddies-IsFresh (omega arith)

-- Four pages are taken one by one; when the third is given back alone, the next allocation gets the
-- first page, which is still in use.
abbrev addr_of : Option (List ℕ × BuddyState) → List ℕ
addr_of o = elim o [ none ↦ [] | some t ↦ t.0 ]

abbrev state_of : Option (List ℕ × BuddyState) → BuddyState
state_of o = elim o [ none ↦ new_buddy_state 12 | some t ↦ t.1 ]

abbrev three_taken : BuddyState
three_taken = state_of (
    allocate_buddy_pages
      (state_of (allocate_buddy_pages (state_of (allocate_buddy_pages four_buddies 1)) 1)) 1)

taken_again :
    addr_of (allocate_buddy_pages (memory_of (add_buddy_p_addr three_taken 0x3000)) 1) ≡ 0x1000 ∷ []
unfolding new_buddy_state set_buddy_address set_buddy_size order_of_size new_bit_field check_bit
    update_bit element set_element size_of_level index_in_level_of index_of_block buddy_of
    update_split update_merge order_of_pages find_block split_block track_pages track_block
    take_block level_of_pages allocate_buddy_pages remove_by_value block_has_been_split
    block_or_buddy_is_allocated level_of_block merge_block free_block remove_tracked_page
    add_tracked_p_addr add_buddy_p_addr
taken_again = refl

-- The first two of the four pages, for 5000 bytes of process 7.
abbrev placed : Device
placed =
    with_mem_state first_device
      (regular (filled (new_memory_allocator 12) first_device four_pages 4))

placed-IsReady :
    IsReady one_device 1 placed
      (filled (new_memory_allocator 12) first_device four_pages 4)
      (0x1000 ∷ 0x2000 ∷ [])
      (0x3000 ∷ 0x4000 ∷ [])
unfolding new_memory_allocator element device_id_by_p_addr is_p_addr_on_device initial_address_of
    storage_size_of
placed-IsReady = record {
  device = refl;
  own = refl;
  default = refl;
  available = refl;
  located = (refl, (refl, tt));
}

allocate-IsAllocated_example :
    (new : MemoryAllocator) × (calls : List TableCall) × (allocate one_device 7 5000 1
      ≡ some ((process_state one_device 7).next_v_addr, new, calls))
    × IsAllocated 7 1 5000 one_device new placed
        (filled (new_memory_allocator 12) first_device four_pages 4)
        (0x1000 ∷ 0x2000 ∷ [])
        (0x3000 ∷ 0x4000 ∷ [])
        ((process_state one_device 7).next_v_addr)
        calls
unfolding new_memory_allocator process_state
allocate-IsAllocated_example =
    allocate-IsAllocated 7 1 5000 one_device placed
      (filled (new_memory_allocator 12) first_device four_pages 4) (0x1000 ∷ 0x2000 ∷ [])
      (0x3000 ∷ 0x4000 ∷ []) (omega arith) (omega arith) refl placed-IsReady (omega arith)
