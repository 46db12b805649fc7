-- ===== src/Memory/Reaches.antt =====
-- What the operations of the allocator lead to, with the pages that the page table then has.
use sampled_mgpu_sim.Prelude.{ℕ, ◌+◌, ◌*◌, ◌^◌, ◌≤◌, ◌<◌, ◌≡◌, Bool, none, some, List, [], ◌∷◌}
use sampled_mgpu_sim.Prelude.Elements.{element}
use sampled_mgpu_sim.PageTable.{Page}
use sampled_mgpu_sim.Memory.{RegularState, bytes_of_page}
use sampled_mgpu_sim.Memory.Device.{regular, Device}
use sampled_mgpu_sim.Memory.Allocator.{
  MemoryAllocator, TableCall, new_memory_allocator, register_device, allocate, allocate_unified,
  remap_bytes, allocate_page_with_given_v_addr, free,
}
use sampled_mgpu_sim.Memory.Frames.{count, frees, AllRegular}
use sampled_mgpu_sim.Memory.Ledger.{Ledger, empty_ledger, tell_all, frame_at, frames_of}
use sampled_mgpu_sim.Memory.Register.{is_page}

-- A device that the allocator does not have yet, with an empty memory of `n` whole pages that still
-- has addresses.
pub record IsNew (a : MemoryAllocator) (d : Device) (s : RegularState) (n : ℕ) : Type 0 where
  pub unknown : element (d.id) (a.devices) ≡ none
  pub default : d.mem_state ≡ regular s
  pub same_page : s.log2_page_size ≡ a.log2_page_size
  pub empty : s.available_p_addrs ≡ []
  pub whole : s.storage_size ≡ n * bytes_of_page (s.log2_page_size)
  pub fits : a.total_storage_byte_size + s.storage_size < 2 ^ 64

-- What the operations lead to from a new allocator, and what the page table has been told. A page is
-- freed only while the page table still has it with that frame.
pub data Reaches (log2_page_size : ℕ) : Ledger → MemoryAllocator → Type 0 where
  start : Reaches log2_page_size empty_ledger (new_memory_allocator log2_page_size)
  by_register :
      {l : Ledger} {a new : MemoryAllocator}
      → Reaches log2_page_size l a
      → (d : Device) (s : RegularState) (n : ℕ) → IsNew a d s n
      → register_device a d ≡ some new
      → Reaches log2_page_size l new
  by_allocate :
      {l : Ledger} {a new : MemoryAllocator} {calls : List TableCall}
      → Reaches log2_page_size l a
      → (pid byte_size device_id : ℕ) {v_addr : ℕ}
      → allocate a pid byte_size device_id ≡ some (v_addr, new, calls)
      → Reaches log2_page_size (tell_all calls l) new
  by_allocate_unified :
      {l : Ledger} {a new : MemoryAllocator} {calls : List TableCall}
      → Reaches log2_page_size l a
      → (pid byte_size : ℕ) {v_addr : ℕ}
      → allocate_unified a pid byte_size ≡ some (v_addr, new, calls)
      → Reaches log2_page_size (tell_all calls l) new
  by_remap :
      {l : Ledger} {a new : MemoryAllocator} {calls : List TableCall}
      → Reaches log2_page_size l a
      → (pid page_v_addr byte_size device_id : ℕ)
      → remap_bytes a pid page_v_addr byte_size device_id ≡ some (new, calls)
      → Reaches log2_page_size (tell_all calls l) new
  by_given_v_addr :
      {l : Ledger} {a new : MemoryAllocator} {calls : List TableCall}
      → Reaches log2_page_size l a
      → (pid device_id v_addr : ℕ) (unified : Bool) {page : Page}
      → allocate_page_with_given_v_addr a pid device_id v_addr unified ≡ some (page, new, calls)
      → Reaches log2_page_size (tell_all calls l) new
  by_free :
      {l : Ledger} {a new : MemoryAllocator} {calls : List TableCall}
      → Reaches log2_page_size l a
      → (page : Page) (ptr : ℕ) → a.v_addr_to_page_mapping ptr ≡ some page
      → frame_at (page.pid) (page.v_addr) (l.standing) ≡ page.p_addr ∷ []
      → free a ptr ≡ some (new, calls)
      → Reaches log2_page_size (tell_all calls l) new

-- Each page of the registered memory is free once, or the frame of one page that stands in the page
-- table, or that of one page that was replaced there; no other address is any of these.
pub record IsOwned (log2_page_size : ℕ) (l : Ledger) (a : MemoryAllocator) : Type 0 where
  pub regulars : AllRegular (a.devices)
  pub same_page : a.log2_page_size ≡ log2_page_size
  pub whole : (m : ℕ) × (a.total_storage_byte_size ≡ m * bytes_of_page log2_page_size) × (1 ≤ m)
  pub once :
      (x : ℕ)
      → frees x (a.devices) + (count x (frames_of (l.standing)) + count x (l.lost))
        ≡ is_page
            (bytes_of_page log2_page_size)
            (bytes_of_page log2_page_size)
            (a.total_storage_byte_size)
            x
