-- ===== src/Memory/Allocator.antt =====
-- The allocator (driver/internal/memoryallocator.go). The page table is another repository's: what
-- the allocator calls of it is the list of the calls, in order. The locks make each operation one
-- step. The order in which Go ranges over the map of devices is that of the list.
use sampled_mgpu_sim.Prelude.{
  ℕ, zero, suc, ◌+◌, ◌-◌, ◌*◌, ◌/◌, ◌%◌, ◌^◌, Bool, true, false, ◌&&◌, ◌||◌, Option, none, some,
  List, [], ◌∷◌, ◌++◌, ltb, leb, ◌==◌, if◌then◌else◌, ◌>>=◌, length,
}
use sampled_mgpu_sim.Prelude.Elements.{put, element, set_element}
use sampled_mgpu_sim.PageTable.{Page}
use sampled_mgpu_sim.Memory.{add_u64, bytes_of_page}
use sampled_mgpu_sim.Memory.Device.{
  MemoryState, Device, set_initial_address, initial_address_of, storage_size_of, add_single_p_addr,
  with_mem_state, allocate_page, allocate_multiple_pages,
}

pub data TableCall : Type 0 where
  insert_call : Page → TableCall
  update_call : Page → TableCall
  remove_call : (pid v_addr : ℕ) → TableCall

pub record ProcessMemoryState : Type 0 where
  pub pid : ℕ
  pub next_v_addr : ℕ

pub record MemoryAllocator : Type 0 where
  pub log2_page_size : ℕ
  pub v_addr_to_page_mapping : ℕ → Option Page
  pub process_memory_states : ℕ → Option ProcessMemoryState
  pub devices : List (ℕ × Device)
  pub total_storage_byte_size : ℕ

unfoldable pub new_memory_allocator : ℕ → MemoryAllocator
new_memory_allocator log2_page_size = record {
  log2_page_size = log2_page_size;
  v_addr_to_page_mapping = λ v_addr. none;
  process_memory_states = λ pid. none;
  devices = [];
  total_storage_byte_size = bytes_of_page log2_page_size;
}

-- `a.devices[id] = device`
unfoldable pub put_device : List (ℕ × Device) → ℕ → Device → List (ℕ × Device)
put_device devices id d = elim (element id devices) [
  | none ↦ devices ++ ((id, d) ∷ [])
  | some _ ↦ set_element id d devices
]

unfoldable pub register_device : MemoryAllocator → Device → Option MemoryAllocator
register_device a d = do
  state ← set_initial_address (d.mem_state) (a.total_storage_byte_size)
  some (record a {
    total_storage_byte_size = add_u64 (a.total_storage_byte_size) (storage_size_of state);
    devices = put_device (a.devices) (d.id) (with_mem_state d state);
  })

unfoldable pub is_p_addr_on_device : ℕ → MemoryState → Bool
is_p_addr_on_device p_addr state =
    leb (initial_address_of state) p_addr
    && ltb p_addr (add_u64 (initial_address_of state) (storage_size_of state))

unfoldable pub device_id_by_p_addr : List (ℕ × Device) → ℕ → Option ℕ
device_id_by_p_addr [] p_addr = none
device_id_by_p_addr ((id, d) ∷ devices) p_addr =
    let rest = device_id_by_p_addr devices p_addr in
    if is_p_addr_on_device p_addr (d.mem_state) then some id else rest

-- The fields that the composite literals leave out are false.
abbrev pub new_page : (log2_page_size pid v_addr p_addr device_id : ℕ) → Bool → Page
new_page log2_page_size pid v_addr p_addr device_id unified = record {
  pid = pid;
  p_addr = p_addr;
  v_addr = v_addr;
  page_size = bytes_of_page log2_page_size;
  valid = true;
  device_id = device_id;
  unified = unified;
  is_migrating = false;
  is_pinned = false;
}

-- `a.vAddrToPageMapping[page.VAddr] = page`
abbrev pub map_page : MemoryAllocator → Page → MemoryAllocator
map_page a page = record a {
  v_addr_to_page_mapping = put (a.v_addr_to_page_mapping) (page.v_addr) (some page);
}

-- One page of an allocation.
unfoldable pub allocate_next :
    MemoryAllocator → (pid device_id v_addr : ℕ) → Bool → Option (Page × MemoryAllocator)
allocate_next a pid device_id v_addr unified = do
  (p_addr, devices) ← allocate_page (suc (length (a.devices))) (a.devices) device_id
  owner ← device_id_by_p_addr devices p_addr
  let page = new_page (a.log2_page_size) pid v_addr p_addr owner unified
  some (page, map_page (record a { devices = devices }) page)

-- The loop over the pages, from the `i`-th on.
unfoldable pub map_pages :
    (n i : ℕ)
    → MemoryAllocator
    → (pid device_id first : ℕ) → Bool
    → Option (MemoryAllocator × List TableCall)
map_pages zero i a pid device_id first unified = some (a, [])
map_pages (suc n) i a pid device_id first unified = do
  (page, a1) ←
      allocate_next a pid device_id (add_u64 first (i * bytes_of_page (a.log2_page_size) % 2 ^ 64))
        unified
  (a2, calls) ← map_pages n (suc i) a1 pid device_id first unified
  some (a2, insert_call page ∷ calls)

-- The state of a process, which is made for a new one, and the first address of the next pages.
unfoldable pub process_state : MemoryAllocator → ℕ → ProcessMemoryState
process_state a pid = elim (a.process_memory_states pid) [
  | some state ↦ state
  | none ↦ record { pid = pid; next_v_addr = bytes_of_page (a.log2_page_size) }
]

unfoldable pub allocate_pages :
    MemoryAllocator
    → (num_pages pid device_id : ℕ) → Bool
    → Option (ℕ × MemoryAllocator × List TableCall)
allocate_pages a num_pages pid device_id unified = do
  let state = process_state a pid
  let first = state.next_v_addr
  (a1, calls) ← map_pages num_pages 0 a pid device_id first unified
  let next = add_u64 first (bytes_of_page (a.log2_page_size) * num_pages % 2 ^ 64)
  some (
    first,
    record a1 {
      process_memory_states =
          put (a1.process_memory_states) pid (some (record state { next_v_addr = next }));
    },
    calls,
  )

-- A page of no bytes panics, by the division.
unfoldable pub num_pages_of : MemoryAllocator → (byte_size : ℕ) → Option ℕ
num_pages_of a byte_size =
    let page_size = bytes_of_page (a.log2_page_size) in
    if byte_size == 0 || page_size == 0 then none else some ((byte_size - 1) / page_size + 1)

unfoldable pub allocate :
    MemoryAllocator → (pid byte_size device_id : ℕ) → Option (ℕ × MemoryAllocator × List TableCall)
allocate a pid byte_size device_id = do
  n ← num_pages_of a byte_size
  allocate_pages a n pid device_id false

unfoldable pub allocate_unified :
    MemoryAllocator → (pid byte_size : ℕ) → Option (ℕ × MemoryAllocator × List TableCall)
allocate_unified a pid byte_size = do n ← num_pages_of a byte_size; allocate_pages a n pid 1 true

-- The addresses of the pages from `addr` to `last`.
unfoldable pub page_v_addrs : (fuel : ℕ) → (addr last page_size : ℕ) → Option (List ℕ)
page_v_addrs zero addr last page_size = none
page_v_addrs (suc fuel) addr last page_size =
    let rest = page_v_addrs fuel (add_u64 addr page_size) last page_size in
    if ltb addr last then (do addrs ← rest; some (addr ∷ addrs)) else some []

-- `pAddrs[i]` of the `i`-th address; there may be more of the former, and fewer panic.
unfoldable pub remap_pages :
    MemoryAllocator
    → (pid device_id : ℕ) → Bool
    → (v_addrs p_addrs : List ℕ) → Option (List Page × MemoryAllocator × List TableCall)
remap_pages a pid device_id unified [] p_addrs = some ([], a, [])
remap_pages a pid device_id unified (v_addr ∷ v_addrs) [] = none
remap_pages a pid device_id unified (v_addr ∷ v_addrs) (p_addr ∷ p_addrs) = do
  let page = new_page (a.log2_page_size) pid v_addr p_addr device_id unified
  (pages, a1, calls) ← remap_pages (map_page a page) pid device_id unified v_addrs p_addrs
  some (page ∷ pages, a1, update_call page ∷ calls)

unfoldable pub allocate_multiple_pages_with_given_v_addrs :
    MemoryAllocator
    → (pid device_id : ℕ) → (v_addrs : List ℕ) → Bool
    → Option (List Page × MemoryAllocator × List TableCall)
allocate_multiple_pages_with_given_v_addrs a pid device_id v_addrs unified = do
  (p_addrs, devices) ←
      allocate_multiple_pages (suc (length (a.devices))) (length v_addrs) (a.devices) device_id
  remap_pages (record a { devices = devices }) pid device_id unified v_addrs p_addrs

unfoldable pub remap_bytes :
    MemoryAllocator
    → (pid page_v_addr byte_size device_id : ℕ) → Option (MemoryAllocator × List TableCall)
remap_bytes a pid page_v_addr byte_size device_id = do
  v_addrs ←
      page_v_addrs (suc (add_u64 page_v_addr byte_size - page_v_addr)) page_v_addr
        (add_u64 page_v_addr byte_size) (bytes_of_page (a.log2_page_size))
  (pages, a1, calls) ← allocate_multiple_pages_with_given_v_addrs a pid device_id v_addrs false
  some (a1, calls)

unfoldable pub allocate_page_with_given_v_addr :
    MemoryAllocator
    → (pid device_id v_addr : ℕ) → Bool
    → Option (Page × MemoryAllocator × List TableCall)
allocate_page_with_given_v_addr a pid device_id v_addr unified = do
  (p_addr, devices) ← allocate_page (suc (length (a.devices))) (a.devices) device_id
  let page = new_page (a.log2_page_size) pid v_addr p_addr device_id unified
  some (page, map_page (record a { devices = devices }) page, update_call page ∷ [])

-- Giving the frame of a page back to its device.
unfoldable pub return_page : List (ℕ × Device) → (p_addr : ℕ) → Option (List (ℕ × Device))
return_page devices p_addr = do
  id ← device_id_by_p_addr devices p_addr
  d ← element id devices
  state ← add_single_p_addr (d.mem_state) p_addr
  some (set_element id (with_mem_state d state) devices)

-- `Free` and `RemovePage`: the page stays in the mapping.
unfoldable pub free : MemoryAllocator → (ptr : ℕ) → Option (MemoryAllocator × List TableCall)
free a ptr = do
  page ← a.v_addr_to_page_mapping ptr
  devices ← return_page (a.devices) (page.p_addr)
  some (record a { devices = devices }, remove_call (page.pid) (page.v_addr) ∷ [])
