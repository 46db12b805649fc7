-- ===== src/Memory/Device.antt =====
-- The devices of the driver (driver/internal/device.go), and the two implementations of a device's
-- memory behind one interface. A `*Device` is its identifier, under which it stands among the
-- devices of the allocator. The fields that this code does not read are left out.
use sampled_mgpu_sim.Prelude.{
  ℕ, zero, suc, ◌+◌, ◌%◌, Bool, true, false, Option, none, some, List, ◌==◌, if◌then◌else◌, ◌>>=◌,
  length, get_elem?,
}
use sampled_mgpu_sim.Prelude.Elements.{element, set_element}
use sampled_mgpu_sim.Memory.{
  RegularState, set_regular_address, add_regular_p_addr, pop_regular_p_addr, allocate_regular_pages,
}
use sampled_mgpu_sim.Memory.Buddy.{
  BuddyState, set_buddy_address, set_buddy_size, add_buddy_p_addr, no_buddy_p_addrs,
  allocate_buddy_pages,
}

pub data MemoryState : Type 0 where
  regular : RegularState → MemoryState
  buddy : BuddyState → MemoryState

unfoldable pub set_initial_address : MemoryState → ℕ → Option MemoryState
set_initial_address (regular s) addr = do s1 ← set_regular_address s addr; some (regular s1)
set_initial_address (buddy s) addr = some (buddy (set_buddy_address s addr))

unfoldable pub initial_address_of : MemoryState → ℕ
initial_address_of (regular s) = s.initial_address
initial_address_of (buddy s) = s.initial_address

unfoldable pub set_storage_size : MemoryState → ℕ → Option MemoryState
set_storage_size (regular s) size = some (regular (record s { storage_size = size }))
set_storage_size (buddy s) size = do s1 ← set_buddy_size s size; some (buddy s1)

unfoldable pub storage_size_of : MemoryState → ℕ
storage_size_of (regular s) = s.storage_size
storage_size_of (buddy s) = s.storage_size

unfoldable pub add_single_p_addr : MemoryState → ℕ → Option MemoryState
add_single_p_addr (regular s) addr = some (regular (add_regular_p_addr s addr))
add_single_p_addr (buddy s) addr = do s1 ← add_buddy_p_addr s addr; some (buddy s1)

unfoldable pub no_available_p_addrs : MemoryState → Bool
no_available_p_addrs (regular s) = length (s.available_p_addrs) == 0
no_available_p_addrs (buddy s) = no_buddy_p_addrs (s.free_list)

unfoldable pub allocate_state_pages : (num_pages : ℕ) → MemoryState → Option (List ℕ × MemoryState)
allocate_state_pages n (regular s) = do
  (addrs, s1) ← allocate_regular_pages n s
  some (addrs, regular s1)
allocate_state_pages n (buddy s) = do (addrs, s1) ← allocate_buddy_pages s n; some (addrs, buddy s1)

-- The buddy allocator takes the first of one page.
unfoldable pub pop_next_p_addr : MemoryState → Option (ℕ × MemoryState)
pop_next_p_addr (regular s) = do (addr, s1) ← pop_regular_p_addr s; some (addr, regular s1)
pop_next_p_addr (buddy s) = do
  (addrs, s1) ← allocate_buddy_pages s 1
  addr ← get_elem? addrs 0
  some (addr, buddy s1)

pub data DeviceType : Type 0 where
  invalid_device cpu gpu unified_gpu : DeviceType

abbrev pub is_unified : DeviceType → Bool
is_unified unified_gpu = true
is_unified _ = false

pub record Device : Type 0 where
  pub id : ℕ
  pub device_type : DeviceType
  pub actual_gpus : List ℕ
  pub next_actual_gpu_index : ℕ
  pub mem_state : MemoryState

-- `device.MemState` is an object, so a change of it is a change of the device among the devices.
abbrev pub with_mem_state : Device → MemoryState → Device
with_mem_state d state = record d { mem_state = state }

-- The loop of a unified device over its actual devices, which goes on after it has selected one.
unfoldable pub select_gpu :
    List (ℕ × Device) → (d : Device) → (n i : ℕ) → (selected : Option ℕ) → Option (Option ℕ)
select_gpu devices d zero i selected = some selected
select_gpu devices d (suc n) i selected = do
  id ← get_elem? (d.actual_gpus) ((d.next_actual_gpu_index + i) % length (d.actual_gpus))
  dev ← element id devices
  let rest = select_gpu devices d n (suc i) selected
  let chosen = select_gpu devices d n (suc i) (some id)
  if no_available_p_addrs (dev.mem_state) then rest else chosen

unfoldable pub step_gpu_index : List (ℕ × Device) → ℕ → Option (List (ℕ × Device))
step_gpu_index devices id = do
  d ← element id devices
  some (
      set_element id
        (record d {
          next_actual_gpu_index = (d.next_actual_gpu_index + 1) % length (d.actual_gpus);
        })
        devices)

unfoldable pub allocate_own_page : List (ℕ × Device) → ℕ → Device → Option (ℕ × List (ℕ × Device))
allocate_own_page devices id d = if no_available_p_addrs (d.mem_state) then none else do
  (addr, state) ← pop_next_p_addr (d.mem_state)
  some (addr, set_element id (with_mem_state d state) devices)

-- The device with this identifier allocates a page. The fuel is the depth of unified devices in
-- unified devices: no depth over the number of devices can end.
unfoldable pub allocate_page : (depth : ℕ) → List (ℕ × Device) → ℕ → Option (ℕ × List (ℕ × Device))
allocate_page zero devices id = none
allocate_page (suc depth) devices id = do
  d ← element id devices
  if is_unified (d.device_type)
      then (do
        selected ← select_gpu devices d (length (d.actual_gpus)) 0 none
        gpu_id ← selected
        (addr, devices1) ← allocate_page depth devices gpu_id
        devices2 ← step_gpu_index devices1 id
        some (addr, devices2))
      else allocate_own_page devices id d

unfoldable pub allocate_own_pages :
    (num_pages : ℕ) → List (ℕ × Device) → ℕ → Device → Option (List ℕ × List (ℕ × Device))
allocate_own_pages n devices id d = if no_available_p_addrs (d.mem_state) then none else do
  (addrs, state) ← allocate_state_pages n (d.mem_state)
  some (addrs, set_element id (with_mem_state d state) devices)

unfoldable pub allocate_multiple_pages :
    (depth num_pages : ℕ) → List (ℕ × Device) → ℕ → Option (List ℕ × List (ℕ × Device))
allocate_multiple_pages zero n devices id = none
allocate_multiple_pages (suc depth) n devices id = do
  d ← element id devices
  if is_unified (d.device_type)
      then (do
        gpu_id ← get_elem? (d.actual_gpus) (d.next_actual_gpu_index)
        (addrs, devices1) ← allocate_multiple_pages depth n devices gpu_id
        devices2 ← step_gpu_index devices1 id
        some (addrs, devices2))
      else allocate_own_pages n devices id d
