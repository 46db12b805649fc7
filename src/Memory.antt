-- ===== src/Memory.antt =====
-- The memory management of the driver (driver/internal): the states of a device's memory, the devices
-- and the allocator. Addresses are 64-bit and wrap. `none` is a panic, or a loop that does not end.
pub mod Buddy
pub mod Device
pub mod Allocator
mod Frames
mod Take
mod TakeMany
mod Ledger
mod Conserve
mod Remap
mod Register
mod Reaches
mod Brought
mod Owned
mod OnePage
mod MapPages
mod Mapped
mod Examples
use sampled_mgpu_sim.Prelude.{
  ℕ, zero, suc, ◌+◌, ◌-◌, ◌*◌, ◌/◌, ◌%◌, ◌^◌, ◌≤◌, ◌<◌, min, max, ◌≡◌, refl, sym, ap, ap₂, subst,
  ◌≢◌, ◌↔◌, ◌⊎◌, inl, inr, Bool, true, false, not, ◌&&◌, ◌||◌, Option, none, some, List, [], ◌∷◌,
  ◌++◌, map, arith, ltb, leb, ◌==◌, if◌then◌else◌, Bool-cases, Option-cases, ltb→lt, ltb-false,
  lt→ltb, le→leb, leb→le, ==_iff, ==_refl, ◌>>=◌, length, get_elem?, set, All,
}
use sampled_mgpu_sim.Prelude.Words.{shift_left}

-- `a + b` and `uint64(1 << n)`
abbrev pub add_u64 : ℕ → ℕ → ℕ
add_u64 a b = (a + b) % 2 ^ 64

abbrev pub bytes_of_page : ℕ → ℕ
bytes_of_page log2_page_size = shift_left 64 1 log2_page_size

pub record RegularState : Type 0 where
  pub log2_page_size : ℕ
  pub initial_address : ℕ
  pub storage_size : ℕ
  pub available_p_addrs : List ℕ

unfoldable pub new_regular_state : ℕ → RegularState
new_regular_state log2_page_size = record {
  log2_page_size = log2_page_size;
  initial_address = 0;
  storage_size = 0;
  available_p_addrs = [];
}

unfoldable pub add_regular_p_addr : RegularState → ℕ → RegularState
add_regular_p_addr s addr = record s { available_p_addrs = s.available_p_addrs ++ (addr ∷ []) }

-- The loop over the pages from `addr`; the fuel is the bytes before `end_addr`, and one more.
unfoldable pub add_pages :
    (fuel : ℕ) → RegularState → (addr end_addr page_size : ℕ) → Option RegularState
add_pages zero s addr end_addr page_size = none
add_pages (suc fuel) s addr end_addr page_size =
    let rest =
      add_pages fuel (add_regular_p_addr s addr) (add_u64 addr page_size) end_addr page_size in
    if ltb addr end_addr then rest else some s

unfoldable pub set_regular_address : RegularState → ℕ → Option RegularState
set_regular_address s addr =
    let end_addr = add_u64 addr (s.storage_size) in
    add_pages (suc (end_addr - addr)) (record s { initial_address = addr }) addr end_addr
      (bytes_of_page (s.log2_page_size))

unfoldable pub pop_regular_p_addr : RegularState → Option (ℕ × RegularState)
pop_regular_p_addr s = elim (s.available_p_addrs) [
  | [] ↦ none
  | addr ∷ rest ↦ some (addr, record s { available_p_addrs = rest })
]

unfoldable pub allocate_regular_pages :
    (num_pages : ℕ) → RegularState → Option (List ℕ × RegularState)
allocate_regular_pages zero s = some ([], s)
allocate_regular_pages (suc n) s = do
  (addr, s1) ← pop_regular_p_addr s
  (addrs, s2) ← allocate_regular_pages n s1
  some (addr ∷ addrs, s2)
