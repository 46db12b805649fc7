-- ===== src/Memory/Mapped.antt =====
-- What an allocation maps: consecutive virtual addresses to the first free pages of the device.
use sampled_mgpu_sim.Prelude.{
  ℕ, ◌+◌, ◌-◌, ◌*◌, ◌/◌, ◌%◌, ◌^◌, ◌≤◌, ◌<◌, ◌≡◌, refl, sym, ap, ◌≢◌, false, ◌||◌, Option, none,
  some, List, arith, ◌==◌, if◌then◌else◌, ==_refl, ◌>>=◌, length,
}
use native.Mathlib.Nat.{mod-eq_of_lt, div-add-mod', mod-lt, mul_comm}
use sampled_mgpu_sim.Prelude.{◌∙◌}
use sampled_mgpu_sim.Prelude.Elements.{put}
use sampled_mgpu_sim.Memory.{RegularState, add_u64, bytes_of_page}
use sampled_mgpu_sim.Memory.Device.{Device}
use sampled_mgpu_sim.Memory.Allocator.{
  MemoryAllocator, TableCall, ProcessMemoryState, map_pages, process_state, allocate_pages,
  num_pages_of, allocate,
}
use sampled_mgpu_sim.Memory.Register.{pos-bytes_of_page}
use sampled_mgpu_sim.Memory.OnePage.{IsReady}
use sampled_mgpu_sim.Memory.MapPages.{IsMapped, map_pages-IsMapped}

process_state-found :
    (a : MemoryAllocator) (pid : ℕ) (state : ProcessMemoryState)
    → a.process_memory_states pid ≡ some state
    → process_state a pid ≡ state
unfolding process_state
process_state-found a pid state e =
    ap
      (λ o. elim o [
        | some state ↦ state
        | none ↦ record { pid = pid; next_v_addr = bytes_of_page (a.log2_page_size) }
      ])
      e

-- An allocation of `n` pages with the next addresses of the process.
pub record IsAllocated (pid id byte_size : ℕ) (a new : MemoryAllocator) (d : Device)
    (s : RegularState) (frames rest : List ℕ) (v_addr : ℕ) (calls : List TableCall) : Type 0 where
  pub mapped : IsMapped pid id v_addr false a new d s frames rest v_addr calls
  pub enough : byte_size ≤ length frames * bytes_of_page (a.log2_page_size)
  pub tight :
      length frames * bytes_of_page (a.log2_page_size)
      < byte_size + bytes_of_page (a.log2_page_size)
  pub next_v_addr :
      (process_state new pid).next_v_addr
      ≡ v_addr + length frames * bytes_of_page (a.log2_page_size)
  pub other_processes : (q : ℕ) → q ≢ pid → new.process_memory_states q ≡ a.process_memory_states q

-- For pages of 2 ^ k bytes with k < 64, a device that is not a unified one, whose memory is the
-- regular one and has free the pages `frames`, as many as the bytes need, and then `rest`, each found
-- on this device by its address, and addresses of the process below 2 ^ 64: allocating a positive
-- number of bytes returns the next address of the process; it tells the page table of exactly one new
-- page for each frame, in order and at consecutive addresses, maps each of these addresses to that
-- page, leaves `rest` to the device, takes the least number of pages that holds the bytes, and moves
-- the next address of the process to the end of them. The mapping of every other address, every
-- other device and process, the total of the storage and the page size stay as they were.
pub allocate-IsAllocated :
    (pid id byte_size : ℕ) (a : MemoryAllocator) (d : Device) (s : RegularState)
    (frames rest : List ℕ)
    → 1 ≤ byte_size
    → a.log2_page_size < 64
    → length frames ≡ (byte_size - 1) / bytes_of_page (a.log2_page_size) + 1
    → IsReady a id d s frames rest
    → (process_state a pid).next_v_addr + length frames * bytes_of_page (a.log2_page_size) < 2 ^ 64
    → (new : MemoryAllocator) × (calls : List TableCall) × (allocate a pid byte_size id
        ≡ some ((process_state a pid).next_v_addr, new, calls))
      × IsAllocated pid id byte_size a new d s frames rest ((process_state a pid).next_v_addr) calls
unfolding allocate num_pages_of allocate_pages
allocate-IsAllocated pid id byte_size a d s frames rest some_bytes bound pages r fits =
    let (m, calls, e, mapped, kept) =
      map_pages-IsMapped pid id first false frames rest 0 first a d s r
        (pos-bytes_of_page (a.log2_page_size) bound) (omega arith) fits in
    (
      finished (length frames) m,
      calls,
      ap (λ b. (if b then none else some ((byte_size - 1) / p + 1)) >>= from_count) counted
          ∙ ap from_count (sym pages)
          ∙ ap (λ o. o >>= finish (length frames)) e,
      record {
        mapped = record {
          told = mapped.told;
          left = mapped.left;
          mapped = mapped.mapped;
          others = mapped.others;
          other_devices = mapped.other_devices;
          same_total = mapped.same_total;
          same_page = mapped.same_page;
        };
        enough = omega (arith, size, whole, below);
        tight = omega (arith, size, whole, below);
        next_v_addr =
            ap (λ (st : ProcessMemoryState). st.next_v_addr)
              (process_state-found (finished (length frames) m) pid (moved (length frames))
                (own_state (m.process_memory_states) (moved (length frames))))
            ∙ sum;
        other_processes = λ q other. other_state m q other ∙ ap (λ f. f q) kept;
      },
    )
  where
    first : ℕ
    first = (process_state a pid).next_v_addr

    p : ℕ
    p = bytes_of_page (a.log2_page_size)

    moved : ℕ → ProcessMemoryState
    moved n = record (process_state a pid) {
      next_v_addr =
          add_u64 ((process_state a pid).next_v_addr)
            (bytes_of_page (a.log2_page_size) * n % 2 ^ 64);
    }

    finished : ℕ → MemoryAllocator → MemoryAllocator
    finished n a1 = record a1 {
      process_memory_states = put (a1.process_memory_states) pid (some (moved n));
    }

    finish : ℕ → MemoryAllocator × List TableCall → Option (ℕ × MemoryAllocator × List TableCall)
    finish n t = some (first, finished n (t.0), t.1)

    from_count : ℕ → Option (ℕ × MemoryAllocator × List TableCall)
    from_count n = map_pages n 0 a pid id first false >>= finish n

    counted : (byte_size == 0 || bytes_of_page (a.log2_page_size) == 0) ≡ false
    counted = ground (arith, pos-bytes_of_page (a.log2_page_size) bound)

    size :
        length frames * bytes_of_page (a.log2_page_size)
        ≡ (byte_size - 1) / bytes_of_page (a.log2_page_size) * bytes_of_page (a.log2_page_size)
          + bytes_of_page (a.log2_page_size)
    size = ap (λ n. n * bytes_of_page (a.log2_page_size)) pages ∙ omega arith

    whole :
        (byte_size - 1) / bytes_of_page (a.log2_page_size) * bytes_of_page (a.log2_page_size)
          + (byte_size - 1) % bytes_of_page (a.log2_page_size)
        ≡ byte_size - 1
    whole = div-add-mod' (byte_size - 1) (bytes_of_page (a.log2_page_size))

    below : (byte_size - 1) % bytes_of_page (a.log2_page_size) < bytes_of_page (a.log2_page_size)
    below = mod-lt (byte_size - 1) (pos-bytes_of_page (a.log2_page_size) bound)

    sum :
        add_u64
          ((process_state a pid).next_v_addr)
          (bytes_of_page (a.log2_page_size) * length frames % 2 ^ 64)
        ≡ (process_state a pid).next_v_addr + length frames * bytes_of_page (a.log2_page_size)
    sum =
        ap (λ n. add_u64 ((process_state a pid).next_v_addr) (n % 2 ^ 64))
          (mul_comm (bytes_of_page (a.log2_page_size)) (length frames))
        ∙ ap (λ n. add_u64 ((process_state a pid).next_v_addr) n) (mod-eq_of_lt (omega arith))
        ∙ mod-eq_of_lt fits

    own_state :
        (f : ℕ → Option ProcessMemoryState) (st : ProcessMemoryState)
        → put f pid (some st) pid ≡ some st
    own_state f st = rw (==_refl pid) refl

    other_state :
        (m : MemoryAllocator) (q : ℕ)
        → q ≢ pid
        → put (m.process_memory_states) pid (some (moved (length frames))) q
          ≡ m.process_memory_states q
    other_state m q other = ground arith
