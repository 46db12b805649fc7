-- ===== src/Memory/MapPages.antt =====
-- The loop of an allocation maps one page after the other.
use sampled_mgpu_sim.Prelude.{
  ℕ, suc, ◌+◌, ◌*◌, ◌%◌, ◌^◌, ◌≤◌, ◌<◌, ◌≡◌, refl, sym, ap, ◌≢◌, Bool, Option, some, List, [], ◌∷◌,
  ◌++◌, arith, ◌>>=◌, length,
}
use native.Mathlib.Nat.{mod-eq_of_lt}
use sampled_mgpu_sim.Prelude.{◌∙◌}
use sampled_mgpu_sim.Prelude.Elements.{put, element, element-set_ne}
use sampled_mgpu_sim.PageTable.{Page}
use sampled_mgpu_sim.Memory.{RegularState, add_u64, bytes_of_page}
use sampled_mgpu_sim.Memory.Device.{Device}
use sampled_mgpu_sim.Memory.Allocator.{
  MemoryAllocator, TableCall, insert_call, new_page, allocate_next, map_pages,
}
use sampled_mgpu_sim.Memory.OnePage.{
  IsReady, used, one_mapped, allocate_next_lem, one_mapped-IsReady,
}

module _ (log2_page_size pid id : ℕ) (unified : Bool) where
  -- The page of each frame, from the virtual address `first` on.
  abbrev pub inserts : (frames : List ℕ) (first : ℕ) → List TableCall
  inserts [] first = []
  inserts (x ∷ xs) first =
      insert_call (new_page log2_page_size pid first x id unified)
      ∷ inserts xs (first + bytes_of_page log2_page_size)

  -- Each virtual address from `first` on is mapped to the page of its frame.
  abbrev pub AreMapped : (ℕ → Option Page) → (frames : List ℕ) (first : ℕ) → Type 0
  AreMapped m [] first = Unit
  AreMapped m (x ∷ xs) first =
      (m first ≡ some (new_page log2_page_size pid first x id unified))
      × AreMapped m xs (first + bytes_of_page log2_page_size)

module _ (pid id base : ℕ) (unified : Bool) where
  -- What mapping `frames` from `first` on gives, where the device has `rest` free after them.
  -- The mapping of any other address, the other devices, the storage and the page size stay as they were.
  pub record IsMapped (a new : MemoryAllocator) (d : Device) (s : RegularState)
      (frames rest : List ℕ) (first : ℕ) (calls : List TableCall) : Type 0 where
    pub told : calls ≡ inserts (a.log2_page_size) pid id unified frames first
    pub left : element id (new.devices) ≡ some (used d s rest)
    pub mapped :
        AreMapped (a.log2_page_size) pid id unified (new.v_addr_to_page_mapping) frames first
    pub others :
        (k : ℕ)
        → ((j : ℕ) → j < length frames → k ≢ first + j * bytes_of_page (a.log2_page_size))
        → new.v_addr_to_page_mapping k ≡ a.v_addr_to_page_mapping k
    pub other_devices : (j : ℕ) → j ≢ id → element j (new.devices) ≡ element j (a.devices)
    pub same_total : new.total_storage_byte_size ≡ a.total_storage_byte_size
    pub same_page : new.log2_page_size ≡ a.log2_page_size

  pub map_pages-IsMapped :
      (frames rest : List ℕ) (i first : ℕ) (a : MemoryAllocator) (d : Device) (s : RegularState)
      → IsReady a id d s frames rest
      → 1 ≤ bytes_of_page (a.log2_page_size)
      → first ≡ base + i * bytes_of_page (a.log2_page_size)
      → first + length frames * bytes_of_page (a.log2_page_size) < 2 ^ 64
      → (new : MemoryAllocator) × (calls : List TableCall) × (map_pages
            (length frames)
            i
            a
            pid
            id
            base
            unified
          ≡ some (new, calls))
        × IsMapped a new d s frames rest first calls
        × (new.process_memory_states ≡ a.process_memory_states)
  unfolding map_pages
  map_pages-IsMapped [] rest i first a d s r pos at fits = (
    a,
    [],
    refl,
    record {
      told = refl;
      left = r.device ∙ ap some same;
      mapped = tt;
      others = λ k h. refl;
      other_devices = λ j h. refl;
      same_total = refl;
      same_page = refl;
    },
    refl,
  )
    where
      same : d ≡ used d s rest
      same =
          ap (λ state. record d { mem_state = state }) (r.default)
          ∙ ap (λ xs. used d s xs) (r.available)
  map_pages-IsMapped (x ∷ frames) rest i first a d s r pos at fits =
      let next : MemoryAllocator = one_mapped a id d s x frames rest r pid first unified in
      let (new, calls, e, m, kept) =
        map_pages-IsMapped frames rest (suc i) (first + bytes_of_page (a.log2_page_size)) next
          (used d s (frames ++ rest)) (record s { available_p_addrs = frames ++ rest })
          (one_mapped-IsReady a id d s x frames rest r pid first unified) pos (omega arith)
          (omega arith) in
      (
        new,
        insert_call (new_page (a.log2_page_size) pid first x id unified) ∷ calls,
        ap (λ v. allocate_next a pid id v unified >>= from_next) address
            ∙ ap (λ o. o >>= from_next)
                (allocate_next_lem a id d s x frames rest r pid first unified)
            ∙ ap (λ o. o >>= from_rest (new_page (a.log2_page_size) pid first x id unified)) e,
        record {
          told =
              ap (λ calls. insert_call (new_page (a.log2_page_size) pid first x id unified) ∷ calls)
                (m.told);
          left = m.left;
          mapped = (m.others first (λ j h q. omega (arith, pos, q)) ∙ ground arith, m.mapped);
          others = λ k h.
              m.others k (λ j le q. h (suc j) (omega arith) (omega (arith, q)))
              ∙ unmapped k (λ q. h 0 (omega arith) (omega (arith, q)));
          other_devices = λ j h.
              m.other_devices j h ∙ element-set_ne j id (used d s (frames ++ rest)) (a.devices) h;
          same_total = m.same_total;
          same_page = m.same_page;
        },
        kept,
      )
    where
      unmapped :
          (k : ℕ)
          → k ≢ first
          → put
              (a.v_addr_to_page_mapping)
              first
              (some (new_page (a.log2_page_size) pid first x id unified))
              k
            ≡ a.v_addr_to_page_mapping k
      unmapped k h = ground arith

      from_rest :
          Page → MemoryAllocator × List TableCall → Option (MemoryAllocator × List TableCall)
      from_rest page u = some (u.0, insert_call page ∷ (u.1))

      from_next : Page × MemoryAllocator → Option (MemoryAllocator × List TableCall)
      from_next t = map_pages (length frames) (suc i) (t.1) pid id base unified >>= from_rest (t.0)

      address : add_u64 base (i * bytes_of_page (a.log2_page_size) % 2 ^ 64) ≡ first
      address =
          ap (λ n. add_u64 base n) (mod-eq_of_lt (omega arith))
          ∙ mod-eq_of_lt (omega arith)
          ∙ sym at
