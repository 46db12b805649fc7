-- ===== src/Memory/OnePage.antt =====
-- One page of an allocation from a device of its own memory that has free pages.
use sampled_mgpu_sim.Prelude.{
  ℕ, suc, ◌≡◌, refl, sym, ap, inl, inr, Bool, false, Option, none, some, List, [], ◌∷◌, ◌++◌, arith,
  ◌==◌, if◌then◌else◌, Bool-cases, ◌>>=◌, length, All,
}
use sampled_mgpu_sim.Prelude.{◌∙◌}
use sampled_mgpu_sim.Prelude.Elements.{element, set_element, element-set_self}
use sampled_mgpu_sim.PageTable.{Page}
use sampled_mgpu_sim.Memory.{RegularState, pop_regular_p_addr}
use sampled_mgpu_sim.Memory.Device.{
  MemoryState, regular, Device, with_mem_state, is_unified, no_available_p_addrs, pop_next_p_addr,
  allocate_own_page, allocate_page, select_gpu, step_gpu_index, initial_address_of, storage_size_of,
}
use sampled_mgpu_sim.Memory.Allocator.{
  MemoryAllocator, is_p_addr_on_device, device_id_by_p_addr, new_page, map_page, allocate_next,
}

-- The device `id` is `d` with a regular memory whose free pages are `frames` and then `rest`, and the
-- addresses of `frames` are found to be its own.
pub record IsReady (a : MemoryAllocator) (id : ℕ) (d : Device) (s : RegularState)
    (frames rest : List ℕ) : Type 0 where
  pub device : element id (a.devices) ≡ some d
  pub own : is_unified (d.device_type) ≡ false
  pub default : d.mem_state ≡ regular s
  pub available : s.available_p_addrs ≡ frames ++ rest
  pub located : All (λ x. device_id_by_p_addr (a.devices) x ≡ some id) frames

-- The device that an address is found on depends on the range of each memory only.
device_id_by_p_addr-set :
    (id : ℕ) (d new : Device) (p : ℕ) (devices : List (ℕ × Device))
    → element id devices ≡ some d
    → is_p_addr_on_device p (new.mem_state) ≡ is_p_addr_on_device p (d.mem_state)
    → device_id_by_p_addr (set_element id new devices) p ≡ device_id_by_p_addr devices p
unfolding element set_element device_id_by_p_addr
device_id_by_p_addr-set id d new p [] e same = refl
device_id_by_p_addr-set id d new p ((n, old) ∷ devices) e same = elim (Bool-cases (id == n)) [
  | inl h ↦
      let it : old ≡ d = cc (e, h) in
      rw h (
        ap (λ b. if b then some n else device_id_by_p_addr devices p)
          (same ∙ ap (λ (t : Device). is_p_addr_on_device p (t.mem_state)) (sym it)))
  | inr h ↦ rw h (
      ap (λ o. if is_p_addr_on_device p (old.mem_state) then some n else o)
        (device_id_by_p_addr-set id d new p devices (cc (e, h)) same))
]

-- The device after its first free page is taken.
abbrev pub used : Device → RegularState → List ℕ → Device
used d s left = with_mem_state d (regular (record s { available_p_addrs = left }))

pop_next_p_addr_lem :
    (s : RegularState) (x : ℕ) (left : List ℕ)
    → s.available_p_addrs ≡ x ∷ left
    → (no_available_p_addrs (regular s) ≡ false)
      × (pop_next_p_addr (regular s) ≡ some (x, regular (record s { available_p_addrs = left })))
unfolding no_available_p_addrs pop_next_p_addr pop_regular_p_addr
pop_next_p_addr_lem s x left h = (
  ap (λ xs. length xs == 0) h ∙ ground arith,
  ap
      (λ (xs : List ℕ).
        pop_regular_p_addr (record s { available_p_addrs = xs })
        >>= (λ (t : ℕ × RegularState). some (t.0, regular (t.1))))
      h,
)

allocate_page_lem :
    (depth id x : ℕ) (devices : List (ℕ × Device)) (d : Device) (s : RegularState) (left : List ℕ)
    → element id devices ≡ some d
    → is_unified (d.device_type) ≡ false
    → d.mem_state ≡ regular s
    → s.available_p_addrs ≡ x ∷ left
    → allocate_page (suc depth) devices id ≡ some (x, set_element id (used d s left) devices)
unfolding allocate_page allocate_own_page
allocate_page_lem depth id x devices d s left e own default h =
    let (some_left, popped) = pop_next_p_addr_lem s x left h in
    ap
      (λ o. o >>= (λ (d : Device).
        if is_unified (d.device_type) then shared d else allocate_own_page devices id d))
      e
    ∙ ap (λ b. if b then shared d else allocate_own_page devices id d) own
    ∙ ap (λ state. if no_available_p_addrs state then none else (pop_next_p_addr state >>= taken))
        default
    ∙ ap (λ b. if b then none else (pop_next_p_addr (regular s) >>= taken)) some_left
    ∙ ap (λ o. o >>= taken) popped
  where
    taken : ℕ × MemoryState → Option (ℕ × List (ℕ × Device))
    taken t = some (t.0, set_element id (with_mem_state d (t.1)) devices)

    shared : Device → Option (ℕ × List (ℕ × Device))
    shared d = select_gpu devices d (length (d.actual_gpus)) 0 none >>= (λ selected.
        selected >>= (λ gpu_id.
          allocate_page depth devices gpu_id
          >>= (λ t. step_gpu_index (t.1) id >>= (λ devices. some (t.0, devices)))))

module _ (a : MemoryAllocator) (id : ℕ) (d : Device) (s : RegularState) (x : ℕ)
    (frames rest : List ℕ) (r : IsReady a id d s (x ∷ frames) rest) where
  -- The allocator after the page at `v_addr` is mapped.
  abbrev pub one_mapped : (pid v_addr : ℕ) → Bool → MemoryAllocator
  one_mapped pid v_addr unified =
      map_page (record a { devices = set_element id (used d s (frames ++ rest)) (a.devices) })
        (new_page (a.log2_page_size) pid v_addr x id unified)

  same_owner :
      (p : ℕ)
      → device_id_by_p_addr (set_element id (used d s (frames ++ rest)) (a.devices)) p
        ≡ device_id_by_p_addr (a.devices) p
  unfolding is_p_addr_on_device initial_address_of storage_size_of
  same_owner p =
      device_id_by_p_addr-set id d (used d s (frames ++ rest)) p (a.devices) (r.device)
        (ap (λ state. is_p_addr_on_device p state) (sym (r.default)))

  All-same_owner :
      (xs : List ℕ)
      → All (λ p. device_id_by_p_addr (a.devices) p ≡ some id) xs
      → All
          (λ p.
            device_id_by_p_addr (set_element id (used d s (frames ++ rest)) (a.devices)) p
            ≡ some id)
          xs
  All-same_owner [] all = tt
  All-same_owner (p ∷ ps) (first, more) = (same_owner p ∙ first, All-same_owner ps more)

  pub allocate_next_lem :
      (pid v_addr : ℕ) (unified : Bool)
      → allocate_next a pid id v_addr unified
        ≡ some (new_page (a.log2_page_size) pid v_addr x id unified, one_mapped pid v_addr unified)
  unfolding allocate_next
  allocate_next_lem pid v_addr unified =
      ap (λ o. o >>= from_page)
        (allocate_page_lem (length (a.devices)) id x (a.devices) d s (frames ++ rest) (r.device)
          (r.own) (r.default) (r.available))
      ∙ ap (λ o. o >>= from_owner x (set_element id (used d s (frames ++ rest)) (a.devices)))
          (same_owner x ∙ r.located.0)
    where
      from_owner : ℕ → List (ℕ × Device) → ℕ → Option (Page × MemoryAllocator)
      from_owner p_addr devices owner =
          let page : Page = new_page (a.log2_page_size) pid v_addr p_addr owner unified in
          some (page, map_page (record a { devices = devices }) page)

      from_page : ℕ × List (ℕ × Device) → Option (Page × MemoryAllocator)
      from_page t = device_id_by_p_addr (t.1) (t.0) >>= from_owner (t.0) (t.1)

  pub one_mapped-IsReady :
      (pid v_addr : ℕ) (unified : Bool)
      → IsReady
          (one_mapped pid v_addr unified)
          id
          (used d s (frames ++ rest))
          (record s { available_p_addrs = frames ++ rest })
          frames
          rest
  one_mapped-IsReady pid v_addr unified = record {
    device = element-set_self id (used d s (frames ++ rest)) (a.devices) (r.device);
    own = r.own;
    default = refl;
    available = refl;
    located = All-same_owner frames (r.located.1);
  }
