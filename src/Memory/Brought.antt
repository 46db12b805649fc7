-- ===== src/Memory/Brought.antt =====
-- Registering a device brings its pages.
use sampled_mgpu_sim.Prelude.{
  ℕ, ◌+◌, ◌*◌, ◌≤◌, ◌<◌, ◌≡◌, refl, sym, ap, ap₂, subst, Option, some, List, [], ◌∷◌, ◌++◌, arith,
  ◌>>=◌,
}
use native.Mathlib.Nat.{add-mul, mul-le-mul_right, mod-eq_of_lt}
use sampled_mgpu_sim.Prelude.{◌∙◌}
use sampled_mgpu_sim.Memory.{RegularState, add_u64, bytes_of_page, set_regular_address}
use sampled_mgpu_sim.Memory.Device.{
  MemoryState, regular, Device, set_initial_address, storage_size_of, with_mem_state,
}
use sampled_mgpu_sim.Memory.Allocator.{MemoryAllocator, register_device, put_device}
use sampled_mgpu_sim.Memory.Frames.{count, free_frames, frees, AllRegular, IsRegular}
use sampled_mgpu_sim.Memory.Register.{
  pages_at, is_page, count-pages_at, pos-bytes_of_page, set_regular_address_lem,
}
use sampled_mgpu_sim.Memory.Ledger.{Ledger, taken_frames}
use sampled_mgpu_sim.Memory.Reaches.{IsNew, IsOwned}

is_page-split :
    (p low more x : ℕ)
    → p ≤ low
    → is_page p p (low + more) x ≡ is_page p p low x + is_page p low (low + more) x
is_page-split p low more x h = ground arith

frees-append :
    (x id : ℕ) (d : Device) (devices : List (ℕ × Device))
    → frees x (devices ++ ((id, d) ∷ [])) ≡ frees x devices + count x (free_frames (d.mem_state))
frees-append x id d [] = omega arith
frees-append x id d ((n, e0) ∷ devices) = omega (arith, frees-append x id d devices)

AllRegular-append :
    (id : ℕ) (d : Device) (devices : List (ℕ × Device))
    → IsRegular (d.mem_state)
    → AllRegular devices
    → AllRegular (devices ++ ((id, d) ∷ []))
AllRegular-append id d [] r all = (r, tt)
AllRegular-append id d ((n, e0) ∷ devices) r (first, rest) =
    (first, AllRegular-append id d devices r rest)

module _ (a : MemoryAllocator) (d : Device) (s : RegularState) (n : ℕ) where
  -- The memory and the allocator after the device is registered.
  abbrev pub filled : RegularState
  filled = record s {
    initial_address = a.total_storage_byte_size;
    available_p_addrs = pages_at n (a.total_storage_byte_size) (bytes_of_page (s.log2_page_size));
  }

  abbrev pub registered : MemoryAllocator
  registered = record a {
    total_storage_byte_size = add_u64 (a.total_storage_byte_size) (s.storage_size);
    devices = a.devices ++ ((d.id, with_mem_state d (regular filled)) ∷ []);
  }

  pub register_device_lem :
      a.log2_page_size < 64 → IsNew a d s n → register_device a d ≡ some registered
  unfolding register_device set_initial_address storage_size_of put_device
  register_device_lem bound h =
      subst
        (λ state.
          (set_initial_address state (a.total_storage_byte_size) >>= done) ≡ some registered)
        (sym (h.default))
        (subst (λ o. ((o >>= (λ s1. some (regular s1))) >>= done) ≡ some registered) (sym set_whole)
          (ap
            (λ devices. some (record a {
              total_storage_byte_size = add_u64 (a.total_storage_byte_size) (s.storage_size);
              devices = devices;
            }))
            stored))
    where
      done : MemoryState → Option MemoryAllocator
      done state = some (record a {
        total_storage_byte_size = add_u64 (a.total_storage_byte_size) (storage_size_of state);
        devices = put_device (a.devices) (d.id) (with_mem_state d state);
      })

      set_whole : set_regular_address s (a.total_storage_byte_size) ≡ some filled
      set_whole =
          set_regular_address_lem s (a.total_storage_byte_size) n
            (subst (λ k. k < 64) (sym (h.same_page)) bound) (h.empty) (h.whole) (h.fits)

      stored :
          put_device (a.devices) (d.id) (with_mem_state d (regular filled))
          ≡ a.devices ++ ((d.id, with_mem_state d (regular filled)) ∷ [])
      stored = rw (h.unknown, put_device) refl

pub IsOwned-registered :
    (k : ℕ) (l : Ledger) (a : MemoryAllocator) (d : Device) (s : RegularState) (n : ℕ)
    → k < 64
    → IsOwned k l a
    → IsNew a d s n
    → IsOwned k l (registered a d s n)
IsOwned-registered k l a d s n bound owned h = record {
  regulars = AllRegular-append (d.id) new_device (a.devices) tt (owned.regulars);
  same_page = owned.same_page;
  whole = (m + n, total ∙ sym (add-mul m n p), omega (arith, owned.whole.2));
  once = λ x.
      subst
        (λ t. frees x (a.devices ++ ((d.id, new_device) ∷ [])) + taken_frames x l ≡ is_page p p t x)
        (sym total)
        (omega (
          arith,
          owned.once x,
          frees-append x (d.id) new_device (a.devices),
          brought x,
          is_page-split p (m * p) (n * p) x first,
          ap (λ t. is_page p p t x) (owned.whole.1),
        ));
}
  where
    p : ℕ
    p = bytes_of_page k

    m : ℕ
    m = owned.whole.0

    new_device : Device
    new_device = with_mem_state d (regular (filled a d s n))

    page : s.log2_page_size ≡ k
    page = h.same_page ∙ owned.same_page

    size : s.storage_size ≡ n * bytes_of_page k
    size = h.whole ∙ ap (λ j. n * bytes_of_page j) page

    total :
        add_u64 (a.total_storage_byte_size) (s.storage_size)
        ≡ owned.whole.0 * bytes_of_page k + n * bytes_of_page k
    total = mod-eq_of_lt (h.fits) ∙ ap₂ (λ t u. t + u) (owned.whole.1) size

    first : bytes_of_page k ≤ owned.whole.0 * bytes_of_page k
    first = omega (arith, mul-le-mul_right (bytes_of_page k) (owned.whole.2))

    brought :
        (x : ℕ)
        → count x (free_frames (regular (filled a d s n)))
          ≡ is_page
              (bytes_of_page k)
              (owned.whole.0 * bytes_of_page k)
              (owned.whole.0 * bytes_of_page k + n * bytes_of_page k)
              x
    brought x =
        ap₂ (λ t j. count x (pages_at n t (bytes_of_page j))) (owned.whole.1) page
        ∙ count-pages_at n (owned.whole.0) (bytes_of_page k) x (pos-bytes_of_page k bound)
