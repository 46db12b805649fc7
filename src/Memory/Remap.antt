-- ===== src/Memory/Remap.antt =====
-- The frames that the operations on given virtual addresses take from the devices, and those that
-- freeing gives back.
use sampled_mgpu_sim.Prelude.{
  ℕ, suc, ◌+◌, ◌-◌, ◌≡◌, refl, ap, subst, Bool, false, some, List, [], ◌∷◌, arith, ◌>>=◌, length,
}
use sampled_mgpu_sim.Prelude.{>>=-eq-some}
use sampled_mgpu_sim.PageTable.{Page}
use sampled_mgpu_sim.Memory.{add_u64, bytes_of_page}
use sampled_mgpu_sim.Memory.Device.{Device, allocate_page, allocate_multiple_pages}
use sampled_mgpu_sim.Memory.Allocator.{
  MemoryAllocator, TableCall, update_call, remove_call, new_page, map_page, page_v_addrs,
  remap_pages, allocate_multiple_pages_with_given_v_addrs, remap_bytes,
  allocate_page_with_given_v_addr, return_page, free,
}
use sampled_mgpu_sim.Memory.Frames.{count, frees, AllRegular}
use sampled_mgpu_sim.Memory.Take.{allocate_page-Taken}
use sampled_mgpu_sim.Memory.TakeMany.{allocate_multiple_pages-Taken, return_page-Given}
use sampled_mgpu_sim.Memory.Conserve.{IsDrawn}
use sampled_mgpu_sim.Memory.Ledger.{AllDraws, frames}

remap_pages-frames :
    (a : MemoryAllocator) (pid device_id : ℕ) (unified : Bool) (v_addrs p_addrs : List ℕ)
    {r : List Page × MemoryAllocator × List TableCall}
    → length p_addrs ≡ length v_addrs
    → remap_pages a pid device_id unified v_addrs p_addrs ≡ some r
    → (frames (r.2) ≡ p_addrs)
      × AllDraws (r.2)
      × (r.1.devices ≡ a.devices)
      × (r.1.total_storage_byte_size ≡ a.total_storage_byte_size)
      × (r.1.log2_page_size ≡ a.log2_page_size)
unfolding remap_pages
remap_pages-frames a pid device_id unified [] [] {r} same_length e =
    let same : ([], a, []) ≡ r = cc e in
    subst
      (λ (r : List Page × MemoryAllocator × List TableCall).
        (frames (r.2) ≡ [])
        × AllDraws (r.2)
        × (r.1.devices ≡ a.devices)
        × (r.1.total_storage_byte_size ≡ a.total_storage_byte_size)
        × (r.1.log2_page_size ≡ a.log2_page_size))
      same (refl, tt, refl, refl, refl)
remap_pages-frames a pid device_id unified [] (p ∷ ps) same_length e = absurd (omega arith)
remap_pages-frames a pid device_id unified (v ∷ vs) [] same_length e = ground arith
remap_pages-frames a pid device_id unified (v ∷ vs) (p ∷ ps) {r} same_length e =
    let page : Page = new_page (a.log2_page_size) pid v p device_id unified in
    let (t, h, last) =
      >>=-eq-some (remap_pages (map_page a page) pid device_id unified vs ps)
        (λ (t : List Page × MemoryAllocator × List TableCall).
          some (page ∷ t.0, t.1, update_call page ∷ t.2))
        e in
    let same : (page ∷ t.0, t.1, update_call page ∷ t.2) ≡ r = cc last in
    let (told, drawn, kept, total, size) =
      remap_pages-frames (map_page a page) pid device_id unified vs ps (omega arith) h in
    subst
      (λ (r : List Page × MemoryAllocator × List TableCall).
        (frames (r.2) ≡ p ∷ ps)
        × AllDraws (r.2)
        × (r.1.devices ≡ a.devices)
        × (r.1.total_storage_byte_size ≡ a.total_storage_byte_size)
        × (r.1.log2_page_size ≡ a.log2_page_size))
      same (ap (λ xs. p ∷ xs) told, drawn, kept, total, size)

given_v_addrs-IsDrawn :
    (a : MemoryAllocator) (pid device_id : ℕ) (v_addrs : List ℕ) (unified : Bool)
    {r : List Page × MemoryAllocator × List TableCall}
    → AllRegular (a.devices)
    → allocate_multiple_pages_with_given_v_addrs a pid device_id v_addrs unified ≡ some r
    → IsDrawn a (r.1) (r.2)
unfolding allocate_multiple_pages_with_given_v_addrs
given_v_addrs-IsDrawn a pid device_id v_addrs unified {r} all e =
    let (t, h, last) =
      >>=-eq-some
        (allocate_multiple_pages (suc (length (a.devices))) (length v_addrs) (a.devices) device_id)
        (λ (t : List ℕ × List (ℕ × Device)).
          remap_pages (record a { devices = t.1 }) pid device_id unified v_addrs (t.0))
        e in
    let (taken, size) =
      allocate_multiple_pages-Taken (suc (length (a.devices))) (length v_addrs) (a.devices)
        device_id all h in
    let (told, drawn, kept, total, page) =
      remap_pages-frames (record a { devices = t.1 }) pid device_id unified v_addrs (t.0) size
        last in
    record { taken = rw (told, kept) taken; draws = drawn; same_total = total; same_page = page }

pub remap_bytes-IsDrawn :
    (a : MemoryAllocator) (pid page_v_addr byte_size device_id : ℕ)
    {r : MemoryAllocator × List TableCall}
    → AllRegular (a.devices)
    → remap_bytes a pid page_v_addr byte_size device_id ≡ some r
    → IsDrawn a (r.0) (r.1)
unfolding remap_bytes
remap_bytes-IsDrawn a pid page_v_addr byte_size device_id {r} all e =
    let (v_addrs, listed, e1) =
      >>=-eq-some
        (page_v_addrs (suc (add_u64 page_v_addr byte_size - page_v_addr)) page_v_addr
          (add_u64 page_v_addr byte_size) (bytes_of_page (a.log2_page_size)))
        (λ v_addrs.
          allocate_multiple_pages_with_given_v_addrs a pid device_id v_addrs false
          >>= (λ (t : List Page × MemoryAllocator × List TableCall). some (t.1, t.2)))
        e in
    let (t, h, last) =
      >>=-eq-some (allocate_multiple_pages_with_given_v_addrs a pid device_id v_addrs false)
        (λ (t : List Page × MemoryAllocator × List TableCall). some (t.1, t.2)) e1 in
    let same : (t.1, t.2) ≡ r = cc last in
    subst (λ (r : MemoryAllocator × List TableCall). IsDrawn a (r.0) (r.1)) same
      (given_v_addrs-IsDrawn a pid device_id v_addrs false all h)

pub given_v_addr-IsDrawn :
    (a : MemoryAllocator) (pid device_id v_addr : ℕ) (unified : Bool)
    {r : Page × MemoryAllocator × List TableCall}
    → AllRegular (a.devices)
    → allocate_page_with_given_v_addr a pid device_id v_addr unified ≡ some r
    → IsDrawn a (r.1) (r.2)
unfolding allocate_page_with_given_v_addr
given_v_addr-IsDrawn a pid device_id v_addr unified {r} all e =
    let page : ℕ → Page = λ p. new_page (a.log2_page_size) pid v_addr p device_id unified in
    let (t, h, last) =
      >>=-eq-some (allocate_page (suc (length (a.devices))) (a.devices) device_id)
        (λ (t : ℕ × List (ℕ × Device)). some (
          page (t.0),
          map_page (record a { devices = t.1 }) (page (t.0)),
          update_call (page (t.0)) ∷ [],
        ))
        e in
    let same : (
      page (t.0),
      map_page (record a { devices = t.1 }) (page (t.0)),
      update_call (page (t.0)) ∷ [],
    )
        ≡ r =
      cc last in
    subst (λ (r : Page × MemoryAllocator × List TableCall). IsDrawn a (r.1) (r.2)) same
      (record {
        taken = allocate_page-Taken (suc (length (a.devices))) (a.devices) device_id all h;
        draws = tt;
        same_total = refl;
        same_page = refl;
      })

-- The frame of the freed page is free once more; nothing else of the devices' frames changes.
pub record IsFreed (a new : MemoryAllocator) (p_addr : ℕ) : Type 0 where
  pub regulars : AllRegular (new.devices)
  pub given : (x : ℕ) → frees x (new.devices) ≡ frees x (a.devices) + count x (p_addr ∷ [])
  pub same_total : new.total_storage_byte_size ≡ a.total_storage_byte_size
  pub same_page : new.log2_page_size ≡ a.log2_page_size

pub free-Freed :
    (a : MemoryAllocator) (ptr : ℕ) (page : Page) {r : MemoryAllocator × List TableCall}
    → AllRegular (a.devices)
    → a.v_addr_to_page_mapping ptr ≡ some page
    → free a ptr ≡ some r
    → IsFreed a (r.0) (page.p_addr) × (r.1 ≡ remove_call (page.pid) (page.v_addr) ∷ [])
unfolding free
free-Freed a ptr page {r} all mapped e =
    let found : (some page >>= (λ (page : Page).
      return_page (a.devices) (page.p_addr) >>= (λ devices.
        some (record a { devices = devices }, remove_call (page.pid) (page.v_addr) ∷ []))))
        ≡ some r =
      subst
        (λ o.
          (o >>= (λ (page : Page). return_page (a.devices) (page.p_addr) >>= (λ devices.
            some (record a { devices = devices }, remove_call (page.pid) (page.v_addr) ∷ []))))
          ≡ some r)
        mapped e in
    let (devices, h, last) =
      >>=-eq-some (return_page (a.devices) (page.p_addr))
        (λ devices.
          some (record a { devices = devices }, remove_call (page.pid) (page.v_addr) ∷ []))
        found in
    let same : (record a { devices = devices }, remove_call (page.pid) (page.v_addr) ∷ []) ≡ r =
      cc last in
    let (regulars, given) = return_page-Given (a.devices) (page.p_addr) all h in
    subst
      (λ (r : MemoryAllocator × List TableCall).
        IsFreed a (r.0) (page.p_addr) × (r.1 ≡ remove_call (page.pid) (page.v_addr) ∷ []))
      same
      (record { regulars = regulars; given = given; same_total = refl; same_page = refl }, refl)
