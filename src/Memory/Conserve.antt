-- ===== src/Memory/Conserve.antt =====
-- The frames that the allocator's operations take from the devices, and give back.
use sampled_mgpu_sim.Prelude.{
  ℕ, zero, suc, ◌*◌, ◌%◌, ◌^◌, ◌≡◌, refl, subst, Bool, true, false, some, List, [], ◌∷◌, arith,
  ◌>>=◌, length,
}
use sampled_mgpu_sim.Prelude.{>>=-eq-some}
use sampled_mgpu_sim.Prelude.Elements.{put}
use sampled_mgpu_sim.PageTable.{Page}
use sampled_mgpu_sim.Memory.{add_u64, bytes_of_page}
use sampled_mgpu_sim.Memory.Device.{Device, allocate_page}
use sampled_mgpu_sim.Memory.Allocator.{
  MemoryAllocator, TableCall, insert_call, new_page, map_page, device_id_by_p_addr, process_state,
  num_pages_of, allocate_next, map_pages, allocate_pages, allocate, allocate_unified,
}
use sampled_mgpu_sim.Memory.Frames.{AllRegular, IsTaken}
use sampled_mgpu_sim.Memory.Ledger.{AllDraws, frames}
use sampled_mgpu_sim.Memory.Take.{allocate_page-Taken}

-- `new` has the frames of `old` less those of the calls, each of which puts a page into the table, and
-- the same bytes of storage.
pub record IsDrawn (old new : MemoryAllocator) (calls : List TableCall) : Type 0 where
  pub taken : IsTaken (old.devices) (new.devices) (frames calls)
  pub draws : AllDraws calls
  pub same_total : new.total_storage_byte_size ≡ old.total_storage_byte_size
  pub same_page : new.log2_page_size ≡ old.log2_page_size

-- A result of one page.
abbrev TakesPage : MemoryAllocator → Page × MemoryAllocator → Type 0
TakesPage a t = IsDrawn a (t.1) (insert_call (t.0) ∷ [])

allocate_next-TakesPage :
    (a : MemoryAllocator) (pid device_id v_addr : ℕ) (unified : Bool) {r : Page × MemoryAllocator}
    → AllRegular (a.devices)
    → allocate_next a pid device_id v_addr unified ≡ some r
    → TakesPage a r
unfolding allocate_next
allocate_next-TakesPage a pid device_id v_addr unified {r} all e =
    let page : ℕ → ℕ → Page =
      λ p_addr owner. new_page (a.log2_page_size) pid v_addr p_addr owner unified in
    let (t, allocated, e1) =
      >>=-eq-some (allocate_page (suc (length (a.devices))) (a.devices) device_id)
        (λ (t : ℕ × List (ℕ × Device)). device_id_by_p_addr (t.1) (t.0) >>= (λ owner.
          some (page (t.0) owner, map_page (record a { devices = t.1 }) (page (t.0) owner))))
        e in
    let (owner, owned, last) =
      >>=-eq-some (device_id_by_p_addr (t.1) (t.0))
        (λ owner. some (page (t.0) owner, map_page (record a { devices = t.1 }) (page (t.0) owner)))
        e1 in
    let same : (page (t.0) owner, map_page (record a { devices = t.1 }) (page (t.0) owner)) ≡ r =
      cc last in
    subst (λ (r : Page × MemoryAllocator). TakesPage a r) same
      (record {
        taken = allocate_page-Taken (suc (length (a.devices))) (a.devices) device_id all allocated;
        draws = tt;
        same_total = refl;
        same_page = refl;
      })

map_pages-IsDrawn :
    (n i : ℕ) (a : MemoryAllocator) (pid device_id first : ℕ) (unified : Bool)
    {r : MemoryAllocator × List TableCall}
    → AllRegular (a.devices)
    → map_pages n i a pid device_id first unified ≡ some r
    → IsDrawn a (r.0) (r.1)
unfolding map_pages
map_pages-IsDrawn zero i a pid device_id first unified {r} all e =
    let same : (a, []) ≡ r = cc e in
    subst (λ (r : MemoryAllocator × List TableCall). IsDrawn a (r.0) (r.1)) same
      (record {
        taken = record { regulars = all; less = λ x. omega arith };
        draws = tt;
        same_total = refl;
        same_page = refl;
      })
map_pages-IsDrawn (suc n) i a pid device_id first unified {r} all e =
    let (t, h, e1) =
      >>=-eq-some
        (allocate_next a pid device_id
          (add_u64 first (i * bytes_of_page (a.log2_page_size) % 2 ^ 64)) unified)
        (λ (t : Page × MemoryAllocator).
          map_pages n (suc i) (t.1) pid device_id first unified
          >>= (λ (u : MemoryAllocator × List TableCall). some (u.0, insert_call (t.0) ∷ (u.1))))
        e in
    let (u, rest, last) =
      >>=-eq-some (map_pages n (suc i) (t.1) pid device_id first unified)
        (λ (u : MemoryAllocator × List TableCall). some (u.0, insert_call (t.0) ∷ (u.1))) e1 in
    let same : (u.0, insert_call (t.0) ∷ (u.1)) ≡ r = cc last in
    let one : TakesPage a t = allocate_next-TakesPage a pid device_id _ unified all h in
    let more : IsDrawn (t.1) (u.0) (u.1) =
      map_pages-IsDrawn n (suc i) (t.1) pid device_id first unified (one.taken.regulars) rest in
    subst (λ (r : MemoryAllocator × List TableCall). IsDrawn a (r.0) (r.1)) same
      (record {
        taken = record {
          regulars = more.taken.regulars;
          less = λ x. omega (arith, one.taken.less x, more.taken.less x);
        };
        draws = more.draws;
        same_total = cc (one.same_total, more.same_total);
        same_page = cc (one.same_page, more.same_page);
      })

allocate_pages-IsDrawn :
    (a : MemoryAllocator) (n pid device_id : ℕ) (unified : Bool)
    {r : ℕ × MemoryAllocator × List TableCall}
    → AllRegular (a.devices)
    → allocate_pages a n pid device_id unified ≡ some r
    → IsDrawn a (r.1) (r.2)
unfolding allocate_pages
allocate_pages-IsDrawn a n pid device_id unified {r} all e =
    let first = (process_state a pid).next_v_addr in
    let finish : MemoryAllocator → MemoryAllocator = λ a1. record a1 {
      process_memory_states = put (a1.process_memory_states) pid (
          some (record (process_state a pid) {
            next_v_addr = add_u64 first (bytes_of_page (a.log2_page_size) * n % 2 ^ 64);
          }));
    } in
    let (t, h, last) =
      >>=-eq-some (map_pages n 0 a pid device_id first unified)
        (λ (t : MemoryAllocator × List TableCall). some (first, finish (t.0), t.1)) e in
    let same : (first, finish (t.0), t.1) ≡ r = cc last in
    let one : IsDrawn a (t.0) (t.1) = map_pages-IsDrawn n 0 a pid device_id first unified all h in
    subst (λ (r : ℕ × MemoryAllocator × List TableCall). IsDrawn a (r.1) (r.2)) same
      (record {
        taken = one.taken;
        draws = one.draws;
        same_total = one.same_total;
        same_page = one.same_page;
      })

pub allocate-IsDrawn :
    (a : MemoryAllocator) (pid byte_size device_id : ℕ) {r : ℕ × MemoryAllocator × List TableCall}
    → AllRegular (a.devices)
    → allocate a pid byte_size device_id ≡ some r
    → IsDrawn a (r.1) (r.2)
unfolding allocate
allocate-IsDrawn a pid byte_size device_id all e =
    let (n, h, last) =
      >>=-eq-some (num_pages_of a byte_size) (λ n. allocate_pages a n pid device_id false) e in
    allocate_pages-IsDrawn a n pid device_id false all last

pub allocate_unified-IsDrawn :
    (a : MemoryAllocator) (pid byte_size : ℕ) {r : ℕ × MemoryAllocator × List TableCall}
    → AllRegular (a.devices)
    → allocate_unified a pid byte_size ≡ some r
    → IsDrawn a (r.1) (r.2)
unfolding allocate_unified
allocate_unified-IsDrawn a pid byte_size all e =
    let (n, h, last) =
      >>=-eq-some (num_pages_of a byte_size) (λ n. allocate_pages a n pid 1 true) e in
    allocate_pages-IsDrawn a n pid 1 true all last
