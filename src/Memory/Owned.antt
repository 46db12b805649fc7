-- ===== src/Memory/Owned.antt =====
-- Where each page of the memory is over the operations of the allocator.
use sampled_mgpu_sim.Prelude.{ℕ, ◌<◌, ◌+◌, ◌≡◌, refl, sym, subst, some, List, [], ◌∷◌, arith}
use sampled_mgpu_sim.Prelude.{◌∙◌}
use sampled_mgpu_sim.Memory.Allocator.{
  MemoryAllocator, TableCall, remove_call, new_memory_allocator, register_device,
}
use sampled_mgpu_sim.Memory.Frames.{count}
use sampled_mgpu_sim.Memory.Ledger.{
  Ledger, empty_ledger, tell, tell_all, frame_at, drop_at, frames_of, count-drop_at,
  taken_frames-tell_all,
}
use sampled_mgpu_sim.Memory.Conserve.{IsDrawn, allocate-IsDrawn, allocate_unified-IsDrawn}
use sampled_mgpu_sim.Memory.Remap.{remap_bytes-IsDrawn, given_v_addr-IsDrawn, IsFreed, free-Freed}
use sampled_mgpu_sim.Memory.Reaches.{
  Reaches, IsOwned, start, by_register, by_allocate, by_allocate_unified, by_remap, by_given_v_addr,
  by_free,
}
use sampled_mgpu_sim.Memory.Brought.{registered, register_device_lem, IsOwned-registered}

IsOwned-allocated :
    (k : ℕ) (l : Ledger) (a new : MemoryAllocator) (calls : List TableCall)
    → IsOwned k l a
    → IsDrawn a new calls
    → IsOwned k (tell_all calls l) new
IsOwned-allocated k l a new calls owned step = record {
  regulars = step.taken.regulars;
  same_page = cc (step.same_page, owned.same_page);
  whole = (owned.whole.0, step.same_total ∙ owned.whole.1, owned.whole.2);
  once = λ x. rw (step.same_total) (
      omega (arith, step.taken.less x, owned.once x, taken_frames-tell_all x calls l (step.draws)));
}

IsOwned-freed :
    (k pid v_addr p_addr : ℕ) (l : Ledger) (a new : MemoryAllocator)
    → IsOwned k l a
    → frame_at pid v_addr (l.standing) ≡ p_addr ∷ []
    → IsFreed a new p_addr
    → IsOwned k (tell (remove_call pid v_addr) l) new
IsOwned-freed k pid v_addr p_addr l a new owned stands step = record {
  regulars = step.regulars;
  same_page = cc (step.same_page, owned.same_page);
  whole = (owned.whole.0, step.same_total ∙ owned.whole.1, owned.whole.2);
  once = λ x. rw (step.same_total) (omega (arith, step.given x, owned.once x, count-dropped x));
}
  where
    count-dropped :
        (x : ℕ)
        → count x (frames_of (drop_at pid v_addr (l.standing))) + count x (p_addr ∷ [])
          ≡ count x (frames_of (l.standing))
    count-dropped x =
        subst
          (λ xs.
            count x (frames_of (drop_at pid v_addr (l.standing))) + count x xs
            ≡ count x (frames_of (l.standing)))
          stands (count-drop_at x pid v_addr (l.standing))

IsOwned-start : (k : ℕ) → IsOwned k empty_ledger (new_memory_allocator k)
unfolding new_memory_allocator
IsOwned-start k = record {
  regulars = tt;
  same_page = refl;
  whole = (1, omega arith, omega arith);
  once = λ x. ground arith;
}

-- In each state that the operations reach from a new allocator of pages of 2 ^ k bytes, k < 64,
-- with devices of regular memory that is empty, of whole pages and new, where a page is freed only
-- while the page table has it with that frame: each page from the first one to the total of the
-- registered storage is exactly one of these, and once: free on a device, the frame of a page that
-- stands in the page table, or the frame of a page that `Remap` or `AllocatePageWithGivenVAddr`
-- replaced there. No other address is any of these, and no two pages that stand have the same
-- frame.
pub reached-IsOwned :
    (k : ℕ) {l : Ledger} {a : MemoryAllocator} → k < 64 → Reaches k l a → IsOwned k l a
reached-IsOwned k bound start = IsOwned-start k
reached-IsOwned k {l} bound (by_register {a = a} {new = new} r d s n h e) =
    let owned : IsOwned k l a = reached-IsOwned k bound r in
    let lem : register_device a d ≡ some (registered a d s n) =
      register_device_lem a d s n (subst (λ j. j < 64) (sym (owned.same_page)) bound) h in
    let same : registered a d s n ≡ new = cc (lem, e) in
    subst (IsOwned k l) same (IsOwned-registered k l a d s n bound owned h)
reached-IsOwned k bound (by_allocate {l = l} {a = a} {new = new} {calls = calls} r pid n id e) =
    let owned : IsOwned k l a = reached-IsOwned k bound r in
    IsOwned-allocated k l a new calls owned (allocate-IsDrawn a pid n id (owned.regulars) e)
reached-IsOwned k bound
      (by_allocate_unified {l = l} {a = a} {new = new} {calls = calls} r pid n e) =
    let owned : IsOwned k l a = reached-IsOwned k bound r in
    IsOwned-allocated k l a new calls owned (allocate_unified-IsDrawn a pid n (owned.regulars) e)
reached-IsOwned k bound (by_remap {l = l} {a = a} {new = new} {calls = calls} r pid v n id e) =
    let owned : IsOwned k l a = reached-IsOwned k bound r in
    IsOwned-allocated k l a new calls owned (remap_bytes-IsDrawn a pid v n id (owned.regulars) e)
reached-IsOwned k bound
      (by_given_v_addr {l = l} {a = a} {new = new} {calls = calls} r pid id v u e) =
    let owned : IsOwned k l a = reached-IsOwned k bound r in
    IsOwned-allocated k l a new calls owned (given_v_addr-IsDrawn a pid id v u (owned.regulars) e)
reached-IsOwned k bound (by_free {l = l} {a = a} {new = new} r page ptr mapped stands e) =
    let owned : IsOwned k l a = reached-IsOwned k bound r in
    let (freed, told) = free-Freed a ptr page (owned.regulars) mapped e in
    subst (λ calls. IsOwned k (tell_all calls l) new) (sym told)
      (IsOwned-freed k (page.pid) (page.v_addr) (page.p_addr) l a new owned stands freed)
