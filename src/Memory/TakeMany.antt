-- ===== src/Memory/TakeMany.antt =====
-- The frames that an allocation of several pages takes, and the frame that is given back.
use sampled_mgpu_sim.Prelude.{
  ℕ, zero, suc, ◌+◌, ◌≡◌, subst, inl, inr, Option, none, some, List, [], ◌∷◌, ◌++◌, arith,
  if◌then◌else◌, Bool-cases, ◌>>=◌, length, get_elem?,
}
use sampled_mgpu_sim.Prelude.{>>=-eq-some}
use sampled_mgpu_sim.Prelude.Elements.{element, set_element}
use sampled_mgpu_sim.Memory.{add_regular_p_addr}
use sampled_mgpu_sim.Memory.Device.{
  MemoryState, regular, buddy, Device, allocate_own_pages, no_available_p_addrs,
  allocate_multiple_pages, step_gpu_index, with_mem_state, add_single_p_addr, allocate_state_pages,
  is_unified,
}
use sampled_mgpu_sim.Memory.Allocator.{device_id_by_p_addr, return_page}
use sampled_mgpu_sim.Memory.Frames.{
  count, count-append, free_frames, IsRegular, frees, AllRegular, IsTaken, frees-set,
  AllRegular-set, AllRegular-element, IsTaken-set, allocate_state_pages-Taken,
}
use sampled_mgpu_sim.Memory.Take.{IsTaken-step_index, IsTaken-trans}

abbrev pub TakesPages : ℕ → List (ℕ × Device) → List ℕ × List (ℕ × Device) → Type 0
TakesPages n devices t = IsTaken devices (t.1) (t.0) × (length (t.0) ≡ n)

allocate_own_pages-Taken :
    (n : ℕ) (devices : List (ℕ × Device)) (id : ℕ) (d : Device) {r : List ℕ × List (ℕ × Device)}
    → AllRegular devices
    → element id devices ≡ some d
    → allocate_own_pages n devices id d ≡ some r
    → TakesPages n devices r
unfolding allocate_own_pages
allocate_own_pages-Taken n devices id d {r} all h e =
    elim (Bool-cases (no_available_p_addrs (d.mem_state))) [
      | inl full ↦ cc (e, full)
      | inr left ↦
          let allocated : (allocate_state_pages n (d.mem_state)
                >>= (λ t. some (t.0, set_element id (with_mem_state d (t.1)) devices)))
              ≡ some r =
            subst
              (λ b.
                (if b
                  then none
                  else (allocate_state_pages n (d.mem_state)
                      >>= (λ t. some (t.0, set_element id (with_mem_state d (t.1)) devices))))
                ≡ some r)
              left e in
          let (t, popped, last) =
            >>=-eq-some (allocate_state_pages n (d.mem_state))
              (λ t. some (t.0, set_element id (with_mem_state d (t.1)) devices)) allocated in
          let same : (t.0, set_element id (with_mem_state d (t.1)) devices) ≡ r = cc last in
          let (regulars, less, size) =
            allocate_state_pages-Taken n (d.mem_state) (AllRegular-element id devices all h)
              popped in
          subst (TakesPages n devices) same
            (IsTaken-set id d (with_mem_state d (t.1)) devices (t.0) all h regulars less, size)
    ]

abbrev finish_pages : ℕ → (List ℕ × List (ℕ × Device)) → Option (List ℕ × List (ℕ × Device))
finish_pages id t = step_gpu_index (t.1) id >>= (λ devices. some (t.0, devices))

abbrev unified_pages :
    (depth n : ℕ) → List (ℕ × Device) → (id : ℕ) → Device → Option (List ℕ × List (ℕ × Device))
unified_pages depth n devices id d =
    get_elem? (d.actual_gpus) (d.next_actual_gpu_index)
    >>= (λ gpu_id. allocate_multiple_pages depth n devices gpu_id >>= finish_pages id)

IsTaken-finish_pages :
    (n : ℕ) (devices : List (ℕ × Device)) (id : ℕ) (t : List ℕ × List (ℕ × Device))
    {r : List ℕ × List (ℕ × Device)}
    → TakesPages n devices t
    → finish_pages id t ≡ some r
    → TakesPages n devices r
IsTaken-finish_pages n devices id t {r} (taken, size) e =
    let (new, stepped, last) =
      >>=-eq-some (step_gpu_index (t.1) id) (λ devices. some (t.0, devices)) e in
    let same : (t.0, new) ≡ r = cc last in
    subst (TakesPages n devices) same (
      IsTaken-trans devices (t.1) new (t.0) [] taken
          (IsTaken-step_index id (t.1) (taken.regulars) stepped),
      size,
    )

pub allocate_multiple_pages-Taken :
    (depth n : ℕ) (devices : List (ℕ × Device)) (id : ℕ) {r : List ℕ × List (ℕ × Device)}
    → AllRegular devices
    → allocate_multiple_pages depth n devices id ≡ some r
    → TakesPages n devices r
unfolding allocate_multiple_pages
allocate_multiple_pages-Taken zero n devices id all e = ground arith
allocate_multiple_pages-Taken (suc depth) n devices id {r} all e =
    let (d, h, branch) =
      >>=-eq-some (element id devices)
        (λ (d : Device).
          if is_unified (d.device_type)
          then unified_pages depth n devices id d
          else allocate_own_pages n devices id d)
        e in
    elim (Bool-cases (is_unified (d.device_type))) [
      | inr own ↦
          let allocated : allocate_own_pages n devices id d ≡ some r =
            subst
              (λ b.
                (if b
                  then unified_pages depth n devices id d
                  else allocate_own_pages n devices id d)
                ≡ some r)
              own branch in
          allocate_own_pages-Taken n devices id d all h allocated
      | inl shared ↦
          let allocated : unified_pages depth n devices id d ≡ some r =
            subst
              (λ b.
                (if b
                  then unified_pages depth n devices id d
                  else allocate_own_pages n devices id d)
                ≡ some r)
              shared branch in
          let (gpu_id, found, e1) =
            >>=-eq-some (get_elem? (d.actual_gpus) (d.next_actual_gpu_index))
              (λ gpu_id. allocate_multiple_pages depth n devices gpu_id >>= finish_pages id)
              allocated in
          let (t, inner, e2) =
            >>=-eq-some (allocate_multiple_pages depth n devices gpu_id) (finish_pages id) e1 in
          IsTaken-finish_pages n devices id t
            (allocate_multiple_pages-Taken depth n devices gpu_id all inner) e2
    ]

add_single_p_addr-Given :
    (p_addr : ℕ) (state : MemoryState) {new : MemoryState}
    → IsRegular state
    → add_single_p_addr state p_addr ≡ some new
    → IsRegular new
      × ((x : ℕ) → count x (free_frames new) ≡ count x (free_frames state) + count x (p_addr ∷ []))
unfolding add_single_p_addr add_regular_p_addr
add_single_p_addr-Given p_addr (buddy s) {new} r e = absurd r
add_single_p_addr-Given p_addr (regular s) {new} r e =
    let same : regular (record s { available_p_addrs = s.available_p_addrs ++ (p_addr ∷ []) })
        ≡ new =
      cc e in
    subst
      (λ (t : MemoryState).
        IsRegular t
        × ((x : ℕ)
            → count x (free_frames t) ≡ count x (s.available_p_addrs) + count x (p_addr ∷ [])))
      same (tt, λ x. count-append x (s.available_p_addrs) (p_addr ∷ []))

-- A frame that is given back is free once more.
pub return_page-Given :
    (devices : List (ℕ × Device)) (p_addr : ℕ) {new : List (ℕ × Device)}
    → AllRegular devices
    → return_page devices p_addr ≡ some new
    → AllRegular new × ((x : ℕ) → frees x new ≡ frees x devices + count x (p_addr ∷ []))
unfolding return_page
return_page-Given devices p_addr {new} all e =
    let (id, owned, e1) =
      >>=-eq-some (device_id_by_p_addr devices p_addr)
        (λ id. element id devices >>= (λ (d : Device).
          add_single_p_addr (d.mem_state) p_addr
          >>= (λ state. some (set_element id (with_mem_state d state) devices))))
        e in
    let (d, h, e2) =
      >>=-eq-some (element id devices)
        (λ (d : Device).
          add_single_p_addr (d.mem_state) p_addr
          >>= (λ state. some (set_element id (with_mem_state d state) devices)))
        e1 in
    let (state, added, last) =
      >>=-eq-some (add_single_p_addr (d.mem_state) p_addr)
        (λ state. some (set_element id (with_mem_state d state) devices)) e2 in
    let same : set_element id (with_mem_state d state) devices ≡ new = cc last in
    let (regulars, more) =
      add_single_p_addr-Given p_addr (d.mem_state) (AllRegular-element id devices all h) added in
    subst
      (λ (t : List (ℕ × Device)).
        AllRegular t × ((x : ℕ) → frees x t ≡ frees x devices + count x (p_addr ∷ [])))
      same
      (
        AllRegular-set id d (with_mem_state d state) devices regulars all,
        λ x. omega (arith, frees-set id d (with_mem_state d state) x devices h, more x),
      )
