-- ===== src/Memory/Take.antt =====
-- The frames that the devices' operations take from the free ones, and give back.
use sampled_mgpu_sim.Prelude.{
  ℕ, zero, suc, ◌+◌, ◌%◌, ◌≡◌, subst, inl, inr, Option, none, some, List, [], ◌∷◌, ◌++◌, arith,
  if◌then◌else◌, Bool-cases, ◌>>=◌, length,
}
use sampled_mgpu_sim.Prelude.{>>=-eq-some}
use sampled_mgpu_sim.Prelude.Elements.{element, set_element}
use sampled_mgpu_sim.Memory.Device.{
  Device, allocate_page, allocate_own_page, pop_next_p_addr, no_available_p_addrs, step_gpu_index,
  with_mem_state, is_unified, select_gpu,
}
use sampled_mgpu_sim.Memory.Frames.{
  count-append, AllRegular, IsTaken, AllRegular-element, IsTaken-set, pop_next_p_addr-Taken,
}

-- A change of a device that keeps its memory.
pub IsTaken-step_index :
    (id : ℕ) (devices : List (ℕ × Device)) {new : List (ℕ × Device)}
    → AllRegular devices
    → step_gpu_index devices id ≡ some new
    → IsTaken devices new []
unfolding step_gpu_index
IsTaken-step_index id devices {new} all e =
    let (d, h, last) =
      >>=-eq-some (element id devices)
        (λ (d : Device). some (
          set_element id
            (record d {
              next_actual_gpu_index = (d.next_actual_gpu_index + 1) % length (d.actual_gpus);
            })
            devices))
        e in
    let stepped : Device = record d {
      next_actual_gpu_index = (d.next_actual_gpu_index + 1) % length (d.actual_gpus);
    } in
    let same : set_element id stepped devices ≡ new = cc last in
    subst (λ t. IsTaken devices t []) same
      (IsTaken-set id d stepped devices [] all h (AllRegular-element id devices all h)
        (λ x. omega arith))

pub IsTaken-trans :
    (old mid new : List (ℕ × Device)) (first second : List ℕ)
    → IsTaken old mid first
    → IsTaken mid new second
    → IsTaken old new (second ++ first)
IsTaken-trans old mid new first second t1 t2 = record {
  regulars = t2.regulars;
  less = λ x. omega (arith, t1.less x, t2.less x, count-append x second first);
}

allocate_own_page-Taken :
    (devices : List (ℕ × Device)) (id : ℕ) (d : Device) {r : ℕ × List (ℕ × Device)}
    → AllRegular devices
    → element id devices ≡ some d
    → allocate_own_page devices id d ≡ some r
    → IsTaken devices (r.1) (r.0 ∷ [])
unfolding allocate_own_page
allocate_own_page-Taken devices id d {r} all h e =
    elim (Bool-cases (no_available_p_addrs (d.mem_state))) [
      | inl full ↦ cc (e, full)
      | inr left ↦
          let allocated : (pop_next_p_addr (d.mem_state)
                >>= (λ t. some (t.0, set_element id (with_mem_state d (t.1)) devices)))
              ≡ some r =
            subst
              (λ b.
                (if b
                  then none
                  else (pop_next_p_addr (d.mem_state)
                      >>= (λ t. some (t.0, set_element id (with_mem_state d (t.1)) devices))))
                ≡ some r)
              left e in
          let (t, popped, last) =
            >>=-eq-some (pop_next_p_addr (d.mem_state))
              (λ t. some (t.0, set_element id (with_mem_state d (t.1)) devices)) allocated in
          let same : (t.0, set_element id (with_mem_state d (t.1)) devices) ≡ r = cc last in
          let (regulars, less) =
            pop_next_p_addr-Taken (d.mem_state) (AllRegular-element id devices all h) popped in
          subst (λ (t : ℕ × List (ℕ × Device)). IsTaken devices (t.1) (t.0 ∷ [])) same
            (IsTaken-set id d (with_mem_state d (t.1)) devices (t.0 ∷ []) all h regulars less)
    ]

abbrev finish_page : ℕ → (ℕ × List (ℕ × Device)) → Option (ℕ × List (ℕ × Device))
finish_page id t = step_gpu_index (t.1) id >>= (λ devices. some (t.0, devices))

abbrev unified_page :
    (depth : ℕ) → List (ℕ × Device) → (id : ℕ) → Device → Option (ℕ × List (ℕ × Device))
unified_page depth devices id d =
    select_gpu devices d (length (d.actual_gpus)) 0 none
    >>= (λ selected. selected >>= (λ gpu_id. allocate_page depth devices gpu_id >>= finish_page id))

IsTaken-finish :
    (devices : List (ℕ × Device)) (id : ℕ) (t : ℕ × List (ℕ × Device)) {r : ℕ × List (ℕ × Device)}
    → IsTaken devices (t.1) (t.0 ∷ [])
    → finish_page id t ≡ some r
    → IsTaken devices (r.1) (r.0 ∷ [])
IsTaken-finish devices id t {r} taken e =
    let (new, stepped, last) =
      >>=-eq-some (step_gpu_index (t.1) id) (λ devices. some (t.0, devices)) e in
    let same : (t.0, new) ≡ r = cc last in
    subst (λ (r : ℕ × List (ℕ × Device)). IsTaken devices (r.1) (r.0 ∷ [])) same
      (IsTaken-trans devices (t.1) new (t.0 ∷ []) [] taken
        (IsTaken-step_index id (t.1) (taken.regulars) stepped))

pub allocate_page-Taken :
    (depth : ℕ) (devices : List (ℕ × Device)) (id : ℕ) {r : ℕ × List (ℕ × Device)}
    → AllRegular devices
    → allocate_page depth devices id ≡ some r
    → IsTaken devices (r.1) (r.0 ∷ [])
unfolding allocate_page
allocate_page-Taken zero devices id all e = ground arith
allocate_page-Taken (suc depth) devices id {r} all e =
    let (d, h, branch) =
      >>=-eq-some (element id devices)
        (λ (d : Device).
          if is_unified (d.device_type)
          then unified_page depth devices id d
          else allocate_own_page devices id d)
        e in
    elim (Bool-cases (is_unified (d.device_type))) [
      | inr own ↦
          let allocated : allocate_own_page devices id d ≡ some r =
            subst
              (λ b.
                (if b then unified_page depth devices id d else allocate_own_page devices id d)
                ≡ some r)
              own branch in
          allocate_own_page-Taken devices id d all h allocated
      | inl shared ↦
          let allocated : unified_page depth devices id d ≡ some r =
            subst
              (λ b.
                (if b then unified_page depth devices id d else allocate_own_page devices id d)
                ≡ some r)
              shared branch in
          let (selected, found, e1) =
            >>=-eq-some (select_gpu devices d (length (d.actual_gpus)) 0 none)
              (λ selected.
                selected >>= (λ gpu_id. allocate_page depth devices gpu_id >>= finish_page id))
              allocated in
          let (gpu_id, is_some, e2) =
            >>=-eq-some selected (λ gpu_id. allocate_page depth devices gpu_id >>= finish_page id)
              e1 in
          let (t, inner, e3) =
            >>=-eq-some (allocate_page depth devices gpu_id) (finish_page id) e2 in
          IsTaken-finish devices id t (allocate_page-Taken depth devices gpu_id all inner) e3
    ]
