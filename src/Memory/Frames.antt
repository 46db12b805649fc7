-- ===== src/Memory/Frames.antt =====
-- How often a frame is free, over the devices and through what the devices do.
use sampled_mgpu_sim.Prelude.{
  ℕ, zero, suc, ◌+◌, ◌≡◌, refl, ap, subst, inl, inr, some, List, [], ◌∷◌, ◌++◌, arith, ◌==◌,
  if◌then◌else◌, Bool-cases, length, All,
}
use sampled_mgpu_sim.Prelude.{>>=-eq-some}
use sampled_mgpu_sim.Prelude.Elements.{element, set_element}
use sampled_mgpu_sim.Memory.{RegularState, pop_regular_p_addr, allocate_regular_pages}
use sampled_mgpu_sim.Memory.Device.{
  MemoryState, regular, buddy, Device, pop_next_p_addr, allocate_state_pages,
}

abbrev pub count : ℕ → List ℕ → ℕ
count x [] = 0
count x (y ∷ ys) = (if x == y then 1 else 0) + count x ys

pub count-append : (x : ℕ) (ys zs : List ℕ) → count x (ys ++ zs) ≡ count x ys + count x zs
count-append x [] zs = omega arith
count-append x (y ∷ ys) zs = omega (arith, count-append x ys zs)

-- The frames that a memory has free; those of the buddy allocator are not counted.
abbrev pub free_frames : MemoryState → List ℕ
free_frames (regular s) = s.available_p_addrs
free_frames (buddy s) = []

abbrev pub IsRegular : MemoryState → Type 0
IsRegular (regular s) = Unit
IsRegular (buddy s) = ⊥

-- How often a frame is free on the devices.
abbrev pub frees : ℕ → List (ℕ × Device) → ℕ
frees x [] = 0
frees x ((id, d) ∷ devices) = count x (free_frames (d.mem_state)) + frees x devices

abbrev pub AllRegular : List (ℕ × Device) → Type 0
AllRegular = All (λ e. IsRegular (e.1.mem_state))

-- The devices of `new` have the frames of the devices of `old` less the frames `taken`.
pub record IsTaken (old new : List (ℕ × Device)) (taken : List ℕ) : Type 0 where
  pub regulars : AllRegular new
  pub less : (x : ℕ) → frees x old ≡ frees x new + count x taken

module _ (id : ℕ) (d new : Device) where
  pub frees-set :
      (x : ℕ) (devices : List (ℕ × Device))
      → element id devices ≡ some d
      → frees x (set_element id new devices) + count x (free_frames (d.mem_state))
        ≡ frees x devices + count x (free_frames (new.mem_state))
  unfolding element set_element
  frees-set x [] e = ground arith
  frees-set x ((n, e0) ∷ devices) e = elim (Bool-cases (id == n)) [
    | inl h ↦ let same : e0 ≡ d = cc (e, h) in rw (h, same) (omega arith)
    | inr h ↦ rw h (omega (arith, frees-set x devices (cc (e, h))))
  ]

  pub AllRegular-set :
      (devices : List (ℕ × Device))
      → IsRegular (new.mem_state)
      → AllRegular devices
      → AllRegular (set_element id new devices)
  unfolding set_element
  AllRegular-set [] r all = tt
  AllRegular-set ((n, e0) ∷ devices) r (first, rest) = elim (Bool-cases (id == n)) [
    | inl h ↦ rw h (r, rest)
    | inr h ↦ rw h (first, AllRegular-set devices r rest)
  ]

pub AllRegular-element :
    (id : ℕ) (devices : List (ℕ × Device)) {d : Device}
    → AllRegular devices
    → element id devices ≡ some d
    → IsRegular (d.mem_state)
unfolding element
AllRegular-element id [] all e = ground arith
AllRegular-element id ((n, e0) ∷ devices) {d} (first, rest) e = elim (Bool-cases (id == n)) [
  | inl h ↦
      let same : e0 ≡ d = cc (e, h) in subst (λ (t : Device). IsRegular (t.mem_state)) same first
  | inr h ↦ AllRegular-element id devices {d = d} rest (cc (e, h))
]

-- A device whose memory loses the frames `taken`.
pub IsTaken-set :
    (id : ℕ) (d new : Device) (devices : List (ℕ × Device)) (taken : List ℕ)
    → AllRegular devices
    → element id devices ≡ some d
    → IsRegular (new.mem_state)
    → ((x : ℕ)
        → count x (free_frames (d.mem_state))
          ≡ count x (free_frames (new.mem_state)) + count x taken)
    → IsTaken devices (set_element id new devices) taken
IsTaken-set id d new devices taken all e r less = record {
  regulars = AllRegular-set id d new devices r all;
  less = λ x. omega (arith, frees-set id d new x devices e, less x);
}

abbrev pub TakesFrames : ℕ → List ℕ → List ℕ × RegularState → Type 0
TakesFrames n frames t =
    ((x : ℕ) → count x frames ≡ count x (t.1.available_p_addrs) + count x (t.0))
    × (length (t.0) ≡ n)

allocate_regular_pages-Taken :
    (n : ℕ) (s : RegularState) (frames : List ℕ) {r : List ℕ × RegularState}
    → allocate_regular_pages n (record s { available_p_addrs = frames }) ≡ some r
    → TakesFrames n frames r
unfolding allocate_regular_pages pop_regular_p_addr
allocate_regular_pages-Taken zero s frames {r} e =
    let same : ([], record s { available_p_addrs = frames }) ≡ r = cc e in
    subst (TakesFrames 0 frames) same (λ x. omega arith, refl)
allocate_regular_pages-Taken (suc n) s [] e = ground arith
allocate_regular_pages-Taken (suc n) s (y ∷ ys) {r} e =
    let (t, h, last) =
      >>=-eq-some (allocate_regular_pages n (record s { available_p_addrs = ys }))
        (λ t. some (y ∷ t.0, t.1)) e in
    let same : (y ∷ t.0, t.1) ≡ r = cc last in
    let (less, size) = allocate_regular_pages-Taken n s ys h in
    subst (TakesFrames (suc n) (y ∷ ys)) same (λ x. omega (arith, less x), ap suc size)

pub allocate_state_pages-Taken :
    (n : ℕ) (state : MemoryState) {r : List ℕ × MemoryState}
    → IsRegular state
    → allocate_state_pages n state ≡ some r
    → IsRegular (r.1)
      × ((x : ℕ) → count x (free_frames state) ≡ count x (free_frames (r.1)) + count x (r.0))
      × (length (r.0) ≡ n)
unfolding allocate_state_pages
allocate_state_pages-Taken n (buddy s) {r} regulars e = absurd regulars
allocate_state_pages-Taken n (regular s) {r} regulars e =
    let (t, h, last) =
      >>=-eq-some (allocate_regular_pages n s) (λ t. some (t.0, regular (t.1))) e in
    let same : (t.0, regular (t.1)) ≡ r = cc last in
    let (less, size) = allocate_regular_pages-Taken n s (s.available_p_addrs) h in
    subst
      (λ (t : List ℕ × MemoryState).
        IsRegular (t.1)
        × ((x : ℕ) → count x (s.available_p_addrs) ≡ count x (free_frames (t.1)) + count x (t.0))
        × (length (t.0) ≡ n))
      same (tt, less, size)

pop_regular_p_addr-Taken :
    (s : RegularState) (frames : List ℕ) {r : ℕ × RegularState}
    → pop_regular_p_addr (record s { available_p_addrs = frames }) ≡ some r
    → (x : ℕ) → count x frames ≡ count x (r.1.available_p_addrs) + count x (r.0 ∷ [])
unfolding pop_regular_p_addr
pop_regular_p_addr-Taken s [] e x = ground arith
pop_regular_p_addr-Taken s (y ∷ ys) {r} e x =
    let same : (y, record s { available_p_addrs = ys }) ≡ r = cc e in
    subst
      (λ (t : ℕ × RegularState).
        count x (y ∷ ys) ≡ count x (t.1.available_p_addrs) + count x (t.0 ∷ []))
      same (omega arith)

pub pop_next_p_addr-Taken :
    (state : MemoryState) {r : ℕ × MemoryState}
    → IsRegular state
    → pop_next_p_addr state ≡ some r
    → IsRegular (r.1)
      × ((x : ℕ) → count x (free_frames state) ≡ count x (free_frames (r.1)) + count x (r.0 ∷ []))
unfolding pop_next_p_addr
pop_next_p_addr-Taken (buddy s) {r} regulars e = absurd regulars
pop_next_p_addr-Taken (regular s) {r} regulars e =
    let (t, h, last) = >>=-eq-some (pop_regular_p_addr s) (λ t. some (t.0, regular (t.1))) e in
    let same : (t.0, regular (t.1)) ≡ r = cc last in
    subst
      (λ (t : ℕ × MemoryState).
        IsRegular (t.1)
        × ((x : ℕ)
            → count x (s.available_p_addrs) ≡ count x (free_frames (t.1)) + count x (t.0 ∷ [])))
      same (tt, λ x. pop_regular_p_addr-Taken s (s.available_p_addrs) h x)
