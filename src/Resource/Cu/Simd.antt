-- ===== src/Resource/Cu/Simd.antt =====
-- The inner loop of `matchWfWithSIMDs`: it ends within one round more than there are SIMD units,
-- never panics, and what it marks can be given back.
use mathlib.Core.Bool.{false≢true}
use sampled_mgpu_sim.Prelude.{
  ℕ, zero, suc, ◌+◌, ◌-◌, ◌*◌, ◌/◌, ◌<◌, ◌≡◌, refl, sym, ap, ◌∙◌, subst, Option, none, some, List,
  length, true, false, Bool, arith, set, modify, get_elem?, length-set, leb, get_elem?-some,
  set-set_self, store-some, if◌then◌else◌, ◌==◌, ◌||◌, not, Bool-cases, inl, inr,
}
use sampled_mgpu_sim.Prelude.Int.{ℤ, pos, ◌-ℤ◌, ltb_ℤ}
use sampled_mgpu_sim.Resource.Mask.{AllocStatus, free, to_reserve, ResourceMask, next_region}
use sampled_mgpu_sim.Resource.Mask.Undo.{
  strip, write, Claimed, next_region-Claimed, strip-next_region,
}
use sampled_mgpu_sim.Resource.Cu.Match.{WfLocation, SimdState, advance, has_entry, place, find_simd}
use sampled_mgpu_sim.Resource.Cu.Marks.{
  marks, SameSizes, SameSizes-refl, SameSizes-trans, SameSizes-sym, FitsAt, FitsAt-SameSizes,
  marks-search, SameSizes-search, marks-claim, marks-clear, SameSizes-claim, FitsAt-claim,
}

-- The offset that `FreeResourcesForWG` computes from a location.
abbrev pub vgpr_units : WfLocation → ℕ
vgpr_units l = l.vgpr_offset / 4 / 4

-- All slices have one entry for each SIMD unit, and `nextSIMD` names one.
pub record IsValid (size : ℕ) (s : SimdState) : Type 0 where
  pub next : s.next_simd < size
  pub masks : length s.vreg_masks ≡ size
  pub entries : length s.wf_pool_entry_used ≡ size

pub record SimdDone (n : ℕ) (ms : List ResourceMask) (l : WfLocation) (found : Bool)
    (l' : WfLocation) (ms' : List ResourceMask) : Type 0 where
  pub cleared : marks free ms' ≡ marks free ms
  pub sizes : SameSizes ms ms'
  pub same_sgpr : l'.sgpr_offset ≡ l.sgpr_offset
  pub same_lds : l'.lds_offset ≡ l.lds_offset
  pub fits : found ≡ true → FitsAt l'.simd_id (vgpr_units l') n ms
  pub undone :
      found ≡ true
      → (b : AllocStatus)
      → modify (marks b ms') l'.simd_id (write (vgpr_units l') n free) ≡ marks b ms

-- Rounds to go until the loop is back at the first unit.
abbrev rounds : ℕ → Bool → ℕ → ℕ → ℕ
rounds size true first next = size
rounds size false first next = if leb next first then first - next else first + size - next

module _ (n : ℕ) (counts : List ℤ) where
  abbrev pub SimdResult : ℕ → Bool → ℕ → SimdState → WfLocation → Type 0
  SimdResult fuel first_try first s l =
      (found : Bool) × (l' : WfLocation) × (s' : SimdState) × (find_simd n 4 counts fuel first_try
          first s l
        ≡ some (found, l', s'))
      × IsValid (length counts) s'
      × SimdDone n s.vreg_masks l found l' s'.vreg_masks

  -- The next unit, after a search at this one has failed.
  failed : SimdState → ResourceMask → SimdState
  unfolding advance
  failed s mask = advance n 4 counts (record s { vreg_masks = set s.vreg_masks s.next_simd mask })

  failed-IsValid :
      (s : SimdState) (mask : ResourceMask)
      → IsValid (length counts) s
      → IsValid (length counts) (failed s mask)
  unfolding failed
  failed-IsValid s mask v = record {
    next = ground arith;
    masks = length-set s.vreg_masks s.next_simd mask ∙ v.masks;
    entries = v.entries;
  }

  rounds-failed :
      (s : SimdState) (mask : ResourceMask) (first_try : Bool) (first : ℕ)
      → s.next_simd < length counts
      → first < length counts
      → (first_try || not (s.next_simd == first)) ≡ true
      → rounds (length counts) false first (failed s mask).next_simd
        < rounds (length counts) first_try first s.next_simd
  unfolding failed
  rounds-failed s mask true first v f go = ground arith
  rounds-failed s mask false first v f go = ground arith

  abbrev after_search : SimdState → ResourceMask → SimdState
  after_search s mask = record s { vreg_masks = set s.vreg_masks s.next_simd mask }

  -- One round of the loop that fails, and one that succeeds.
  module _ (fuel : ℕ) (first_try : Bool) (first : ℕ) (s : SimdState) (l : WfLocation)
      {m mask : ResourceMask} (go : (first_try || not (s.next_simd == first)) ≡ true)
      (at : get_elem? s.vreg_masks s.next_simd ≡ some m) where
    find_simd-failed :
        (r : Option ℕ)
        → next_region m n free ≡ (r, mask)
        → has_entry n 4 counts r (after_search s mask) ≡ some false
        → find_simd n 4 counts (suc fuel) first_try first s l
          ≡ find_simd n 4 counts fuel false first (failed s mask) l
    unfolding find_simd failed
    find_simd-failed r e h = rw (go, find_simd) (rw (at) (rw e (rw h (rw e refl))))

    find_simd-placed :
        (o : ℕ) {l' : WfLocation} {s' : SimdState}
        → next_region m n free ≡ (some o, mask)
        → has_entry n 4 counts (some o) (after_search s mask) ≡ some true
        → place n 4 counts o mask (after_search s mask) l ≡ some (l', s')
        → find_simd n 4 counts (suc fuel) first_try first s l
          ≡ some (true, l', advance n 4 counts s')
    unfolding find_simd
    find_simd-placed o e h p = rw (go, find_simd) (rw (at) (rw e (rw h (rw e (rw p refl)))))

search-SimdDone :
    (n : ℕ) (ms : List ResourceMask) (i : ℕ) (m mask : ResourceMask) (l : WfLocation) {found : Bool}
    {l' : WfLocation} {ms' : List ResourceMask}
    → strip mask ≡ strip m
    → get_elem? ms i ≡ some m
    → SimdDone n (set ms i mask) l found l' ms'
    → SimdDone n ms l found l' ms'
search-SimdDone n ms i m mask l {found} {l'} {ms'} same at d = record {
  cleared = d.cleared ∙ marks-search m mask same free ms i at;
  sizes = SameSizes-trans ms (set ms i mask) ms' (SameSizes-search m mask same ms i at) d.sizes;
  same_sgpr = d.same_sgpr;
  same_lds = d.same_lds;
  fits = λ h.
      FitsAt-SameSizes l'.simd_id (vgpr_units l') n (set ms i mask) ms
        (SameSizes-sym ms (set ms i mask) (SameSizes-search m mask same ms i at)) (d.fits h);
  undone = λ h b. d.undone h b ∙ marks-search m mask same b ms i at;
}

vgpr_units-lem : (o : ℕ) → o * 4 * 4 / 4 / 4 ≡ o
vgpr_units-lem o = omega arith

Claimed-SimdDone :
    (n o : ℕ) (ms : List ResourceMask) (i : ℕ) (m mask after : ResourceMask) (l : WfLocation)
    → Claimed o n m mask after
    → get_elem? ms i ≡ some m
    → SimdDone n ms l true (record l { simd_id = i; vgpr_offset = o * 4 * 4 }) (set ms i after)
Claimed-SimdDone n o ms i m mask after l c at = record {
  cleared = marks-clear c ms i at;
  sizes = SameSizes-claim c ms i at;
  same_sgpr = refl;
  same_lds = refl;
  fits = λ h. subst (λ k. FitsAt i k n ms) (sym (vgpr_units-lem o)) (FitsAt-claim c ms i at);
  undone = λ h b.
      ap (λ k. modify (marks b (set ms i after)) i (write k n free)) (vgpr_units-lem o)
      ∙ marks-claim c b ms i at;
}

has_entry_total :
    (n : ℕ) (counts : List ℤ) (r : Option ℕ) (s : SimdState)
    → IsValid (length counts) s
    → (b : Bool) × (has_entry n 4 counts r s ≡ some b)
unfolding has_entry
has_entry_total n counts none s v = (false, refl)
has_entry_total n counts (some o) s v =
    let (c, ec) = get_elem?-some counts s.next_simd v.next in
    let (u, eu) =
      get_elem?-some s.wf_pool_entry_used s.next_simd (omega (arith, v.next, v.entries)) in
    (ltb_ℤ (pos 0) (c -ℤ pos u), rw ec (rw eu refl))

-- `place` writes inside the slices.
place_lem :
    (n o : ℕ) (counts : List ℤ) (s : SimdState) (l : WfLocation) {m mask : ResourceMask}
    → IsValid (length counts) s
    → get_elem? s.vreg_masks s.next_simd ≡ some m
    → Claimed o n m mask (write o n to_reserve mask)
    → (s' : SimdState) × (place n 4 counts o mask
          (record s { vreg_masks = set s.vreg_masks s.next_simd mask })
          l
        ≡ some (record l { simd_id = s.next_simd; vgpr_offset = o * 4 * 4 }, s'))
      × (s'.vreg_masks ≡ set s.vreg_masks s.next_simd (write o n to_reserve mask))
      × (s'.next_simd ≡ s.next_simd)
      × IsValid (length counts) s'
unfolding place
place_lem n o counts s l {m} {mask} v at c =
    let (u, eu) =
      get_elem?-some s.wf_pool_entry_used s.next_simd (omega (arith, v.next, v.entries)) in
    (
      record s {
        vreg_masks =
            set (set s.vreg_masks s.next_simd mask) s.next_simd (write o n to_reserve mask);
        wf_pool_entry_used = set s.wf_pool_entry_used s.next_simd (u + 1);
      },
      rw eu (
          rw
            (store-some s.wf_pool_entry_used s.next_simd (u + 1) (omega (arith, v.next, v.entries)))
            (rw c.done (
              rw
                (store-some (set s.vreg_masks s.next_simd mask) s.next_simd
                  (write o n to_reserve mask)
                  (omega (arith, v.next, v.masks, length-set s.vreg_masks s.next_simd mask)))
                refl))),
      set-set_self s.vreg_masks s.next_simd mask (write o n to_reserve mask),
      refl,
      record {
        next = v.next;
        masks =
            length-set (set s.vreg_masks s.next_simd mask) s.next_simd _
            ∙ length-set s.vreg_masks s.next_simd mask
            ∙ v.masks;
        entries = length-set s.wf_pool_entry_used s.next_simd (u + 1) ∙ v.entries;
      },
    )

advance-IsValid :
    (n : ℕ) (counts : List ℤ) (s : SimdState)
    → IsValid (length counts) s
    → IsValid (length counts) (advance n 4 counts s)
unfolding advance
advance-IsValid n counts s v = record { next = ground arith; masks = v.masks; entries = v.entries }

-- One round that goes on, from what the rounds after it do.
find_simd_round :
    (n : ℕ) (counts : List ℤ) (fuel : ℕ) (first_try : Bool) (first : ℕ) (s : SimdState)
    (l : WfLocation)
    → IsValid (length counts) s
    → first < length counts
    → rounds (length counts) first_try first s.next_simd < suc fuel
    → (first_try || not (s.next_simd == first)) ≡ true
    → ((s' : SimdState)
        → IsValid (length counts) s'
        → rounds (length counts) false first s'.next_simd < fuel
        → SimdResult n counts fuel false first s' l)
    → SimdResult n counts (suc fuel) first_try first s l
unfolding failed advance has_entry
find_simd_round n counts fuel first_try first s l v f h go again =
    let (m, at) = get_elem?-some s.vreg_masks s.next_simd (omega (arith, v.next, v.masks)) in
    search m at (next_region m n free) refl
  where
    fails :
        (m : ResourceMask)
        → get_elem? s.vreg_masks s.next_simd ≡ some m
        → (r : Option ℕ) (mask : ResourceMask) → next_region m n free ≡ (r, mask)
        → has_entry n 4 counts r (after_search n counts s mask) ≡ some false
        → SimdResult n counts (suc fuel) first_try first s l
    fails m at r mask e no_entry =
        let (found, l', s', eq, v', d) =
          again (failed n counts s mask) (failed-IsValid n counts s mask v)
            (omega (arith, rounds-failed n counts s mask first_try first v.next f go)) in
        (
          found,
          l',
          s',
          find_simd-failed n counts fuel first_try first s l go at r e no_entry ∙ eq,
          v',
          search-SimdDone n s.vreg_masks s.next_simd m mask l
              (ap (λ p. strip p.1) (sym e) ∙ strip-next_region m n free) at d,
        )

    places :
        (m : ResourceMask)
        → get_elem? s.vreg_masks s.next_simd ≡ some m
        → (o : ℕ) (mask : ResourceMask) → next_region m n free ≡ (some o, mask)
        → has_entry n 4 counts (some o) (after_search n counts s mask) ≡ some true
        → SimdResult n counts (suc fuel) first_try first s l
    places m at o mask e entry =
        let c = next_region-Claimed m n e in
        let (s', p, masks, next, v') = place_lem n o counts s l v at c in
        (
          true,
          record l { simd_id = s.next_simd; vgpr_offset = o * 4 * 4 },
          advance n 4 counts s',
          find_simd-placed n counts fuel first_try first s l go at o e entry p,
          advance-IsValid n counts s' v',
          subst
              (SimdDone n s.vreg_masks l true
                (record l { simd_id = s.next_simd; vgpr_offset = o * 4 * 4 }))
              (sym masks)
              (Claimed-SimdDone n o s.vreg_masks s.next_simd m mask (write o n to_reserve mask) l c
                at),
        )

    tests :
        (m : ResourceMask)
        → get_elem? s.vreg_masks s.next_simd ≡ some m
        → (r : Option ℕ) (mask : ResourceMask) → next_region m n free ≡ (r, mask)
        → (b : Bool) → has_entry n 4 counts r (after_search n counts s mask) ≡ some b
        → SimdResult n counts (suc fuel) first_try first s l
    tests m at r mask e false h = fails m at r mask e h
    tests m at (some o) mask e true h = places m at o mask e h
    tests m at none mask e true h = ground arith

    search :
        (m : ResourceMask)
        → get_elem? s.vreg_masks s.next_simd ≡ some m
        → (r : Option ℕ × ResourceMask) → next_region m n free ≡ r
        → SimdResult n counts (suc fuel) first_try first s l
    search m at (r, mask) e =
        let (b, h) = has_entry_total n counts r (after_search n counts s mask) (record {
          next = v.next;
          masks = length-set s.vreg_masks s.next_simd mask ∙ v.masks;
          entries = v.entries;
        }) in
        tests m at r mask e b h

module _ (n : ℕ) (counts : List ℤ) where
  pub find_simd-SimdDone :
      (fuel : ℕ) (first_try : Bool) (first : ℕ) (s : SimdState) (l : WfLocation)
      → IsValid (length counts) s
      → first < length counts
      → rounds (length counts) first_try first s.next_simd < fuel
      → SimdResult n counts fuel first_try first s l
  unfolding find_simd
  find_simd-SimdDone zero first_try first s l v f h = absurd (omega arith)
  find_simd-SimdDone (suc fuel) first_try first s l v f h =
      elim (Bool-cases (first_try || not (s.next_simd == first))) [
        | inl go ↦
            find_simd_round n counts fuel first_try first s l v f h go
              (λ s' v' h'. find_simd-SimdDone fuel false first s' l v' f h')
        | inr stop ↦ (
          false,
          l,
          s,
          rw (stop, find_simd),
          v,
          record {
            cleared = refl;
            sizes = SameSizes-refl s.vreg_masks;
            same_sgpr = refl;
            same_lds = refl;
            fits = λ h. absurd (false≢true h);
            undone = λ h. absurd (false≢true h);
          },
        )
      ]
