-- ===== src/Resource/Cu/Match.antt =====
-- curesourceimpl.go, `matchWfWithSIMDs`: the search for a SIMD unit for each wavefront.
use sampled_mgpu_sim.Prelude.{
  ℕ, zero, suc, ◌+◌, ◌*◌, Bool, true, false, Option, none, some, List, [], ◌∷◌, ◌==◌, store, ◌>>=◌,
  if◌then◌else◌, get_elem?, length, set, not, ◌||◌, leb,
}
use sampled_mgpu_sim.Prelude.Int.{ℤ, pos, ◌-ℤ◌, ltb_ℤ}
use sampled_mgpu_sim.Resource.Mask.{free, to_reserve, ResourceMask, next_region, set_status}

-- wflocation.go
pub record WfLocation : Type 0 where
  pub wavefront : ℕ
  pub simd_id : ℕ
  pub vgpr_offset : ℕ
  pub sgpr_offset : ℕ
  pub lds_offset : ℕ

-- What the loops change. (`vgprToUse` is written and never read: it is left out.)
pub record SimdState : Type 0 where
  pub next_simd : ℕ
  pub vreg_masks : List ResourceMask
  pub wf_pool_entry_used : List ℕ

module _ (required : ℕ) (granularity : ℕ) (free_count : List ℤ) where
  -- `r.nextSIMD++`, back to 0 at the end.
  unfoldable pub advance : SimdState → SimdState
  advance s = record s {
    next_simd = if leb (length free_count) (s.next_simd + 1) then 0 else s.next_simd + 1;
  }

  -- `ok && r.wfPoolFreeCount[r.nextSIMD]-wfPoolEntryUsed[r.nextSIMD] > 0`
  unfoldable pub has_entry : Option ℕ → SimdState → Option Bool
  has_entry none s = some false
  has_entry (some o) s = do
    count ← get_elem? free_count s.next_simd
    entries ← get_elem? s.wf_pool_entry_used s.next_simd
    some (ltb_ℤ (pos 0) (count -ℤ pos entries))

  -- The body of the `if`: the wavefront goes to the SIMD unit `nextSIMD`.
  unfoldable pub place : ℕ → ResourceMask → SimdState → WfLocation → Option (WfLocation × SimdState)
  place o mask s l = do
    entries ← get_elem? s.wf_pool_entry_used s.next_simd
    entry_used ← store s.wf_pool_entry_used s.next_simd (entries + 1)
    mask' ← set_status mask o required to_reserve
    masks ← store s.vreg_masks s.next_simd mask'
    some (
      record l { simd_id = s.next_simd; vgpr_offset = o * granularity * 4 },
      record s { vreg_masks = masks; wf_pool_entry_used = entry_used },
    )

  -- The inner loop, on fuel; running out of it is `none`.
  unfoldable pub find_simd :
      ℕ → Bool → ℕ → SimdState → WfLocation → Option (Bool × WfLocation × SimdState)
  find_simd zero first_try first_simd s l = none
  find_simd (suc fuel) first_try first_simd s l =
      elim (first_try || not (s.next_simd == first_simd)) [
        | false ↦ some (false, l, s)
        | true ↦ do
          mask ← get_elem? s.vreg_masks s.next_simd
          let (offset, mask') = next_region mask required free
          let s' = record s { vreg_masks = set s.vreg_masks s.next_simd mask' }
          ok ← has_entry offset s'
          elim ok [
            | false ↦ find_simd fuel false first_simd (advance s') l
            | true ↦ do o ← offset; (l', s'') ← place o mask' s' l; some (true, l', advance s'')
          ]
      ]

  -- The outer loop. One round more than there are SIMD units is fuel enough.
  unfoldable pub match_loop :
      SimdState → List WfLocation → Option (Bool × List WfLocation × SimdState)
  match_loop s [] = some (true, [], s)
  match_loop s (l ∷ ls) = do
    (found, l', s') ← find_simd (length free_count + 1) true s.next_simd s l
    elim found [
      | false ↦ some (false, l' ∷ ls, s')
      | true ↦ do (all_found, ls', s'') ← match_loop s' ls; some (all_found, l' ∷ ls', s'')
    ]
