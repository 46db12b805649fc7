-- ===== src/Resource/Cu/Limits.antt =====
-- The three checks of `ReserveResourceForWG` together: no panic, and everything that they mark on
-- the way can be given back, whether they pass or not.
use mathlib.Core.Bool.{false≢true}
use sampled_mgpu_sim.Prelude.{
  ℕ, ◌*◌, ◌<◌, ◌≡◌, refl, sym, ap, ◌∙◌, subst, some, List, length, true, false, Bool, map, All,
  length-map,
}
use sampled_mgpu_sim.Resource.Mask.{AllocStatus, free, to_reserve, ResourceMask, convert_status}
use sampled_mgpu_sim.Resource.Mask.Undo.{strip, write, Fits, SameSize, SameSize-refl}
use sampled_mgpu_sim.Resource.Cu.Match.{WfLocation, SimdState, match_loop}
use sampled_mgpu_sim.Resource.Cu.{
  CuResource, WorkGroup, units_occupy, within_sgpr_limitation, within_lds_limitation,
  match_wf_with_simds, within_limitations, new_location, sgpr_loop,
}
use sampled_mgpu_sim.Resource.Cu.Marks.{marks, SameSizes, SameSizes-refl, FitsAt}
use sampled_mgpu_sim.Resource.Cu.Sgpr.{sgpr_units, undo, SgprDone, SgprResult, sgpr_loop-SgprDone}
use sampled_mgpu_sim.Resource.Cu.Simd.{IsValid, vgpr_units}
use sampled_mgpu_sim.Resource.Cu.Vgpr.{undo_all, MatchDone, MatchResult, match_loop-MatchDone}
use sampled_mgpu_sim.Resource.Cu.Lds.{
  standard, lds_units, LdsDone, LdsResult, within_lds-LdsDone, map-sgpr-with_lds, All-with_lds,
}

abbrev pub sgpr_required : WorkGroup → ℕ
sgpr_required wg = units_occupy wg.code_object.wf_sgpr_count 16

abbrev pub vgpr_required : WorkGroup → ℕ
vgpr_required wg = units_occupy wg.code_object.wi_vgpr_count 4

abbrev pub lds_needed : WorkGroup → ℕ
lds_needed wg = units_occupy wg.code_object.wg_group_segment_byte_size 256

-- What the checks change in a compute unit.
pub record Masks : Type 0 where
  pub sregs : ResourceMask
  pub lds : ResourceMask
  pub vregs : List ResourceMask
  pub next : ℕ

abbrev pub with_masks : CuResource → Masks → CuResource
with_masks r k = record (standard r) {
  sreg_mask = k.sregs;
  lds_mask = k.lds;
  vreg_masks = k.vregs;
  next_simd = k.next;
}

-- Each wavefront has its location, and all that the work-group was given can be given back.
pub record Given (r : CuResource) (wg : WorkGroup) (ls : List WfLocation) (k : Masks) : Type 0 where
  pub located : length ls ≡ length wg.wavefronts
  pub sgpr_fits : All (λ o. Fits o (sgpr_required wg) r.sreg_mask) (map sgpr_units ls)
  pub sgpr_undone :
      (b : AllocStatus)
      → strip (undo (sgpr_required wg) (map sgpr_units ls) (convert_status to_reserve b k.sregs))
        ≡ strip (convert_status to_reserve b r.sreg_mask)
  pub lds_offset : ℕ
  pub lds_located : All (λ l. lds_units l ≡ lds_offset) ls
  pub lds_fits : Fits lds_offset (lds_needed wg) r.lds_mask
  pub lds_undone :
      (b : AllocStatus)
      → strip (write lds_offset (lds_needed wg) free (convert_status to_reserve b k.lds))
        ≡ strip (convert_status to_reserve b r.lds_mask)
  pub vgpr_fits : All (λ l. FitsAt l.simd_id (vgpr_units l) (vgpr_required wg) r.vreg_masks) ls
  pub vgpr_undone :
      (b : AllocStatus) → undo_all (vgpr_required wg) ls (marks b k.vregs) ≡ marks b r.vreg_masks

pub record LimitsDone (r : CuResource) (wg : WorkGroup) (found : Bool) (ls : List WfLocation)
    (k : Masks) : Type 0 where
  pub sregs_cleared :
      strip (convert_status to_reserve free k.sregs)
      ≡ strip (convert_status to_reserve free r.sreg_mask)
  pub lds_cleared :
      strip (convert_status to_reserve free k.lds)
      ≡ strip (convert_status to_reserve free r.lds_mask)
  pub vregs_cleared : marks free k.vregs ≡ marks free r.vreg_masks
  pub sregs_size : SameSize r.sreg_mask k.sregs
  pub lds_size : SameSize r.lds_mask k.lds
  pub vregs_size : SameSizes r.vreg_masks k.vregs
  pub next : k.next < length r.wf_pool_free_count
  pub given : found ≡ true → Given r wg ls k

-- The slices of a compute unit have one entry for each SIMD unit, and `nextSIMD` names one.
pub record HasSimds (r : CuResource) : Type 0 where
  pub next : r.next_simd < length r.wf_pool_free_count
  pub masks : length r.vreg_masks ≡ length r.wf_pool_free_count

module _ (r : CuResource) (wg : WorkGroup) where
  abbrev pub LimitsResult : Type 0
  LimitsResult =
      (found : Bool) × (ls : List WfLocation) × (k : Masks) × (within_limitations (standard r) wg
        ≡ some (found, ls, with_masks r k))
      × LimitsDone r wg found ls k

  abbrev with_sregs : ResourceMask → CuResource
  with_sregs m = record r { sreg_mask = m }

  abbrev with_lds_mask : ResourceMask → ResourceMask → CuResource
  with_lds_mask m k = record r { sreg_mask = m; lds_mask = k }

  within_sgpr-eq :
      {found : Bool} {ls : List WfLocation} {m : ResourceMask}
      → sgpr_loop (sgpr_required wg) r.sreg_mask (map new_location wg.wavefronts)
        ≡ some (found, ls, m)
      → within_sgpr_limitation (standard r) wg (map new_location wg.wavefronts)
        ≡ some (found, ls, record (standard r) { sreg_mask = m })
  unfolding within_sgpr_limitation
  within_sgpr-eq e = rw e refl

  abbrev simd_state : SimdState
  simd_state = record {
    next_simd = r.next_simd;
    vreg_masks = r.vreg_masks;
    wf_pool_entry_used = map (λ _. 0) r.wf_pool_free_count;
  }

  match_wf-eq :
      (m k : ResourceMask) (ls₀ : List WfLocation) {found : Bool} {ls : List WfLocation}
      {s : SimdState}
      → match_loop (vgpr_required wg) 4 r.wf_pool_free_count simd_state ls₀ ≡ some (found, ls, s)
      → match_wf_with_simds (standard (with_lds_mask m k)) wg ls₀
        ≡ some (
          found,
          ls,
          with_masks r (record { sregs = m; lds = k; vregs = s.vreg_masks; next = s.next_simd }),
        )
  unfolding match_wf_with_simds
  match_wf-eq m k ls₀ e = rw e refl

  simd_state-IsValid : HasSimds r → IsValid (length r.wf_pool_free_count) simd_state
  simd_state-IsValid v = record {
    next = v.next;
    masks = v.masks;
    entries = length-map (λ _. 0) r.wf_pool_free_count;
  }

  all_found :
      (v : HasSimds r) {ls₁ ls₂ ls₃ : List WfLocation} {found : Bool} {m k : ResourceMask}
      {s : SimdState}
      → IsValid (length r.wf_pool_free_count) s
      → length ls₁ ≡ length (map new_location wg.wavefronts)
      → SgprDone (sgpr_required wg) r.sreg_mask true ls₁ m
      → LdsDone (lds_needed wg) r.lds_mask true ls₁ ls₂ k
      → MatchDone (vgpr_required wg) r.vreg_masks ls₂ found ls₃ s.vreg_masks
      → LimitsDone r wg found ls₃
          (record { sregs = m; lds = k; vregs = s.vreg_masks; next = s.next_simd })
  all_found v {ls₁} {ls₂} {ls₃} {found} {m} {k} {s} w len d₁ d₂ d₃ = record {
    sregs_cleared = d₁.cleared;
    lds_cleared = d₂.cleared;
    vregs_cleared = d₃.cleared;
    sregs_size = d₁.size;
    lds_size = d₂.size;
    vregs_size = d₃.sizes;
    next = w.next;
    given = λ h. record {
      located =
          sym (length-map sgpr_units ls₃)
          ∙ ap length same_sgprs
          ∙ length-map sgpr_units ls₁
          ∙ len
          ∙ length-map new_location wg.wavefronts;
      sgpr_fits =
          subst (All (λ o. Fits o (sgpr_required wg) r.sreg_mask)) (sym same_sgprs) (d₁.fits refl);
      sgpr_undone = λ b.
          ap (λ os. strip (undo (sgpr_required wg) os (convert_status to_reserve b m))) same_sgprs
          ∙ d₁.undone refl b;
      lds_offset = d₂.offset;
      lds_located =
          All-with_lds d₂.offset ls₁ ls₃
            (d₃.same_lds ∙ ap (map (λ l. l.lds_offset)) (d₂.located refl));
      lds_fits = d₂.fits refl;
      lds_undone = d₂.undone refl;
      vgpr_fits = d₃.fits h;
      vgpr_undone = d₃.undone h;
    };
  }
    where
      same_sgprs : map sgpr_units ls₃ ≡ map sgpr_units ls₁
      same_sgprs =
          d₃.same_sgpr
          ∙ ap (map sgpr_units) (d₂.located refl)
          ∙ map-sgpr-with_lds (d₂.offset * 256) ls₁

  no_sgprs :
      HasSimds r
      → {ls : List WfLocation} {m : ResourceMask}
      → SgprDone (sgpr_required wg) r.sreg_mask false ls m
      → LimitsDone r wg false ls
          (record { sregs = m; lds = r.lds_mask; vregs = r.vreg_masks; next = r.next_simd })
  no_sgprs v d = record {
    sregs_cleared = d.cleared;
    lds_cleared = refl;
    vregs_cleared = refl;
    sregs_size = d.size;
    lds_size = SameSize-refl r.lds_mask;
    vregs_size = SameSizes-refl r.vreg_masks;
    next = v.next;
    given = λ h. absurd (false≢true h);
  }

  no_lds :
      HasSimds r
      → {ls ls' : List WfLocation} {m k : ResourceMask}
      → SgprDone (sgpr_required wg) r.sreg_mask true ls m
      → LdsDone (lds_needed wg) r.lds_mask false ls ls' k
      → LimitsDone r wg false ls'
          (record { sregs = m; lds = k; vregs = r.vreg_masks; next = r.next_simd })
  no_lds v d₁ d₂ = record {
    sregs_cleared = d₁.cleared;
    lds_cleared = d₂.cleared;
    vregs_cleared = refl;
    sregs_size = d₁.size;
    lds_size = d₂.size;
    vregs_size = SameSizes-refl r.vreg_masks;
    next = v.next;
    given = λ h. absurd (false≢true h);
  }

  pub within_limitations-LimitsDone : HasSimds r → LimitsResult
  unfolding within_limitations
  within_limitations-LimitsDone v =
      sgpr (sgpr_loop-SgprDone (sgpr_required wg) (map new_location wg.wavefronts) r.sreg_mask)
    where
      simds :
          (ls₁ ls₂ : List WfLocation) (m k : ResourceMask)
          → within_sgpr_limitation (standard r) wg (map new_location wg.wavefronts)
            ≡ some (true, ls₁, standard (with_sregs m))
          → length ls₁ ≡ length (map new_location wg.wavefronts)
          → SgprDone (sgpr_required wg) r.sreg_mask true ls₁ m
          → within_lds_limitation (standard (with_sregs m)) wg ls₁
            ≡ some (true, ls₂, standard (with_lds_mask m k))
          → LdsDone (lds_needed wg) r.lds_mask true ls₁ ls₂ k
          → MatchResult (vgpr_required wg) r.wf_pool_free_count simd_state ls₂
          → LimitsResult
      simds ls₁ ls₂ m k e₁ len d₁ e₂ d₂ (found, ls₃, s, e₃, w, d₃) = (
        found,
        ls₃,
        record { sregs = m; lds = k; vregs = s.vreg_masks; next = s.next_simd },
        rw e₁ (rw e₂ (match_wf-eq m k ls₂ e₃)),
        all_found v w len d₁ d₂ d₃,
      )

      lds :
          (ls₁ : List WfLocation) (m : ResourceMask)
          → within_sgpr_limitation (standard r) wg (map new_location wg.wavefronts)
            ≡ some (true, ls₁, standard (with_sregs m))
          → length ls₁ ≡ length (map new_location wg.wavefronts)
          → SgprDone (sgpr_required wg) r.sreg_mask true ls₁ m
          → LdsResult (with_sregs m) wg ls₁
          → LimitsResult
      lds ls₁ m e₁ len d₁ (false, ls₂, k, e₂, d₂) = (
        false,
        ls₂,
        record { sregs = m; lds = k; vregs = r.vreg_masks; next = r.next_simd },
        rw e₁ (rw e₂ refl),
        no_lds v d₁ d₂,
      )
      lds ls₁ m e₁ len d₁ (true, ls₂, k, e₂, d₂) = simds ls₁ ls₂ m k e₁ len d₁ e₂ d₂ (
          match_loop-MatchDone (vgpr_required wg) r.wf_pool_free_count simd_state ls₂
            (simd_state-IsValid v))

      sgpr :
          SgprResult (sgpr_required wg) r.sreg_mask (map new_location wg.wavefronts) → LimitsResult
      sgpr (false, ls₁, m, e₁, len, d₁) = (
        false,
        ls₁,
        record { sregs = m; lds = r.lds_mask; vregs = r.vreg_masks; next = r.next_simd },
        rw (within_sgpr-eq e₁) refl,
        no_sgprs v d₁,
      )
      sgpr (true, ls₁, m, e₁, len, d₁) =
          lds ls₁ m (within_sgpr-eq e₁) len d₁ (within_lds-LdsDone (with_sregs m) wg ls₁)
