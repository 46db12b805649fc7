-- ===== src/Resource/Cu/RoundTrip.antt =====
-- Totality of a reservation, where its locations lie, and freeing what was reserved.
use sampled_mgpu_sim.Prelude.{
  ℕ, ◌≡◌, ◌≢◌, refl, sym, ap, ◌∙◌, subst, some, none, Option, List, [], ◌∷◌, length, map, All, true,
  arith, ==_refl,
}
use sampled_mgpu_sim.Resource.Mask.{free, to_reserve, reserved, ResourceMask, convert_status}
use sampled_mgpu_sim.Resource.Mask.Undo.{
  strip, Fits, convert-IsClear, SameSize-convert, SameSize-trans,
}
use sampled_mgpu_sim.Resource.Cu.Match.{WfLocation}
use sampled_mgpu_sim.Resource.Cu.{
  CuResource, WorkGroup, find_wg, delete_wg, reserve_resource_for_wg, free_resources_for_wg,
}
use sampled_mgpu_sim.Resource.Cu.Marks.{SameSizes-trans, FitsAt}
use sampled_mgpu_sim.Resource.Cu.Sgpr.{sgpr_units, undo, All-Fits}
use sampled_mgpu_sim.Resource.Cu.Simd.{vgpr_units}
use sampled_mgpu_sim.Resource.Cu.Vgpr.{undo_all, All-FitsAt}
use sampled_mgpu_sim.Resource.Cu.Lds.{lds_units, undo-LdsDone}
use sampled_mgpu_sim.Resource.Cu.Limits.{
  sgpr_required, vgpr_required, lds_needed, Masks, Given, LimitsDone,
}
use sampled_mgpu_sim.Resource.Cu.Free.{
  take_all, length-take_all, put_all-take_all, InRange, FitsAll, freed, free_locations-freed,
}
use sampled_mgpu_sim.Resource.Cu.Ready.{
  view, IsReady, convert_all, strips-convert_all, marks-strips, strips-undo_all,
  SameSizes-convert_all, freed-IsReady,
}
use sampled_mgpu_sim.Resource.Cu.Reserve.{
  converted, holding, refused, granted, panics, in_range, outcome, simds, same_run,
  converted-IsReady,
}

-- The map of work-groups is no part of the invariant.
add_wg :
    {r : CuResource} {wgs : List (ℕ × List WfLocation)}
    → IsReady r
    → IsReady (record r { reserved_wgs = wgs })
add_wg v = record {
  sreg_unit = v.sreg_unit;
  vreg_unit = v.vreg_unit;
  lds_unit = v.lds_unit;
  next = v.next;
  masks = v.masks;
  sregs_clear = v.sregs_clear;
  lds_clear = v.lds_clear;
  vregs_clear = v.vregs_clear;
}

-- A compute unit that is ready, asked for a work-group that it does not hold, answers without a
-- panic, whether the work-group fits or not, and is ready again.
pub reserve_total :
    (r : CuResource) (wg : WorkGroup)
    → IsReady r
    → find_wg wg.address r.reserved_wgs ≡ none
    → (answer : Option (List WfLocation)) × (r' : CuResource) × (reserve_resource_for_wg r wg
        ≡ some (answer, r'))
      × IsReady r'
reserve_total r wg v fresh = elim (outcome r wg (simds v)) [
  | refused ls k e d ↦ (
    none,
    converted free r.wf_pool_free_count r k,
    sym (same_run r wg v) ∙ e,
    converted-IsReady free r.wf_pool_free_count r wg k refl (simds v) refl d,
  )
  | granted ls k f e d ↦ (
    some ls,
    holding r wg ls k,
    sym (same_run r wg v) ∙ e,
    add_wg (
        converted-IsReady reserved (take_all r.wf_pool_free_count ls) r wg k refl (simds v)
          (length-take_all r.wf_pool_free_count ls) d),
  )
  | panics ls f e ↦ cc
]

-- A work-group that a ready compute unit holds already is never given a second set of locations.
pub reserve_twice :
    (r : CuResource) (wg : WorkGroup) {held ls : List WfLocation} {r' : CuResource}
    → IsReady r
    → find_wg wg.address r.reserved_wgs ≡ some held
    → reserve_resource_for_wg r wg ≢ some (some ls, r')
reserve_twice r wg v old h = elim (outcome r wg (simds v)) [
  | refused ls k e d ↦ cc (same_run r wg v)
  | granted ls k f e d ↦ cc
  | panics ls f e ↦ cc (same_run r wg v)
]

-- Where the locations of a granted reservation lie.
pub record Located (r : CuResource) (wg : WorkGroup) (ls : List WfLocation) : Type 0 where
  pub one_each : length ls ≡ length wg.wavefronts
  pub simd : InRange (length r.wf_pool_free_count) ls
  pub sgprs : All (λ o. Fits o (sgpr_required wg) r.sreg_mask) (map sgpr_units ls)
  pub vgprs : All (λ l. FitsAt l.simd_id (vgpr_units l) (vgpr_required wg) r.vreg_masks) ls
  pub lds_base : ℕ
  pub lds_shared : All (λ l. lds_units l ≡ lds_base) ls
  pub lds : Fits lds_base (lds_needed wg) r.lds_mask

-- A reservation that a ready compute unit grants has one location for each wavefront. Each names a SIMD unit that exists,
-- scalar registers within the scalar register file and vector registers within the file of that
-- SIMD unit; all name the same region of the local data share, which lies within it.
pub reserve-Located :
    (r : CuResource) (wg : WorkGroup) {ls : List WfLocation} {r' : CuResource}
    → IsReady r
    → reserve_resource_for_wg r wg ≡ some (some ls, r')
    → Located r wg ls
reserve-Located r wg {ls} v h = elim (outcome r wg (simds v)) [
  | refused _ k e d ↦ cc (same_run r wg v)
  | granted ls₁ k f e d ↦
      let same : ls₁ ≡ ls = cc (same_run r wg v) in
      subst (Located r wg) same (located ls₁ k (d.given refl))
  | panics _ f e ↦ cc (same_run r wg v)
]
  where
    located : (ls₁ : List WfLocation) (k : Masks) → Given r wg ls₁ k → Located r wg ls₁
    located ls₁ k g = record {
      one_each = g.located;
      simd = in_range r wg (simds v) g;
      sgprs = g.sgpr_fits;
      vgprs = g.vgpr_fits;
      lds_base = g.lds_offset;
      lds_shared = g.lds_located;
      lds = g.lds_fits;
    }

length_zero : (xs : List ℕ) → length xs ≡ 0 → xs ≡ []
length_zero [] h = refl
length_zero (x ∷ xs) h = absurd (omega arith)

delete-fresh :
    (key : ℕ) (wgs : List (ℕ × List WfLocation)) → find_wg key wgs ≡ none → delete_wg key wgs ≡ wgs
unfolding find_wg delete_wg
delete-fresh key [] h = refl
delete-fresh key ((k, v) ∷ wgs) h = ground (arith, delete-fresh key wgs)

lds-Fits :
    (o n : ℕ) (m : ResourceMask) (ls : List WfLocation)
    → Fits o n m
    → All (λ l. lds_units l ≡ o) ls
    → All (λ k. Fits k n m) (map lds_units ls)
lds-Fits o n m [] f h = tt
lds-Fits o n m (l ∷ ls) f h = (subst (λ k. Fits k n m) (sym h.0) f, lds-Fits o n m ls f h.1)

module _ (r : CuResource) (wg : WorkGroup) (ls : List WfLocation) (k : Masks) (v : IsReady r)
    (d : LimitsDone r wg true ls k) where
  given : Given r wg ls k
  given = d.given refl

  holding-FitsAll : FitsAll (holding r wg ls k) wg ls
  unfolding given
  holding-FitsAll = record {
    range =
        subst (λ n. InRange n ls) (sym (length-take_all r.wf_pool_free_count ls))
          (in_range r wg (simds v) given);
    sgprs =
        All-Fits (sgpr_required wg) r.sreg_mask _ (map sgpr_units ls)
          (SameSize-trans r.sreg_mask k.sregs _ d.sregs_size
            (SameSize-convert to_reserve reserved k.sregs))
          given.sgpr_fits;
    lds =
        All-Fits (lds_needed wg) r.lds_mask _ (map lds_units ls)
          (SameSize-trans r.lds_mask k.lds _ d.lds_size
            (SameSize-convert to_reserve reserved k.lds))
          (lds-Fits given.lds_offset (lds_needed wg) r.lds_mask ls given.lds_fits
            given.lds_located);
    vgprs =
        All-FitsAt (vgpr_required wg) r.vreg_masks _ ls
          (SameSizes-trans r.vreg_masks k.vregs _ d.vregs_size
            (SameSizes-convert_all reserved k.vregs))
          given.vgpr_fits;
  }

  lds_restored :
      (ls₁ : List WfLocation)
      → ls₁ ≢ []
      → All (λ l. lds_units l ≡ given.lds_offset) ls₁
      → strip (undo (lds_needed wg) (map lds_units ls₁) (convert_status to_reserve reserved k.lds))
        ≡ strip r.lds_mask
  unfolding given
  lds_restored [] ne h = absurd (ne refl)
  lds_restored (l ∷ ls₁) ne h =
      undo-LdsDone (lds_needed wg) given.lds_offset reserved r.lds_mask k.lds l ls₁ h
        (given.lds_undone reserved)
      ∙ ap strip (convert-IsClear to_reserve reserved r.lds_mask v.lds_clear)

  abbrev released : CuResource
  released = record (freed (holding r wg ls k) wg ls) { reserved_wgs = r.reserved_wgs }

  view-released : ls ≢ [] → view released ≡ view r
  unfolding given
  view-released ne = λ i. record {
    counts = put_all-take_all r.wf_pool_free_count ls i;
    sregs =
        (given.sgpr_undone reserved
            ∙ ap strip (convert-IsClear to_reserve reserved r.sreg_mask v.sregs_clear))
          i;
    lds = lds_restored ls ne given.lds_located i;
    vregs =
        (strips-undo_all (vgpr_required wg) ls (convert_all reserved k.vregs)
            ∙ ap (undo_all (vgpr_required wg) ls) (strips-convert_all reserved k.vregs)
            ∙ given.vgpr_undone reserved
            ∙ marks-strips reserved r.vreg_masks v.vregs_clear)
          i;
    wgs = r.reserved_wgs;
  }

  free-holding :
      find_wg wg.address r.reserved_wgs ≡ none
      → free_resources_for_wg (holding r wg ls k) wg ≡ some released
  unfolding free_resources_for_wg find_wg delete_wg
  free-holding fresh = rw (==_refl wg.address) (
      rw (free_locations-freed (holding r wg ls k) wg ls holding-FitsAll)
        (rw (==_refl wg.address) (rw (delete-fresh wg.address r.reserved_wgs fresh) refl)))

  released-IsReady : IsReady released
  released-IsReady =
      let held =
        converted-IsReady reserved (take_all r.wf_pool_free_count ls) r wg k refl (simds v)
          (length-take_all r.wf_pool_free_count ls) d in
      let after = freed-IsReady (holding r wg ls k) wg ls (add_wg held) in
      record {
        sreg_unit = refl;
        vreg_unit = refl;
        lds_unit = refl;
        next = after.next;
        masks = after.masks;
        sregs_clear = after.sregs_clear;
        lds_clear = after.lds_clear;
        vregs_clear = after.vregs_clear;
      }

-- Freeing a work-group after a reservation that a ready compute unit granted does not panic and gives back exactly what the
-- reservation took: the free entries, all marks and the map of work-groups are as before it, and
-- the compute unit is ready again. The work-group has a wavefront.
pub free-reserve :
    (r : CuResource) (wg : WorkGroup) {ls : List WfLocation} {r' : CuResource}
    → IsReady r
    → wg.wavefronts ≢ []
    → reserve_resource_for_wg r wg ≡ some (some ls, r')
    → (r'' : CuResource) × (free_resources_for_wg r' wg ≡ some r'')
      × (view r'' ≡ view r)
      × IsReady r''
free-reserve r wg {ls} {r'} v ne h = elim (outcome r wg (simds v)) [
  | refused ls₁ k e d ↦ cc (same_run r wg v)
  | granted ls₁ k f e d ↦
      let same : holding r wg ls₁ k ≡ r' = cc (same_run r wg v) in
      (
        released r wg ls₁ k v d,
        ap (λ x. free_resources_for_wg x wg) (sym same) ∙ free-holding r wg ls₁ k v d f,
        view-released r wg ls₁ k v d (λ e. ne (no_wavefronts (d.given refl) e)),
        released-IsReady r wg ls₁ k v d,
      )
  | panics ls₁ f e ↦ cc (same_run r wg v)
]
  where
    no_wavefronts :
        {ls₁ : List WfLocation} {k : Masks} → Given r wg ls₁ k → ls₁ ≡ [] → wg.wavefronts ≡ []
    no_wavefronts g e = length_zero wg.wavefronts (sym g.located ∙ ap length e)
