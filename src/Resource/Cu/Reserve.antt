-- ===== src/Resource/Cu/Reserve.antt =====
-- `ReserveResourceForWG` and `FreeResourcesForWG` as their callers see them.
use sampled_mgpu_sim.Prelude.{
  length-map, ℕ, ◌≡◌, refl, sym, ap, ◌∙◌, subst, some, none, Option, List, [], ◌∷◌, length, All,
  true, false, Bool, arith, inl, inr, Option-cases,
}
use sampled_mgpu_sim.Prelude.Int.{ℤ}
use sampled_mgpu_sim.Resource.Mask.{
  AllocStatus, free, to_reserve, reserved, same, ResourceMask, convert_status,
}
use sampled_mgpu_sim.Resource.Mask.Undo.{strip, convert-IsClear, IsClear-convert}
use sampled_mgpu_sim.Resource.Cu.Match.{WfLocation}
use sampled_mgpu_sim.Resource.Cu.{
  CuResource, WorkGroup, find_wg, convert_masks, reserve_resources, clear_temp_reservation,
  reserve_resource_for_wg,
}
use sampled_mgpu_sim.Resource.Cu.Marks.{SameSizes-length, FitsAt, FitsAt-lt}
use sampled_mgpu_sim.Resource.Cu.Simd.{vgpr_units}
use sampled_mgpu_sim.Resource.Cu.Lds.{standard}
use sampled_mgpu_sim.Resource.Cu.Limits.{
  vgpr_required, Masks, with_masks, Given, LimitsDone, HasSimds, LimitsResult,
  within_limitations-LimitsDone,
}
use sampled_mgpu_sim.Resource.Cu.Free.{take_all, InRange, take_entries-take_all, length-take_all}
use sampled_mgpu_sim.Resource.Cu.Ready.{
  view, IsReady, convert_all, convert_vregs-convert_all, strips-convert_all, marks-strips,
  All-IsClear-convert,
}

-- The compute unit once the marks to be reserved are converted to `b`.
abbrev pub converted : AllocStatus → List ℤ → CuResource → Masks → CuResource
converted b counts r k = record (with_masks r k) {
  wf_pool_free_count = counts;
  sreg_mask = convert_status to_reserve b k.sregs;
  lds_mask = convert_status to_reserve b k.lds;
  vreg_masks = convert_all b k.vregs;
}

abbrev pub holding : CuResource → WorkGroup → List WfLocation → Masks → CuResource
holding r wg ls k = record (converted reserved (take_all r.wf_pool_free_count ls) r k) {
  reserved_wgs = (wg.address, ls) ∷ r.reserved_wgs;
}

convert_masks-converted :
    (b : AllocStatus) (counts : List ℤ) (r : CuResource) (k : Masks)
    → length k.vregs ≡ length counts
    → convert_masks to_reserve b (record (with_masks r k) { wf_pool_free_count = counts })
      ≡ some (converted b counts r k)
unfolding convert_masks
convert_masks-converted b counts r k h = rw (convert_vregs-convert_all b counts k.vregs h) refl

FitsAt-InRange :
    (n : ℕ) (ms : List ResourceMask) (ls : List WfLocation)
    → All (λ l. FitsAt l.simd_id (vgpr_units l) n ms) ls
    → InRange (length ms) ls
FitsAt-InRange n ms [] h = tt
FitsAt-InRange n ms (l ∷ ls) h =
    (FitsAt-lt l.simd_id (vgpr_units l) n ms h.0, FitsAt-InRange n ms ls h.1)

module _ (r : CuResource) (wg : WorkGroup) where
  -- The ways in which a reservation can end.
  pub data Outcome : Type 0 where
    refused :
        (ls : List WfLocation) (k : Masks)
        → reserve_resource_for_wg (standard r) wg
          ≡ some (none, converted free r.wf_pool_free_count r k)
        → LimitsDone r wg false ls k
        → Outcome
    granted :
        (ls : List WfLocation) (k : Masks)
        → find_wg wg.address r.reserved_wgs ≡ none
        → reserve_resource_for_wg (standard r) wg ≡ some (some ls, holding r wg ls k)
        → LimitsDone r wg true ls k
        → Outcome
    panics :
        (ls : List WfLocation)
        → find_wg wg.address r.reserved_wgs ≡ some ls
        → reserve_resource_for_wg (standard r) wg ≡ none
        → Outcome

  module _ (v : HasSimds r) where
    pub k_length :
        {found : Bool} {ls : List WfLocation} {k : Masks}
        → LimitsDone r wg found ls k
        → length k.vregs ≡ length r.wf_pool_free_count
    k_length {k = k} d = sym (SameSizes-length r.vreg_masks k.vregs d.vregs_size) ∙ v.masks

    pub in_range :
        {ls : List WfLocation} {k : Masks}
        → Given r wg ls k
        → InRange (length r.wf_pool_free_count) ls
    in_range {ls} g =
        subst (λ n. InRange n ls) v.masks
          (FitsAt-InRange (vgpr_required wg) r.vreg_masks ls g.vgpr_fits)

    reserve_resources-eq :
        {ls : List WfLocation} {k : Masks} {o : Option (List WfLocation)}
        → LimitsDone r wg true ls k
        → find_wg wg.address r.reserved_wgs ≡ o
        → reserve_resources (with_masks r k) wg ls
          ≡ elim o [ none ↦ some (holding r wg ls k) | some _ ↦ none ]
    unfolding reserve_resources
    reserve_resources-eq {ls} {k} d e =
        rw (take_entries-take_all r.wf_pool_free_count ls (in_range (d.given refl))) (
          rw
            (convert_masks-converted reserved (take_all r.wf_pool_free_count ls) r k
              (k_length d ∙ sym (length-take_all r.wf_pool_free_count ls)))
            (rw (← e) refl))

    pub outcome : Outcome
    unfolding reserve_resource_for_wg clear_temp_reservation
    outcome = go (within_limitations-LimitsDone r wg v)
      where
        go : LimitsResult r wg → Outcome
        go (false, ls, k, e, d) =
            refused ls k
              (rw e (rw (convert_masks-converted free r.wf_pool_free_count r k (k_length d)) refl))
              d
        go (true, ls, k, e, d) = elim (Option-cases (find_wg wg.address r.reserved_wgs)) [
          | inl fresh ↦ granted ls k fresh (rw e (rw (reserve_resources-eq d fresh) refl)) d
          | inr (old, held) ↦ panics old held (rw e (rw (reserve_resources-eq d held) refl))
        ]

pub standard-eq : (r : CuResource) → IsReady r → standard r ≡ r
standard-eq r v = λ i. record r {
  sreg_granularity = sym v.sreg_unit i;
  vreg_granularity = sym v.vreg_unit i;
  lds_granularity = sym v.lds_unit i;
}

pub simds : {r : CuResource} → IsReady r → HasSimds r
simds v = record { next = v.next; masks = v.masks }

pub same_run :
    (r : CuResource) (wg : WorkGroup)
    → IsReady r
    → reserve_resource_for_wg (standard r) wg ≡ reserve_resource_for_wg r wg
same_run r wg v = ap (λ x. reserve_resource_for_wg x wg) (standard-eq r v)

view-refused :
    (r : CuResource) (wg : WorkGroup) (ls : List WfLocation) (k : Masks)
    → IsReady r
    → LimitsDone r wg false ls k
    → view (converted free r.wf_pool_free_count r k) ≡ view r
view-refused r wg ls k v d = λ i. record {
  counts = r.wf_pool_free_count;
  sregs =
      (d.sregs_cleared ∙ ap strip (convert-IsClear to_reserve free r.sreg_mask v.sregs_clear)) i;
  lds = (d.lds_cleared ∙ ap strip (convert-IsClear to_reserve free r.lds_mask v.lds_clear)) i;
  vregs =
      (strips-convert_all free k.vregs
          ∙ d.vregs_cleared
          ∙ marks-strips free r.vreg_masks v.vregs_clear)
        i;
  wgs = r.reserved_wgs;
}

pub converted-IsReady :
    (b : AllocStatus) (counts : List ℤ) (r : CuResource) (wg : WorkGroup) {found : Bool}
    {ls : List WfLocation} (k : Masks)
    → same b to_reserve ≡ false
    → HasSimds r
    → length counts ≡ length r.wf_pool_free_count
    → LimitsDone r wg found ls k
    → IsReady (converted b counts r k)
converted-IsReady b counts r wg k h s e d = record {
  sreg_unit = refl;
  vreg_unit = refl;
  lds_unit = refl;
  next = omega (arith, d.next, e);
  masks = length-map (convert_status to_reserve b) k.vregs ∙ k_length r wg s d ∙ sym e;
  sregs_clear = IsClear-convert to_reserve b k.sregs h;
  lds_clear = IsClear-convert to_reserve b k.lds h;
  vregs_clear = All-IsClear-convert b k.vregs h;
}

-- A reservation that does not succeed leaves a ready compute unit as it was: the free entries, all
-- marks and the map of work-groups. This holds whichever of the three checks fails, and however
-- much was marked before it.
pub reserve-refused :
    (r : CuResource) (wg : WorkGroup) {r' : CuResource}
    → IsReady r
    → reserve_resource_for_wg r wg ≡ some (none, r')
    → view r' ≡ view r
reserve-refused r wg {r'} v h = elim (outcome r wg (simds v)) [
  | refused ls k e d ↦
      let same : converted free r.wf_pool_free_count r k ≡ r' = cc (same_run r wg v) in
      ap view (sym same) ∙ view-refused r wg ls k v d
  | granted ls k f e d ↦ cc (same_run r wg v)
  | panics ls f e ↦ cc (same_run r wg v)
]
