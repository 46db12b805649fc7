-- ===== src/Resource/Cu/Free.antt =====
-- The loop of `FreeResourcesForWG`: where every location fits, it does not panic, and writes the
-- units of each free.
use mathlib.Core.Option.{some-injective}
use sampled_mgpu_sim.Prelude.{
  ℕ, suc, ◌<◌, ◌≡◌, refl, sym, ap, ◌∙◌, some, List, [], ◌∷◌, length, map, modify, All, store-some,
  modify-set, modify_comm, modify_cancel, length-modify, get_elem?, get_elem?-some, subst, zero,
}
use sampled_mgpu_sim.Prelude.Int.{ℤ, pos, ◌+ℤ◌, ◌-ℤ◌, sub-add_self}
use sampled_mgpu_sim.Resource.Mask.{free, ResourceMask}
use sampled_mgpu_sim.Resource.Mask.Undo.{write, Fits, set_status-write, SameSize-write}
use sampled_mgpu_sim.Resource.Cu.Match.{WfLocation}
use sampled_mgpu_sim.Resource.Cu.{
  CuResource, WorkGroup, take_entries, free_location, free_locations,
}
use sampled_mgpu_sim.Resource.Cu.Marks.{SameSizes-modify, FitsAt, FitsAt-lt}
use sampled_mgpu_sim.Resource.Cu.Sgpr.{sgpr_units, undo, All-Fits}
use sampled_mgpu_sim.Resource.Cu.Simd.{vgpr_units}
use sampled_mgpu_sim.Resource.Cu.Vgpr.{undo_all, All-FitsAt}
use sampled_mgpu_sim.Resource.Cu.Lds.{standard, lds_units}
use sampled_mgpu_sim.Resource.Cu.Limits.{sgpr_required, vgpr_required, lds_needed}

abbrev pub take_all : List ℤ → List WfLocation → List ℤ
take_all counts [] = counts
take_all counts (l ∷ ls) = take_all (modify counts l.simd_id (λ c. c -ℤ pos 1)) ls

abbrev pub put_all : List ℤ → List WfLocation → List ℤ
put_all counts [] = counts
put_all counts (l ∷ ls) = put_all (modify counts l.simd_id (λ c. c +ℤ pos 1)) ls

-- Every location names one of `size` SIMD units.
abbrev pub InRange : ℕ → List WfLocation → Type 0
InRange size = All (λ l. l.simd_id < size)

pub take_entries-take_all :
    (counts : List ℤ) (ls : List WfLocation)
    → InRange (length counts) ls
    → take_entries counts ls ≡ some (take_all counts ls)
unfolding take_entries
take_entries-take_all counts [] h = refl
take_entries-take_all counts (l ∷ ls) h =
    let (c, e) = get_elem?-some counts l.simd_id h.0 in
    rw e (
      rw (store-some counts l.simd_id (c -ℤ pos 1) h.0) (
        rw (modify-set counts l.simd_id (λ c. c -ℤ pos 1) e) (
          take_entries-take_all (modify counts l.simd_id (λ c. c -ℤ pos 1)) ls
            (rw (length-modify counts l.simd_id (λ c. c -ℤ pos 1)) h.1))))

pub length-take_all :
    (counts : List ℤ) (ls : List WfLocation) → length (take_all counts ls) ≡ length counts
length-take_all counts [] = refl
length-take_all counts (l ∷ ls) =
    length-take_all (modify counts l.simd_id (λ c. c -ℤ pos 1)) ls
    ∙ length-modify counts l.simd_id (λ c. c -ℤ pos 1)

put_all-take :
    (ls : List WfLocation) (counts : List ℤ) (i : ℕ)
    → put_all (modify counts i (λ c. c +ℤ pos 1)) ls
      ≡ modify (put_all counts ls) i (λ c. c +ℤ pos 1)
put_all-take [] counts i = refl
put_all-take (l ∷ ls) counts i =
    ap (λ cs. put_all cs ls)
      (modify_comm counts i l.simd_id (λ c. c +ℤ pos 1) (λ c. c +ℤ pos 1) (λ c. refl))
    ∙ put_all-take ls (modify counts l.simd_id (λ c. c +ℤ pos 1)) i

-- The entries that were taken are put back.
pub put_all-take_all :
    (counts : List ℤ) (ls : List WfLocation) → put_all (take_all counts ls) ls ≡ counts
put_all-take_all counts [] = refl
put_all-take_all counts (l ∷ ls) =
    put_all-take ls (take_all (modify counts l.simd_id (λ c. c -ℤ pos 1)) ls) l.simd_id
    ∙ ap (λ cs. modify cs l.simd_id (λ c. c +ℤ pos 1))
        (put_all-take_all (modify counts l.simd_id (λ c. c -ℤ pos 1)) ls)
    ∙ modify_cancel counts l.simd_id (λ c. c -ℤ pos 1) (λ c. c +ℤ pos 1)
        (λ c. sub-add_self c (pos 1))

-- The units of all locations lie in the masks.
pub record FitsAll (r : CuResource) (wg : WorkGroup) (ls : List WfLocation) : Type 0 where
  pub range : InRange (length r.wf_pool_free_count) ls
  pub sgprs : All (λ o. Fits o (sgpr_required wg) r.sreg_mask) (map sgpr_units ls)
  pub lds : All (λ o. Fits o (lds_needed wg) r.lds_mask) (map lds_units ls)
  pub vgprs : All (λ l. FitsAt l.simd_id (vgpr_units l) (vgpr_required wg) r.vreg_masks) ls

abbrev pub freed : CuResource → WorkGroup → List WfLocation → CuResource
freed r wg ls = record (standard r) {
  wf_pool_free_count = put_all r.wf_pool_free_count ls;
  sreg_mask = undo (sgpr_required wg) (map sgpr_units ls) r.sreg_mask;
  lds_mask = undo (lds_needed wg) (map lds_units ls) r.lds_mask;
  vreg_masks = undo_all (vgpr_required wg) ls r.vreg_masks;
}

get_FitsAt :
    (i o n : ℕ) (ms : List ResourceMask) {m : ResourceMask}
    → get_elem? ms i ≡ some m
    → FitsAt i o n ms
    → Fits o n m
get_FitsAt i o n [] e f = absurd f
get_FitsAt zero o n (x ∷ ms) e f = subst (Fits o n) (some-injective _ _ e) f
get_FitsAt (suc i) o n (x ∷ ms) e f = get_FitsAt i o n ms e f

free_location-freed :
    (r : CuResource) (wg : WorkGroup) (l : WfLocation) (ls : List WfLocation)
    → FitsAll r wg (l ∷ ls)
    → free_location (standard r) wg l ≡ some (freed r wg (l ∷ []))
unfolding free_location
free_location-freed r wg l ls f =
    let (c, ec) = get_elem?-some r.wf_pool_free_count l.simd_id f.range.0 in
    let (m, em) =
      get_elem?-some r.vreg_masks l.simd_id
        (FitsAt-lt l.simd_id (vgpr_units l) (vgpr_required wg) r.vreg_masks f.vgprs.0) in
    rw ec (
      rw (store-some r.wf_pool_free_count l.simd_id (c +ℤ pos 1) f.range.0) (
        rw (set_status-write (lds_units l) (lds_needed wg) free r.lds_mask f.lds.0) (
          rw (set_status-write (sgpr_units l) (sgpr_required wg) free r.sreg_mask f.sgprs.0) (
            rw em (
              rw
                (set_status-write (vgpr_units l) (vgpr_required wg) free m (
                  get_FitsAt l.simd_id (vgpr_units l) (vgpr_required wg) r.vreg_masks em f.vgprs.0))
                (rw
                  (store-some r.vreg_masks l.simd_id
                    (write (vgpr_units l) (vgpr_required wg) free m)
                    (FitsAt-lt l.simd_id (vgpr_units l) (vgpr_required wg) r.vreg_masks f.vgprs.0))
                  (rw
                    (
                      modify-set r.wf_pool_free_count l.simd_id (λ c. c +ℤ pos 1) ec,
                      modify-set r.vreg_masks l.simd_id
                          (write (vgpr_units l) (vgpr_required wg) free) em,
                    )
                    refl)))))))

freed-FitsAll :
    (r : CuResource) (wg : WorkGroup) (l : WfLocation) (ls : List WfLocation)
    → FitsAll r wg (l ∷ ls)
    → FitsAll (freed r wg (l ∷ [])) wg ls
freed-FitsAll r wg l ls f = record {
  range =
      subst (λ n. InRange n ls) (sym (length-modify r.wf_pool_free_count l.simd_id _)) f.range.1;
  sgprs =
      All-Fits (sgpr_required wg) r.sreg_mask _ (map sgpr_units ls)
        (SameSize-write (sgpr_units l) (sgpr_required wg) free r.sreg_mask) f.sgprs.1;
  lds =
      All-Fits (lds_needed wg) r.lds_mask _ (map lds_units ls)
        (SameSize-write (lds_units l) (lds_needed wg) free r.lds_mask) f.lds.1;
  vgprs =
      All-FitsAt (vgpr_required wg) r.vreg_masks _ ls
        (SameSizes-modify r.vreg_masks l.simd_id (vgpr_units l) (vgpr_required wg) free) f.vgprs.1;
}

pub free_locations-freed :
    (r : CuResource) (wg : WorkGroup) (ls : List WfLocation)
    → FitsAll r wg ls
    → free_locations (standard r) wg ls ≡ some (freed r wg ls)
unfolding free_locations
free_locations-freed r wg [] f = refl
free_locations-freed r wg (l ∷ ls) f =
    rw (free_location-freed r wg l ls f)
      (free_locations-freed (freed r wg (l ∷ [])) wg ls (freed-FitsAll r wg l ls f))
