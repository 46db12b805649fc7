-- ===== src/Resource/Cu/Ready.antt =====
-- What is seen of a compute unit between two calls, and the invariant that holds there.
use sampled_mgpu_sim.Prelude.{
  length-modify, ℕ, suc, ◌<◌, ◌≡◌, refl, sym, ap, ap₂, ◌∙◌, subst, some, List, [], ◌∷◌, length, map,
  All, false, modify, arith, zero,
}
use sampled_mgpu_sim.Prelude.Int.{ℤ, pos, ◌+ℤ◌}
use sampled_mgpu_sim.Resource.Mask.{
  AllocStatus, free, to_reserve, same, ResourceMask, convert_status,
}
use sampled_mgpu_sim.Resource.Mask.Undo.{
  strip, write, IsClear, IsClear-write, IsClear-convert, convert-IsClear, strip-write,
  SameSize-convert,
}
use sampled_mgpu_sim.Resource.Cu.Match.{WfLocation}
use sampled_mgpu_sim.Resource.Cu.{CuResource, WorkGroup, convert_vregs}
use sampled_mgpu_sim.Resource.Cu.Sgpr.{sgpr_units, undo}
use sampled_mgpu_sim.Resource.Cu.Lds.{lds_units}
use sampled_mgpu_sim.Resource.Cu.Limits.{sgpr_required, vgpr_required, lds_needed}
use sampled_mgpu_sim.Resource.Cu.Free.{put_all, freed}
use sampled_mgpu_sim.Resource.Cu.Marks.{marks, SameSizes}
use sampled_mgpu_sim.Resource.Cu.Simd.{vgpr_units}
use sampled_mgpu_sim.Resource.Cu.Vgpr.{undo_all}

-- The free entries of the wavefront pools, the marks of all masks and the work-groups that hold
-- them. The SIMD unit that the next search starts from, and how far an unlimited mask has
-- counted, are left out.
pub record CuView : Type 0 where
  pub counts : List ℤ
  pub sregs : ResourceMask
  pub lds : ResourceMask
  pub vregs : List ResourceMask
  pub wgs : List (ℕ × List WfLocation)

abbrev pub strips : List ResourceMask → List ResourceMask
strips = map strip

abbrev pub view : CuResource → CuView
view r = record {
  counts = r.wf_pool_free_count;
  sregs = strip r.sreg_mask;
  lds = strip r.lds_mask;
  vregs = strips r.vreg_masks;
  wgs = r.reserved_wgs;
}

-- No reservation is half done, the slices have one entry for each SIMD unit, and the
-- granularities are those that `RegisterCU` sets.
pub record IsReady (r : CuResource) : Type 0 where
  pub sreg_unit : r.sreg_granularity ≡ 16
  pub vreg_unit : r.vreg_granularity ≡ 4
  pub lds_unit : r.lds_granularity ≡ 256
  pub next : r.next_simd < length r.wf_pool_free_count
  pub masks : length r.vreg_masks ≡ length r.wf_pool_free_count
  pub sregs_clear : IsClear to_reserve r.sreg_mask
  pub lds_clear : IsClear to_reserve r.lds_mask
  pub vregs_clear : All (IsClear to_reserve) r.vreg_masks

abbrev pub convert_all : AllocStatus → List ResourceMask → List ResourceMask
convert_all b = map (convert_status to_reserve b)

pub convert_vregs-convert_all :
    (b : AllocStatus) (cs : List ℤ) (ms : List ResourceMask)
    → length ms ≡ length cs
    → convert_vregs to_reserve b cs ms ≡ some (convert_all b ms)
unfolding convert_vregs
convert_vregs-convert_all b [] [] h = refl
convert_vregs-convert_all b [] (m ∷ ms) h = absurd (omega arith)
convert_vregs-convert_all b (c ∷ cs) [] h = absurd (omega arith)
convert_vregs-convert_all b (c ∷ cs) (m ∷ ms) h =
    rw (convert_vregs-convert_all b cs ms (omega arith)) refl

pub strips-convert_all :
    (b : AllocStatus) (ms : List ResourceMask) → strips (convert_all b ms) ≡ marks b ms
strips-convert_all b [] = refl
strips-convert_all b (m ∷ ms) =
    ap (λ ks. strip (convert_status to_reserve b m) ∷ ks) (strips-convert_all b ms)

pub marks-strips :
    (b : AllocStatus) (ms : List ResourceMask)
    → All (IsClear to_reserve) ms
    → marks b ms ≡ strips ms
marks-strips b [] h = refl
marks-strips b (m ∷ ms) h =
    ap₂ ◌∷◌ (ap strip (convert-IsClear to_reserve b m h.0)) (marks-strips b ms h.1)

pub All-IsClear-convert :
    (b : AllocStatus) (ms : List ResourceMask)
    → same b to_reserve ≡ false
    → All (IsClear to_reserve) (convert_all b ms)
All-IsClear-convert b [] h = tt
All-IsClear-convert b (m ∷ ms) h = (IsClear-convert to_reserve b m h, All-IsClear-convert b ms h)

strips-modify :
    (ms : List ResourceMask) (i o n : ℕ)
    → strips (modify ms i (write o n free)) ≡ modify (strips ms) i (write o n free)
strips-modify [] i o n = refl
strips-modify (m ∷ ms) zero o n = ap (λ k. k ∷ strips ms) (strip-write o n free m)
strips-modify (m ∷ ms) (suc i) o n = ap (λ ks. strip m ∷ ks) (strips-modify ms i o n)

pub strips-undo_all :
    (n : ℕ) (ls : List WfLocation) (ms : List ResourceMask)
    → strips (undo_all n ls ms) ≡ undo_all n ls (strips ms)
strips-undo_all n [] ms = refl
strips-undo_all n (l ∷ ls) ms =
    strips-undo_all n ls (modify ms l.simd_id (write (vgpr_units l) n free))
    ∙ ap (undo_all n ls) (strips-modify ms l.simd_id (vgpr_units l) n)

pub SameSizes-convert_all :
    (b : AllocStatus) (ms : List ResourceMask) → SameSizes ms (convert_all b ms)
SameSizes-convert_all b [] = tt
SameSizes-convert_all b (m ∷ ms) = (SameSize-convert to_reserve b m, SameSizes-convert_all b ms)

pub IsClear-undo :
    (n : ℕ) (os : List ℕ) (m : ResourceMask)
    → IsClear to_reserve m
    → IsClear to_reserve (undo n os m)
IsClear-undo n [] m c = c
IsClear-undo n (o ∷ os) m c =
    IsClear-undo n os (write o n free m) (IsClear-write to_reserve free o n m refl c)

IsClear-modify :
    (ms : List ResourceMask) (i o n : ℕ)
    → All (IsClear to_reserve) ms
    → All (IsClear to_reserve) (modify ms i (write o n free))
IsClear-modify [] i o n c = tt
IsClear-modify (m ∷ ms) zero o n c = (IsClear-write to_reserve free o n m refl c.0, c.1)
IsClear-modify (m ∷ ms) (suc i) o n c = (c.0, IsClear-modify ms i o n c.1)

pub IsClear-undo_all :
    (n : ℕ) (ls : List WfLocation) (ms : List ResourceMask)
    → All (IsClear to_reserve) ms
    → All (IsClear to_reserve) (undo_all n ls ms)
IsClear-undo_all n [] ms c = c
IsClear-undo_all n (l ∷ ls) ms c =
    IsClear-undo_all n ls (modify ms l.simd_id (write (vgpr_units l) n free))
      (IsClear-modify ms l.simd_id (vgpr_units l) n c)

length-undo_all :
    (n : ℕ) (ls : List WfLocation) (ms : List ResourceMask) → length (undo_all n ls ms) ≡ length ms
length-undo_all n [] ms = refl
length-undo_all n (l ∷ ls) ms =
    length-undo_all n ls (modify ms l.simd_id (write (vgpr_units l) n free))
    ∙ length-modify ms l.simd_id (write (vgpr_units l) n free)

length-put_all :
    (counts : List ℤ) (ls : List WfLocation) → length (put_all counts ls) ≡ length counts
length-put_all counts [] = refl
length-put_all counts (l ∷ ls) =
    length-put_all (modify counts l.simd_id (λ c. c +ℤ pos 1)) ls
    ∙ length-modify counts l.simd_id (λ c. c +ℤ pos 1)

-- Freeing keeps the invariant.
pub freed-IsReady :
    (r : CuResource) (wg : WorkGroup) (ls : List WfLocation) → IsReady r → IsReady (freed r wg ls)
freed-IsReady r wg ls v = record {
  sreg_unit = refl;
  vreg_unit = refl;
  lds_unit = refl;
  next = subst (λ n. r.next_simd < n) (sym (length-put_all r.wf_pool_free_count ls)) v.next;
  masks =
      length-undo_all (vgpr_required wg) ls r.vreg_masks
      ∙ v.masks
      ∙ sym (length-put_all r.wf_pool_free_count ls);
  sregs_clear = IsClear-undo (sgpr_required wg) (map sgpr_units ls) r.sreg_mask v.sregs_clear;
  lds_clear = IsClear-undo (lds_needed wg) (map lds_units ls) r.lds_mask v.lds_clear;
  vregs_clear = IsClear-undo_all (vgpr_required wg) ls r.vreg_masks v.vregs_clear;
}
