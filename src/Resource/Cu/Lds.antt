-- ===== src/Resource/Cu/Lds.antt =====
-- `withinLDSLimitation`: one region for the whole work-group, which each wavefront's location names.
use mathlib.Core.Bool.{false≢true}
use sampled_mgpu_sim.Prelude.{
  ℕ, ◌*◌, ◌/◌, ◌≡◌, refl, sym, ap, ◌∙◌, subst, some, none, Option, List, [], ◌∷◌, true, false, Bool,
  arith, map, All,
}
use sampled_mgpu_sim.Resource.Mask.{
  AllocStatus, free, to_reserve, ResourceMask, unlimited, limited, next_region, convert_status,
}
use sampled_mgpu_sim.Resource.Mask.Fill.{fill-fill}
use sampled_mgpu_sim.Resource.Mask.Undo.{
  strip, write, Fits, SameSize, SameSize-refl, next_region-Claimed,
}
use sampled_mgpu_sim.Resource.Cu.Match.{WfLocation}
use sampled_mgpu_sim.Resource.Cu.{CuResource, WorkGroup, units_occupy, within_lds_limitation}
use sampled_mgpu_sim.Resource.Cu.Sgpr.{sgpr_units, undo, next_region-none}

-- With the granularities that `RegisterCU` sets.
abbrev pub standard : CuResource → CuResource
standard r = record r { sreg_granularity = 16; vreg_granularity = 4; lds_granularity = 256 }

-- The offset that `FreeResourcesForWG` computes from a location.
abbrev pub lds_units : WfLocation → ℕ
lds_units l = l.lds_offset / 256

abbrev pub with_lds : ℕ → List WfLocation → List WfLocation
with_lds o = map {A = WfLocation} (λ l. record l { lds_offset = o })

pub map-sgpr-with_lds :
    (o : ℕ) (ls : List WfLocation) → map sgpr_units (with_lds o ls) ≡ map sgpr_units ls
map-sgpr-with_lds o [] = refl
map-sgpr-with_lds o (l ∷ ls) = ap (λ ks. sgpr_units l ∷ ks) (map-sgpr-with_lds o ls)

-- All locations name the same units, also after other fields have changed.
pub All-with_lds :
    (o : ℕ) (ls ls' : List WfLocation)
    → map (λ l. l.lds_offset) ls' ≡ map (λ l. l.lds_offset) (with_lds (o * 256) ls)
    → All (λ l. lds_units l ≡ o) ls'
All-with_lds o [] [] e = tt
All-with_lds o [] (x ∷ ls') e = ground arith
All-with_lds o (l ∷ ls) [] e = tt
All-with_lds o (l ∷ ls) (x ∷ ls') e =
    let first : x.lds_offset ≡ o * 256 = cc in (omega arith, All-with_lds o ls ls' cc)

write_twice : (o n : ℕ) (m : ResourceMask) → write o n free (write o n free m) ≡ write o n free m
write_twice o n (unlimited k) = refl
write_twice o n (limited xs) = ap limited (fill-fill xs o n free free)

undo_same :
    (n o : ℕ) (ls : List WfLocation) (m : ResourceMask)
    → All (λ l. lds_units l ≡ o) ls
    → undo n (map lds_units ls) (write o n free m) ≡ write o n free m
undo_same n o [] m h = refl
undo_same n o (l ∷ ls) m h =
    ap (λ k. undo n (map lds_units ls) (write k n free (write o n free m))) h.0
    ∙ ap (undo n (map lds_units ls)) (write_twice o n m)
    ∙ undo_same n o ls m h.1

pub record LdsDone (n : ℕ) (m : ResourceMask) (found : Bool) (ls ls' : List WfLocation)
    (m' : ResourceMask) : Type 0 where
  pub cleared : strip (convert_status to_reserve free m') ≡ strip (convert_status to_reserve free m)
  pub size : SameSize m m'
  pub offset : ℕ
  pub located : found ≡ true → ls' ≡ with_lds (offset * 256) ls
  pub fits : found ≡ true → Fits offset n m
  pub undone :
      found ≡ true
      → (b : AllocStatus)
      → strip (write offset n free (convert_status to_reserve b m'))
        ≡ strip (convert_status to_reserve b m)

-- Giving back the region once for each location, of which there is one at least, gives it back.
pub undo-LdsDone :
    (n o : ℕ) (b : AllocStatus) (m m' : ResourceMask) (l : WfLocation) (ls : List WfLocation)
    → All (λ l. lds_units l ≡ o) (l ∷ ls)
    → strip (write o n free (convert_status to_reserve b m'))
      ≡ strip (convert_status to_reserve b m)
    → strip (undo n (map lds_units (l ∷ ls)) (convert_status to_reserve b m'))
      ≡ strip (convert_status to_reserve b m)
undo-LdsDone n o b m m' l ls h d =
    ap (λ k. strip (undo n (map lds_units ls) (write k n free (convert_status to_reserve b m'))))
      h.0
    ∙ ap strip (undo_same n o ls (convert_status to_reserve b m') h.1)
    ∙ d

module _ (r : CuResource) (wg : WorkGroup) (ls : List WfLocation) where
  abbrev pub lds_required : ℕ
  lds_required = units_occupy wg.code_object.wg_group_segment_byte_size 256

  abbrev pub LdsResult : Type 0
  LdsResult =
      (found : Bool) × (ls' : List WfLocation) × (m' : ResourceMask) × (within_lds_limitation
          (standard r) wg ls
        ≡ some (found, ls', record (standard r) { lds_mask = m' }))
      × LdsDone lds_required r.lds_mask found ls ls' m'

  pub within_lds-LdsDone : LdsResult
  unfolding within_lds_limitation
  within_lds-LdsDone = go (next_region r.lds_mask lds_required free) refl
    where
      go : (p : Option ℕ × ResourceMask) → next_region r.lds_mask lds_required free ≡ p → LdsResult
      go (none, mask) e = (
        false,
        ls,
        mask,
        rw (e, within_lds_limitation) (rw e refl),
        record {
          cleared =
              ap (λ k. strip (convert_status to_reserve free k))
                (sym (next_region-none r.lds_mask lds_required e));
          size =
              subst (SameSize r.lds_mask) (next_region-none r.lds_mask lds_required e)
                (SameSize-refl r.lds_mask);
          offset = 0;
          located = λ h. absurd (false≢true h);
          fits = λ h. absurd (false≢true h);
          undone = λ h. absurd (false≢true h);
        },
      )
      go (some o, mask) e =
          let c = next_region-Claimed r.lds_mask lds_required e in
          (
            true,
            with_lds (o * 256) ls,
            write o lds_required to_reserve mask,
            rw (e, within_lds_limitation) (rw e (rw c.done refl)),
            record {
              cleared = c.cleared;
              size = c.size;
              offset = o;
              located = λ h. refl;
              fits = λ h. c.fits;
              undone = λ h. c.undone;
            },
          )
