-- ===== src/Resource/Cu/Sgpr.antt =====
-- The loop of `withinSGPRLimitation`: it never panics, and all that it marks can be given back.
use mathlib.Core.Bool.{false≢true}
use sampled_mgpu_sim.Prelude.{
  ℕ, suc, ◌*◌, ◌/◌, ◌≡◌, refl, sym, ap, ◌∙◌, subst, Option, none, some, List, [], ◌∷◌, length, true,
  false, Bool, arith, All, map,
}
use sampled_mgpu_sim.Resource.Mask.{
  free, to_reserve, ResourceMask, unlimited, limited, next_region, convert_status,
}
use sampled_mgpu_sim.Resource.Mask.Undo.{
  strip, write, Fits, SameSize, SameSize-refl, SameSize-sym, SameSize-trans, Fits-SameSize,
  strip-write, write_comm, Claimed, next_region-Claimed,
}
use sampled_mgpu_sim.Resource.Cu.Match.{WfLocation}
use sampled_mgpu_sim.Resource.Cu.{sgpr_loop}

-- `n` units at each of the offsets are written free, the first offset first.
abbrev pub undo : ℕ → List ℕ → ResourceMask → ResourceMask
undo n [] m = m
undo n (o ∷ os) m = undo n os (write o n free m)

pub undo-write :
    (n : ℕ) (os : List ℕ) (o : ℕ) (m : ResourceMask)
    → undo n os (write o n free m) ≡ write o n free (undo n os m)
undo-write n [] o m = refl
undo-write n (p ∷ os) o m =
    ap (undo n os) (write_comm o n p n free m) ∙ undo-write n os o (write p n free m)

pub strip-undo :
    (n : ℕ) (os : List ℕ) (m : ResourceMask) → strip (undo n os m) ≡ undo n os (strip m)
strip-undo n [] m = refl
strip-undo n (o ∷ os) m =
    strip-undo n os (write o n free m) ∙ ap (undo n os) (strip-write o n free m)

-- The offset that `FreeResourcesForWG` computes from a location.
abbrev pub sgpr_units : WfLocation → ℕ
sgpr_units l = l.sgpr_offset / 4 / 16

pub record SgprDone (n : ℕ) (m : ResourceMask) (found : Bool) (ls : List WfLocation)
    (m' : ResourceMask) : Type 0 where
  pub cleared : strip (convert_status to_reserve free m') ≡ strip (convert_status to_reserve free m)
  pub size : SameSize m m'
  pub fits : found ≡ true → All (λ o. Fits o n m) (map sgpr_units ls)
  pub undone :
      found ≡ true
      → (b : _)
      → strip (undo n (map sgpr_units ls) (convert_status to_reserve b m'))
        ≡ strip (convert_status to_reserve b m)

pub next_region-none :
    (m : ResourceMask) (n : ℕ) {mask : ResourceMask}
    → next_region m n free ≡ (none, mask)
    → m ≡ mask
unfolding next_region
next_region-none (unlimited k) n e = ground arith
next_region-none (limited xs) n e = ap (λ p. p.1) e

abbrev pub SgprResult : ℕ → ResourceMask → List WfLocation → Type 0
SgprResult n m ls =
    (found : Bool) × (ls' : List WfLocation) × (m' : ResourceMask) × (sgpr_loop n m ls
      ≡ some (found, ls', m'))
    × (length ls' ≡ length ls)
    × SgprDone n m found ls' m'

pub All-Fits :
    (n : ℕ) (a b : ResourceMask) (os : List ℕ)
    → SameSize a b
    → All (λ o. Fits o n a) os
    → All (λ o. Fits o n b) os
All-Fits n a b [] h f = tt
All-Fits n a b (o ∷ os) h f = (Fits-SameSize o n a b h f.0, All-Fits n a b os h f.1)

-- The offset computed on freeing is the one that was claimed.
sgpr_units-lem : (o : ℕ) → o * 16 * 4 / 4 / 16 ≡ o
sgpr_units-lem o = omega arith

-- The loop goes on behind a claimed region.
Claimed-SgprDone :
    (n o : ℕ) (m mask after : ResourceMask) (l : WfLocation) {found : Bool} (ls' : List WfLocation)
    {m' : ResourceMask}
    → Claimed o n m mask after
    → SgprDone n after found ls' m'
    → SgprDone n m found (record l { sgpr_offset = o * 16 * 4 } ∷ ls') m'
Claimed-SgprDone n o m mask after l {found} ls' {m'} c d = record {
  cleared = d.cleared ∙ c.cleared;
  size = SameSize-trans m after m' c.size d.size;
  fits = λ h. (
    subst (λ k. Fits k n m) (sym (sgpr_units-lem o)) c.fits,
    All-Fits n after m (map sgpr_units ls') (SameSize-sym m after c.size) (d.fits h),
  );
  undone = λ h b.
      ap (λ k. strip (undo n (k ∷ map sgpr_units ls') (convert_status to_reserve b m')))
        (sgpr_units-lem o)
      ∙ ap strip (undo-write n (map sgpr_units ls') o (convert_status to_reserve b m'))
      ∙ strip-write o n free (undo n (map sgpr_units ls') (convert_status to_reserve b m'))
      ∙ ap (write o n free) (d.undone h b)
      ∙ sym (strip-write o n free (convert_status to_reserve b after))
      ∙ c.undone b;
}

pub sgpr_loop-SgprDone : (n : ℕ) (ls : List WfLocation) (m : ResourceMask) → SgprResult n m ls
unfolding sgpr_loop
sgpr_loop-SgprDone n [] m = (
  true,
  [],
  m,
  refl,
  refl,
  record { cleared = refl; size = SameSize-refl m; fits = λ h. tt; undone = λ h b. refl },
)
sgpr_loop-SgprDone n (l ∷ ls) m = go (next_region m n free) refl (sgpr_loop-SgprDone n ls)
  where
    go :
        (r : Option ℕ × ResourceMask)
        → next_region m n free ≡ r
        → ((k : ResourceMask) → SgprResult n k ls)
        → SgprResult n m (l ∷ ls)
    go (none, mask) e again = (
      false,
      l ∷ ls,
      mask,
      rw (e, sgpr_loop) (rw e),
      refl,
      record {
        cleared = ap (λ k. strip (convert_status to_reserve free k)) (sym (next_region-none m n e));
        size = subst (SameSize m) (next_region-none m n e) (SameSize-refl m);
        fits = λ h. absurd (false≢true h);
        undone = λ h. absurd (false≢true h);
      },
    )
    go (some o, mask) e again =
        let c = next_region-Claimed m n e in
        let (found, ls', m', eq, len, d) = again (write o n to_reserve mask) in
        (
          found,
          record l { sgpr_offset = o * 16 * 4 } ∷ ls',
          m',
          rw (e, sgpr_loop) (rw (e, c.done, eq)),
          ap suc len,
          Claimed-SgprDone n o m mask (write o n to_reserve mask) l ls' c d,
        )
