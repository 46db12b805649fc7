-- ===== src/Resource/Cu/Vgpr.antt =====
-- The outer loop of `matchWfWithSIMDs`, from what the inner one does.
use mathlib.Core.Bool.{false≢true}
use sampled_mgpu_sim.Prelude.{
  ℕ, ◌+◌, ◌/◌, ◌≡◌, refl, ap, ap₂, ◌∙◌, some, List, [], ◌∷◌, length, true, false, Bool, arith, map,
  modify, modify_comm, All,
}
use sampled_mgpu_sim.Prelude.Int.{ℤ}
use sampled_mgpu_sim.Resource.Mask.{AllocStatus, free, ResourceMask}
use sampled_mgpu_sim.Resource.Mask.Undo.{write, write_comm}
use sampled_mgpu_sim.Resource.Cu.Match.{WfLocation, SimdState, find_simd, match_loop}
use sampled_mgpu_sim.Resource.Cu.Marks.{
  marks, SameSizes, SameSizes-refl, SameSizes-trans, SameSizes-sym, FitsAt, FitsAt-SameSizes,
}
use sampled_mgpu_sim.Resource.Cu.Sgpr.{sgpr_units}
use sampled_mgpu_sim.Resource.Cu.Simd.{IsValid, SimdDone, vgpr_units, find_simd-SimdDone}

-- The vector registers of each location are written free, the first location first.
abbrev pub undo_all : ℕ → List WfLocation → List ResourceMask → List ResourceMask
undo_all n [] ms = ms
undo_all n (l ∷ ls) ms = undo_all n ls (modify ms l.simd_id (write (vgpr_units l) n free))

undo_all-modify :
    (n : ℕ) (ls : List WfLocation) (i o : ℕ) (ms : List ResourceMask)
    → undo_all n ls (modify ms i (write o n free)) ≡ modify (undo_all n ls ms) i (write o n free)
undo_all-modify n [] i o ms = refl
undo_all-modify n (l ∷ ls) i o ms =
    ap (undo_all n ls) (
      modify_comm ms i l.simd_id (write o n free) (write (vgpr_units l) n free)
        (λ m. write_comm (vgpr_units l) n o n free m))
    ∙ undo_all-modify n ls i o (modify ms l.simd_id (write (vgpr_units l) n free))

pub record MatchDone (n : ℕ) (ms : List ResourceMask) (ls : List WfLocation) (found : Bool)
    (ls' : List WfLocation) (ms' : List ResourceMask) : Type 0 where
  pub cleared : marks free ms' ≡ marks free ms
  pub sizes : SameSizes ms ms'
  pub same_sgpr : map sgpr_units ls' ≡ map sgpr_units ls
  pub same_lds : map (λ l. l.lds_offset) ls' ≡ map (λ l. l.lds_offset) ls
  pub fits : found ≡ true → All (λ l. FitsAt l.simd_id (vgpr_units l) n ms) ls'
  pub undone : found ≡ true → (b : AllocStatus) → undo_all n ls' (marks b ms') ≡ marks b ms

pub All-FitsAt :
    (n : ℕ) (xs ys : List ResourceMask) (ls : List WfLocation)
    → SameSizes xs ys
    → All (λ l. FitsAt l.simd_id (vgpr_units l) n xs) ls
    → All (λ l. FitsAt l.simd_id (vgpr_units l) n ys) ls
All-FitsAt n xs ys [] h f = tt
All-FitsAt n xs ys (l ∷ ls) h f =
    (FitsAt-SameSizes l.simd_id (vgpr_units l) n xs ys h f.0, All-FitsAt n xs ys ls h f.1)

placed-MatchDone :
    (n : ℕ) (ms ms₁ ms' : List ResourceMask) (l l' : WfLocation) (ls ls' : List WfLocation)
    {found : Bool}
    → SimdDone n ms l true l' ms₁
    → MatchDone n ms₁ ls found ls' ms'
    → MatchDone n ms (l ∷ ls) found (l' ∷ ls') ms'
placed-MatchDone n ms ms₁ ms' l l' ls ls' c d = record {
  cleared = d.cleared ∙ c.cleared;
  sizes = SameSizes-trans ms ms₁ ms' c.sizes d.sizes;
  same_sgpr = ap₂ ◌∷◌ (ap (λ o. o / 4 / 16) c.same_sgpr) d.same_sgpr;
  same_lds = ap₂ ◌∷◌ c.same_lds d.same_lds;
  fits = λ h. (c.fits refl, All-FitsAt n ms₁ ms ls' (SameSizes-sym ms ms₁ c.sizes) (d.fits h));
  undone = λ h b.
      undo_all-modify n ls' l'.simd_id (vgpr_units l') (marks b ms')
      ∙ ap (λ k. modify k l'.simd_id (write (vgpr_units l') n free)) (d.undone h b)
      ∙ c.undone refl b;
}

module _ (n : ℕ) (counts : List ℤ) where
  abbrev pub MatchResult : SimdState → List WfLocation → Type 0
  MatchResult s ls =
      (found : Bool) × (ls' : List WfLocation) × (s' : SimdState) × (match_loop n 4 counts s ls
        ≡ some (found, ls', s'))
      × IsValid (length counts) s'
      × MatchDone n s.vreg_masks ls found ls' s'.vreg_masks

  pub match_loop-MatchDone :
      (s : SimdState) (ls : List WfLocation) → IsValid (length counts) s → MatchResult s ls
  unfolding match_loop
  match_loop-MatchDone s [] v = (
    true,
    [],
    s,
    refl,
    v,
    record {
      cleared = refl;
      sizes = SameSizes-refl s.vreg_masks;
      same_sgpr = refl;
      same_lds = refl;
      fits = λ h. tt;
      undone = λ h b. refl;
    },
  )
  match_loop-MatchDone s (l ∷ ls) v =
      let (found, l', s', eq, v', d) =
        find_simd-SimdDone n counts (length counts + 1) true s.next_simd s l v v.next
          (omega arith) in
      goes found l' s' eq v' d (match_loop-MatchDone s' ls v')
    where
      goes :
          (found : Bool) (l' : WfLocation) (s' : SimdState)
          → find_simd n 4 counts (length counts + 1) true s.next_simd s l ≡ some (found, l', s')
          → IsValid (length counts) s'
          → SimdDone n s.vreg_masks l found l' s'.vreg_masks
          → MatchResult s' ls
          → MatchResult s (l ∷ ls)
      goes true l' s' eq v' d (found, ls', s'', eq', v'', d') = (
        found,
        l' ∷ ls',
        s'',
        rw eq (rw eq' refl),
        v'',
        placed-MatchDone n _ _ _ l l' ls ls' d d',
      )
      goes false l' s' eq v' d rest = (
        false,
        l' ∷ ls,
        s',
        rw eq refl,
        v',
        record {
          cleared = d.cleared;
          sizes = d.sizes;
          same_sgpr = ap (λ o. o / 4 / 16 ∷ map sgpr_units ls) d.same_sgpr;
          same_lds = ap (λ o. o ∷ map (λ l. l.lds_offset) ls) d.same_lds;
          fits = λ h. absurd (false≢true h);
          undone = λ h. absurd (false≢true h);
        },
      )
