-- ===== src/Resource/Cu/Marks.antt =====
-- The vector register masks of all SIMD units of a compute unit, compared by their marks.
use mathlib.Core.Option.{some-injective}
use sampled_mgpu_sim.Prelude.{
  ℕ, zero, suc, ◌<◌, ◌≡◌, refl, sym, ap, subst, ◌∙◌, some, List, [], ◌∷◌, length, arith, set,
  modify, get_elem?,
}
use sampled_mgpu_sim.Resource.Mask.{AllocStatus, free, to_reserve, ResourceMask, convert_status}
use sampled_mgpu_sim.Resource.Mask.Undo.{
  strip, write, Fits, SameSize, SameSize-refl, SameSize-trans, SameSize-sym, SameSize-write,
  Fits-SameSize, strip-write, strip-convert, SameSize-strip, Claimed,
}

-- The marks once those to be reserved are converted to `b`.
abbrev pub marks : AllocStatus → List ResourceMask → List ResourceMask
marks b [] = []
marks b (m ∷ ms) = strip (convert_status to_reserve b m) ∷ marks b ms

abbrev pub SameSizes : List ResourceMask → List ResourceMask → Type 0
SameSizes [] [] = Unit {0}
SameSizes [] (y ∷ ys) = ⊥
SameSizes (x ∷ xs) [] = ⊥
SameSizes (x ∷ xs) (y ∷ ys) = SameSize x y × SameSizes xs ys

-- Unit `i` exists, and its mask holds the `n` units at `o`.
abbrev pub FitsAt : ℕ → ℕ → ℕ → List ResourceMask → Type 0
FitsAt i o n [] = ⊥
FitsAt zero o n (m ∷ ms) = Fits o n m
FitsAt (suc i) o n (m ∷ ms) = FitsAt i o n ms

pub SameSizes-refl : (ms : List ResourceMask) → SameSizes ms ms
SameSizes-refl [] = tt
SameSizes-refl (m ∷ ms) = (SameSize-refl m, SameSizes-refl ms)

pub SameSizes-trans :
    (xs ys zs : List ResourceMask) → SameSizes xs ys → SameSizes ys zs → SameSizes xs zs
SameSizes-trans [] [] [] h g = tt
SameSizes-trans [] [] (z ∷ zs) h g = absurd g
SameSizes-trans [] (y ∷ ys) zs h g = absurd h
SameSizes-trans (x ∷ xs) [] zs h g = absurd h
SameSizes-trans (x ∷ xs) (y ∷ ys) [] h g = absurd g
SameSizes-trans (x ∷ xs) (y ∷ ys) (z ∷ zs) h g =
    (SameSize-trans x y z h.0 g.0, SameSizes-trans xs ys zs h.1 g.1)

pub SameSizes-sym : (xs ys : List ResourceMask) → SameSizes xs ys → SameSizes ys xs
SameSizes-sym [] [] h = tt
SameSizes-sym [] (y ∷ ys) h = absurd h
SameSizes-sym (x ∷ xs) [] h = absurd h
SameSizes-sym (x ∷ xs) (y ∷ ys) h = (SameSize-sym x y h.0, SameSizes-sym xs ys h.1)

pub FitsAt-SameSizes :
    (i o n : ℕ) (xs ys : List ResourceMask) → SameSizes xs ys → FitsAt i o n xs → FitsAt i o n ys
FitsAt-SameSizes i o n [] ys h f = absurd f
FitsAt-SameSizes i o n (x ∷ xs) [] h f = absurd h
FitsAt-SameSizes zero o n (x ∷ xs) (y ∷ ys) h f = Fits-SameSize o n x y h.0 f
FitsAt-SameSizes (suc i) o n (x ∷ xs) (y ∷ ys) h f = FitsAt-SameSizes i o n xs ys h.1 f

pub FitsAt-lt : (i o n : ℕ) (xs : List ResourceMask) → FitsAt i o n xs → i < length xs
FitsAt-lt i o n [] f = absurd f
FitsAt-lt zero o n (x ∷ xs) f = omega arith
FitsAt-lt (suc i) o n (x ∷ xs) f = omega (arith, FitsAt-lt i o n xs f)

-- A search at one unit leaves all marks alone.
module _ (m mask : ResourceMask) (same_marks : strip mask ≡ strip m) where
  pub marks-search :
      (b : AllocStatus) (ms : List ResourceMask) (i : ℕ)
      → get_elem? ms i ≡ some m
      → marks b (set ms i mask) ≡ marks b ms
  marks-search b [] i e = refl
  marks-search b (x ∷ ms) zero e =
      ap (λ k. k ∷ marks b ms)
        (strip-convert to_reserve b mask
          ∙ ap (convert_status to_reserve b) (same_marks ∙ ap strip (some-injective _ _ (sym e)))
          ∙ sym (strip-convert to_reserve b x))
  marks-search b (x ∷ ms) (suc i) e =
      ap (λ ks. strip (convert_status to_reserve b x) ∷ ks) (marks-search b ms i e)

  pub SameSizes-search :
      (ms : List ResourceMask) (i : ℕ) → get_elem? ms i ≡ some m → SameSizes ms (set ms i mask)
  SameSizes-search [] i e = tt
  SameSizes-search (x ∷ ms) zero e =
      (SameSize-strip x mask (ap strip (some-injective _ _ e) ∙ sym same_marks), SameSizes-refl ms)
  SameSizes-search (x ∷ ms) (suc i) e = (SameSize-refl x, SameSizes-search ms i e)

-- A region claimed at one unit.
module _ {o n : ℕ} {m mask after : ResourceMask} (c : Claimed o n m mask after) where
  pub marks-claim :
      (b : AllocStatus) (ms : List ResourceMask) (i : ℕ)
      → get_elem? ms i ≡ some m
      → modify (marks b (set ms i after)) i (write o n free) ≡ marks b ms
  marks-claim b [] i e = refl
  marks-claim b (x ∷ ms) zero e =
      ap (λ k. k ∷ marks b ms)
        (sym (strip-write o n free (convert_status to_reserve b after))
          ∙ c.undone b
          ∙ ap (λ k. strip (convert_status to_reserve b k)) (sym (some-injective _ _ e)))
  marks-claim b (x ∷ ms) (suc i) e =
      ap (λ ks. strip (convert_status to_reserve b x) ∷ ks) (marks-claim b ms i e)

  pub marks-clear :
      (ms : List ResourceMask) (i : ℕ)
      → get_elem? ms i ≡ some m
      → marks free (set ms i after) ≡ marks free ms
  marks-clear [] i e = refl
  marks-clear (x ∷ ms) zero e =
      ap (λ k. k ∷ marks free ms)
        (c.cleared
          ∙ ap (λ k. strip (convert_status to_reserve free k)) (sym (some-injective _ _ e)))
  marks-clear (x ∷ ms) (suc i) e =
      ap (λ ks. strip (convert_status to_reserve free x) ∷ ks) (marks-clear ms i e)

  pub SameSizes-claim :
      (ms : List ResourceMask) (i : ℕ) → get_elem? ms i ≡ some m → SameSizes ms (set ms i after)
  SameSizes-claim [] i e = tt
  SameSizes-claim (x ∷ ms) zero e =
      (subst (λ k. SameSize k after) (sym (some-injective _ _ e)) c.size, SameSizes-refl ms)
  SameSizes-claim (x ∷ ms) (suc i) e = (SameSize-refl x, SameSizes-claim ms i e)

  pub FitsAt-claim : (ms : List ResourceMask) (i : ℕ) → get_elem? ms i ≡ some m → FitsAt i o n ms
  FitsAt-claim [] i e = ground arith
  FitsAt-claim (x ∷ ms) zero e = subst (Fits o n) (sym (some-injective _ _ e)) c.fits
  FitsAt-claim (x ∷ ms) (suc i) e = FitsAt-claim ms i e

pub SameSizes-modify :
    (ms : List ResourceMask) (i o n : ℕ) (s : AllocStatus)
    → SameSizes ms (modify ms i (write o n s))
SameSizes-modify [] i o n s = tt
SameSizes-modify (x ∷ ms) zero o n s = (SameSize-write o n s x, SameSizes-refl ms)
SameSizes-modify (x ∷ ms) (suc i) o n s = (SameSize-refl x, SameSizes-modify ms i o n s)

pub SameSizes-length : (xs ys : List ResourceMask) → SameSizes xs ys → length xs ≡ length ys
SameSizes-length [] [] h = refl
SameSizes-length [] (y ∷ ys) h = absurd h
SameSizes-length (x ∷ xs) [] h = absurd h
SameSizes-length (x ∷ xs) (y ∷ ys) h = ap suc (SameSizes-length xs ys h.1)
