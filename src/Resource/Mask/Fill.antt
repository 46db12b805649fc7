-- ===== src/Resource/Mask/Fill.antt =====
-- `setStatus` against a reference definition that writes a whole region at once.
use native.Mathlib.Numerals.{add-one}
use sampled_mgpu_sim.Prelude.{
  ℕ, zero, suc, ◌+◌, ◌≤◌, ◌≡◌, refl, sym, ap, ◌∙◌, some, List, [], ◌∷◌, length, set, length-set,
  store-some, arith, drop,
}
use sampled_mgpu_sim.Resource.Mask.{AllocStatus, set_status_impl}

abbrev pub fill : List AllocStatus → ℕ → ℕ → AllocStatus → List AllocStatus
fill [] o n st = []
fill (x ∷ xs) (suc o) n st = x ∷ fill xs o n st
fill (x ∷ xs) zero zero st = x ∷ xs
fill (x ∷ xs) zero (suc n) st = st ∷ fill xs zero n st

-- The `n` units from the head on have the status.
abbrev pub Run : AllocStatus → ℕ → List AllocStatus → Type 0
Run st zero xs = Unit {0}
Run st (suc n) [] = ⊥
Run st (suc n) (x ∷ xs) = (x ≡ st) × Run st n xs

pub fill-zero : (xs : List AllocStatus) (o : ℕ) (st : AllocStatus) → fill xs o 0 st ≡ xs
fill-zero [] o st = refl
fill-zero (x ∷ xs) zero st = refl
fill-zero (x ∷ xs) (suc o) st = ap (λ ys. x ∷ ys) (fill-zero xs o st)

pub length-fill :
    (xs : List AllocStatus) (o n : ℕ) (st : AllocStatus) → length (fill xs o n st) ≡ length xs
length-fill [] o n st = refl
length-fill (x ∷ xs) (suc o) n st = ap suc (length-fill xs o n st)
length-fill (x ∷ xs) zero zero st = refl
length-fill (x ∷ xs) zero (suc n) st = ap suc (length-fill xs zero n st)

-- One round of the loop.
fill-set :
    (xs : List AllocStatus) (o n : ℕ) (st : AllocStatus)
    → fill (set xs o st) (suc o) n st ≡ fill xs o (suc n) st
fill-set [] o n st = refl
fill-set (x ∷ xs) zero n st = refl
fill-set (x ∷ xs) (suc o) n st = ap (λ ys. x ∷ ys) (fill-set xs o n st)

-- Within the mask, the loop of `setStatus` does not panic and writes the status to each unit of the
-- region and to no other: it agrees with `fill`, which recurses on the mask.
pub set_status-fill :
    (xs : List AllocStatus) (o n : ℕ) (st : AllocStatus)
    → o + n ≤ length xs
    → set_status_impl xs o n st ≡ some (fill xs o n st)
unfolding set_status_impl
set_status-fill xs o zero st h = ap some (sym (fill-zero xs o st))
set_status-fill xs o (suc n) st h = rw (store-some xs o st (omega arith)) (
    set_status-fill (set xs o st) (o + 1) n st (omega (arith, length-set xs o st))
    ∙ ap some (rw add-one (fill-set xs o n st)))

-- A later write of the same region wins.
pub fill-fill :
    (xs : List AllocStatus) (o n : ℕ) (s t : AllocStatus)
    → fill (fill xs o n s) o n t ≡ fill xs o n t
fill-fill [] o n s t = refl
fill-fill (x ∷ xs) (suc o) n s t = ap (λ ys. x ∷ ys) (fill-fill xs o n s t)
fill-fill (x ∷ xs) zero zero s t = refl
fill-fill (x ∷ xs) zero (suc n) s t = ap (λ ys. t ∷ ys) (fill-fill xs zero n s t)

-- Writes of one status commute.
pub fill_comm :
    (xs : List AllocStatus) (o n p m : ℕ) (s : AllocStatus)
    → fill (fill xs o n s) p m s ≡ fill (fill xs p m s) o n s
fill_comm [] o n p m s = refl
fill_comm (x ∷ xs) (suc o) n (suc p) m s = ap (λ ys. x ∷ ys) (fill_comm xs o n p m s)
fill_comm (x ∷ xs) (suc o) n zero zero s = refl
fill_comm (x ∷ xs) (suc o) n zero (suc m) s = ap (λ ys. s ∷ ys) (fill_comm xs o n zero m s)
fill_comm (x ∷ xs) zero zero (suc p) m s = refl
fill_comm (x ∷ xs) zero (suc n) (suc p) m s = ap (λ ys. s ∷ ys) (fill_comm xs zero n p m s)
fill_comm (x ∷ xs) zero zero zero zero s = refl
fill_comm (x ∷ xs) zero zero zero (suc m) s = refl
fill_comm (x ∷ xs) zero (suc n) zero zero s = refl
fill_comm (x ∷ xs) zero (suc n) zero (suc m) s = ap (λ ys. s ∷ ys) (fill_comm xs zero n zero m s)

-- Writing the status that a region already has changes nothing.
pub fill-Run :
    (xs : List AllocStatus) (o n : ℕ) (st : AllocStatus)
    → Run st n (drop o xs)
    → fill xs o n st ≡ xs
fill-Run [] o n st r = refl
fill-Run (x ∷ xs) (suc o) n st r = ap (λ ys. x ∷ ys) (fill-Run xs o n st r)
fill-Run (x ∷ xs) zero zero st r = refl
fill-Run (x ∷ xs) zero (suc n) st r = ground (arith, fill-Run xs zero n st)

pub Run-length :
    (xs : List AllocStatus) (o n : ℕ) (st : AllocStatus)
    → Run st (suc n) (drop o xs)
    → o + suc n ≤ length xs
Run-length [] zero n st r = absurd r
Run-length [] (suc o) n st r = absurd r
Run-length (x ∷ xs) (suc o) n st r = omega (arith, Run-length xs o n st r)
Run-length (x ∷ xs) zero zero st r = omega arith
Run-length (x ∷ xs) zero (suc n) st r = omega (arith, Run-length xs zero n st r.1)
