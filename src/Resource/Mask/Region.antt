-- ===== src/Resource/Mask/Region.antt =====
-- What `nextRegion` finds.
use mathlib.Core.Path.{subst⁻¹, subst₂}
use native.Mathlib.Numerals.{add-one}
use native.Mathlib.Decide.{dec_lt}
use sampled_mgpu_sim.Prelude.{
  ℕ, zero, suc, ◌+◌, ◌-◌, ◌≤◌, ◌<◌, ◌≡◌, ◌≢◌, refl, sym, ap, ==_iff, ◌∙◌, subst, length,
  length-append, length-replicate, Option, none, some, List, [], ◌∷◌, ◌++◌, true, false, arith,
  drop, replicate, ◌==◌, Bool-cases, inl, inr,
}
use sampled_mgpu_sim.Resource.Mask.{AllocStatus, same, scan, next_region_impl}
use sampled_mgpu_sim.Resource.Mask.Fill.{Run}

pub same-eq : (a b : AllocStatus) → same a b ≡ true → a ≡ b
same-eq a b h = ground arith

pub same-ne : (a b : AllocStatus) → same a b ≡ false → a ≢ b
same-ne a b h = ground arith

-- The first region of `n` units with the status, in the part of a mask that starts at `base`;
-- `none` where there is none.
pub FirstRegion : List AllocStatus → ℕ → AllocStatus → ℕ → Option ℕ → Type 0
FirstRegion xs n st base none = (k : ℕ) → ¬ Run st n (drop k xs)
FirstRegion xs n st base (some o) =
    (k : ℕ) × (o ≡ base + k) × Run st n (drop k xs) × ((j : ℕ) → j < k → ¬ Run st n (drop j xs))

Run-replicate : (st : AllocStatus) (n : ℕ) (xs : List AllocStatus) → Run st n (replicate n st ++ xs)
Run-replicate st zero xs = tt
Run-replicate st (suc n) xs = (refl, Run-replicate st n xs)

-- No region starts at or before a unit of another status that it would have to cover.
Run-blocked :
    (st x : AllocStatus) (c n j : ℕ) (xs : List AllocStatus)
    → x ≢ st
    → c < n
    → j < suc c
    → ¬ Run st n (drop j (replicate c st ++ x ∷ xs))
Run-blocked st x c zero j xs ne h l r = absurd (omega arith)
Run-blocked st x zero (suc n) zero xs ne h l r = ne r.0
Run-blocked st x zero (suc n) (suc j) xs ne h l r = absurd (omega arith)
Run-blocked st x (suc c) (suc n) zero xs ne h l r =
    Run-blocked st x c n zero xs ne (omega arith) (omega arith) r.1
Run-blocked st x (suc c) (suc n) (suc j) xs ne h l r =
    Run-blocked st x c (suc n) j xs ne (omega arith) (omega arith) r

drop-replicate :
    {A : Type 0} (c : ℕ) (a x : A) (xs : List A) (k : ℕ)
    → drop (suc c + k) (replicate c a ++ x ∷ xs) ≡ drop k xs
drop-replicate zero a x xs k = let e : 1 + k ≡ suc k = omega arith in rw e
drop-replicate (suc c) a x xs k =
    let e : suc (suc c) + k ≡ suc (suc c + k) = omega arith in rw e (drop-replicate c a x xs k)

replicate_snoc :
    {A : Type 0} (c : ℕ) (a : A) (xs : List A) → replicate (suc c) a ++ xs ≡ replicate c a ++ a ∷ xs
replicate_snoc zero a xs = refl
replicate_snoc (suc c) a xs = ap (λ ys. a ∷ ys) (replicate_snoc c a xs)

-- A unit of another status ends the run before it: go on behind it.
restart :
    (st x : AllocStatus) (c n base : ℕ) (xs : List AllocStatus) (r : Option ℕ)
    → x ≢ st
    → c < n
    → FirstRegion xs n st (base + suc c) r
    → FirstRegion (replicate c st ++ x ∷ xs) n st base r
unfolding FirstRegion
restart st x c n base xs none ne h f = λ k r. elim (dec_lt k (suc c)) [
  | yes l ↦ Run-blocked st x c n k xs ne h l r
  | no g ↦ f (k - suc c) (subst (Run st n) (behind k g) r)
]
  where
    behind : (k : ℕ) → ¬ (k < suc c) → drop k (replicate c st ++ x ∷ xs) ≡ drop (k - suc c) xs
    behind k g =
        ap (λ m. drop m (replicate c st ++ x ∷ xs)) (omega arith)
        ∙ drop-replicate c st x xs (k - suc c)
restart st x c n base xs (some o) ne h (k, e, run, first) =
    (suc c + k, omega arith, subst⁻¹ (Run st n) (drop-replicate c st x xs k) run, earlier)
  where
    earlier : (j : ℕ) → j < suc c + k → ¬ Run st n (drop j (replicate c st ++ x ∷ xs))
    earlier j l r = elim (dec_lt j (suc c)) [
      | yes b ↦ Run-blocked st x c n j xs ne h b r
      | no g ↦ first (j - suc c) (omega arith) (
          subst (Run st n)
            (ap (λ m. drop m (replicate c st ++ x ∷ xs)) (omega arith)
              ∙ drop-replicate c st x xs (j - suc c))
            r)
    ]

Run-le : (st : AllocStatus) (n : ℕ) (xs : List AllocStatus) → Run st n xs → n ≤ length xs
Run-le st zero xs r = omega arith
Run-le st (suc n) [] r = absurd r
Run-le st (suc n) (x ∷ xs) r = omega (arith, Run-le st n xs r.1)

length-drop-le : {A : Type 0} (k : ℕ) (xs : List A) → length (drop k xs) ≤ length xs
length-drop-le zero xs = omega arith
length-drop-le (suc k) [] = omega arith
length-drop-le (suc k) (x ∷ xs) = omega (arith, length-drop-le k xs)

-- A unit of the status lengthens the run before it.
grow :
    (st x : AllocStatus) (c : ℕ) (xs : List AllocStatus)
    → same x st ≡ true
    → replicate (c + 1) st ++ xs ≡ replicate c st ++ x ∷ xs
grow st x c xs s =
    ap (λ m. replicate m st ++ xs) (add-one c)
    ∙ replicate_snoc c st xs
    ∙ ap (λ y. replicate c st ++ y ∷ xs) (sym (same-eq x st s))

scan-FirstRegion :
    (xs : List AllocStatus) (off c n base : ℕ) (st : AllocStatus)
    → c < n
    → off ≡ base + c
    → FirstRegion (replicate c st ++ xs) n st base (scan xs off c n st)
unfolding scan FirstRegion
scan-FirstRegion [] off c n base st h e = λ k r. omega (
  arith,
  Run-le st n _ r,
  length-drop-le k (replicate c st ++ []),
  length-append (replicate c st) [],
  length-replicate c st,
)
scan-FirstRegion (x ∷ xs) off c n base st h e = elim (Bool-cases (same x st)) [
  | inl s ↦ elim (Bool-cases (c + 1 == n)) [
    | inl done ↦
        rw (s, done, scan)
          (
            0,
            omega arith,
            subst₂ (Run st) ((==_iff (c + 1) n).0 done) (grow st x c xs s)
                (Run-replicate st (c + 1) xs),
            λ j l. absurd (omega arith),
          )
    | inr more ↦
        rw (s, more, scan)
          (subst (λ ys. FirstRegion ys n st base (scan xs (off + 1) (c + 1) n st))
            (grow st x c xs s)
            (scan-FirstRegion xs (off + 1) (c + 1) n base st (ground arith) (omega arith)))
  ]
  | inr s ↦
      rw (s, scan)
        (restart st x c n base xs (scan xs (off + 1) 0 n st) (same-ne x st s) h
          (scan-FirstRegion xs (off + 1) 0 n (base + suc c) st (omega arith) (omega arith)))
]

-- `nextRegion` on a limited mask returns the start of the first region of `length` units that all
-- have the status wanted, and reports failure only where the mask has no such region.
pub next_region-FirstRegion :
    (mask : List AllocStatus) (length : ℕ) (status : AllocStatus)
    → FirstRegion mask length status 0 (next_region_impl mask length status)
unfolding next_region_impl FirstRegion
next_region-FirstRegion mask zero status = (0, refl, tt, λ j l. absurd (omega arith))
next_region-FirstRegion mask (suc n) status =
    let positive : (suc n == 0) ≡ false = ground arith in
    rw positive (scan-FirstRegion mask 0 0 (suc n) 0 status (omega arith) (omega arith))

-- What a caller needs: a region that is found has the status throughout.
pub next_region-Run :
    (mask : List AllocStatus) (n : ℕ) (st : AllocStatus) {o : ℕ}
    → next_region_impl mask n st ≡ some o
    → Run st n (drop o mask)
unfolding FirstRegion
next_region-Run mask n st {o} e =
    let (k, at, run, first) =
      subst (FirstRegion mask n st 0) e (next_region-FirstRegion mask n st) in
    let same_start : k ≡ o = omega arith in subst (λ m. Run st n (drop m mask)) same_start run
