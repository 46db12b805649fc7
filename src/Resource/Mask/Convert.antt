-- ===== src/Resource/Mask/Convert.antt =====
-- `convertStatus` with the other operations, and what it does to the counts.
use sampled_mgpu_sim.Prelude.{
  ℕ, zero, suc, ◌+◌, ◌≡◌, ◌≢◌, refl, ap, List, [], ◌∷◌, false, arith, if◌then◌else◌,
}
use sampled_mgpu_sim.Resource.Mask.{AllocStatus, same, convert_impl, status_count_impl}
use sampled_mgpu_sim.Resource.Mask.Fill.{fill}

-- No unit has the status.
abbrev pub Clear : AllocStatus → List AllocStatus → Type 0
Clear st [] = Unit {0}
Clear st (x ∷ xs) = (same x st ≡ false) × Clear st xs

pub convert-Clear :
    (a b : AllocStatus) (xs : List AllocStatus) → same b a ≡ false → Clear a (convert_impl a b xs)
unfolding convert_impl
convert-Clear a b [] h = tt
convert-Clear a b (x ∷ xs) h = (ground arith, convert-Clear a b xs h)

pub convert_id : (a b : AllocStatus) (xs : List AllocStatus) → Clear a xs → convert_impl a b xs ≡ xs
unfolding convert_impl
convert_id a b [] h = refl
convert_id a b (x ∷ xs) h = rw h.0 (ap (λ ys. x ∷ ys) (convert_id a b xs h.1))

-- Conversion goes under a write of a status that it leaves alone.
pub convert-fill :
    (a b s : AllocStatus) (xs : List AllocStatus) (o n : ℕ)
    → same s a ≡ false
    → convert_impl a b (fill xs o n s) ≡ fill (convert_impl a b xs) o n s
unfolding convert_impl
convert-fill a b s [] o n h = refl
convert-fill a b s (x ∷ xs) (suc o) n h =
    ap (λ ys. (if same x a then b else x) ∷ ys) (convert-fill a b s xs o n h)
convert-fill a b s (x ∷ xs) zero zero h = refl
convert-fill a b s (x ∷ xs) zero (suc n) h =
    rw h (ap (λ ys. s ∷ ys) (convert-fill a b s xs zero n h))

-- `convertStatus` on a limited mask, between two different statuses, moves all units of one to the
-- other, and no others.
pub count-convert :
    (a b c : AllocStatus) (xs : List AllocStatus)
    → a ≢ b
    → (status_count_impl a (convert_impl a b xs) ≡ 0)
      × (status_count_impl b (convert_impl a b xs)
          ≡ status_count_impl a xs + status_count_impl b xs)
      × (c ≢ a → c ≢ b → status_count_impl c (convert_impl a b xs) ≡ status_count_impl c xs)
unfolding convert_impl status_count_impl
count-convert a b c [] ne = (refl, refl, λ p q. refl)
count-convert a b c (x ∷ xs) ne =
    let (none_left, moved, others) = count-convert a b c xs ne in
    (ground arith, ground arith, λ p q. ground (arith, others p q))

-- Writing what a conversion takes away, or what it puts there, comes to the same.
pub convert-fill_from :
    (a b : AllocStatus) (xs : List AllocStatus) (o n : ℕ)
    → same b a ≡ false
    → convert_impl a b (fill xs o n a) ≡ convert_impl a b (fill xs o n b)
unfolding convert_impl
convert-fill_from a b [] o n h = refl
convert-fill_from a b (x ∷ xs) (suc o) n h =
    ap (λ ys. (if same x a then b else x) ∷ ys) (convert-fill_from a b xs o n h)
convert-fill_from a b (x ∷ xs) zero zero h = refl
convert-fill_from a b (x ∷ xs) zero (suc n) h = ground (arith, convert-fill_from a b xs zero n h)

pub Clear-fill :
    (a s : AllocStatus) (xs : List AllocStatus) (o n : ℕ)
    → same s a ≡ false
    → Clear a xs
    → Clear a (fill xs o n s)
Clear-fill a s [] o n h c = tt
Clear-fill a s (x ∷ xs) (suc o) n h c = (c.0, Clear-fill a s xs o n h c.1)
Clear-fill a s (x ∷ xs) zero zero h c = c
Clear-fill a s (x ∷ xs) zero (suc n) h c = (h, Clear-fill a s xs zero n h c.1)
