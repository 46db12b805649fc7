-- ===== src/Dispatch/Spot.antt =====
-- The compute units that a search around the pool meets: `(nextCU + i) % NumCU()`.
use native.Mathlib.Nat.{mod-eq_of_lt, mod-eq-sub-mod}
use native.Mathlib.Decide.{dec_lt}
use sampled_mgpu_sim.Prelude.{ℕ, ◌+◌, ◌-◌, ◌%◌, ◌<◌, ◌≤◌, ◌≡◌, ◌≢◌, ◌⊎◌, inl, inr, ap, ◌∙◌, arith}

-- The rounds of the loop meet different compute units, and each one.
spot :
    (s i n : ℕ)
    → s < n
    → i < n
    → ((s + i < n) × ((s + i) % n ≡ s + i)) ⊎ ((n ≤ s + i) × ((s + i) % n ≡ s + i - n))
spot s i n hs hi = elim (dec_lt (s + i) n) [
  | yes h ↦ inl (h, mod-eq_of_lt h)
  | no h ↦ inr (omega arith, mod-eq-sub-mod (omega arith) ∙ mod-eq_of_lt (omega arith))
]

pub spot-lt : (s i n : ℕ) → s < n → i < n → (s + i) % n < n
spot-lt s i n hs hi = ground (arith, spot s i n hs hi)

pub spot-ne : (s i j n : ℕ) → s < n → i < j → j < n → (s + i) % n ≢ (s + j) % n
spot-ne s i j n hs hij hj e = ground (arith, spot s i n hs (omega arith), spot s j n hs hj)

pub spot-cover : (s k n : ℕ) → s < n → k < n → (i : ℕ) × (i < n) × ((s + i) % n ≡ k)
spot-cover s k n hs hk = elim (dec_lt k s) [
  | yes h ↦ (
    k + n - s,
    omega arith,
    ap (λ m. m % n) (back h)
        ∙ mod-eq-sub-mod (omega arith)
        ∙ ap (λ m. m % n) (omega arith)
        ∙ mod-eq_of_lt hk,
  )
  | no h ↦ (k - s, omega arith, ap (λ m. m % n) (omega arith) ∙ mod-eq_of_lt hk)
]
  where
    back : k < s → s + (k + n - s) ≡ k + n
    back h = omega arith
