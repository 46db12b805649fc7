-- ===== src/Grid/Dim.antt =====
-- The number of work-groups along one axis, by multiplication.
use native.Mathlib.Nat.{le-div_iff_mul-le}
use sampled_mgpu_sim.Prelude.{ℕ, ◌+◌, ◌-◌, ◌*◌, ◌/◌, ◌%◌, ◌^◌, ◌<◌, ◌≤◌, ◌≡◌, ap, ◌↔◌, arith, leb}
use sampled_mgpu_sim.Grid.{dim, min_int}

-- `size - 1` does not wrap on a size that is not 0.
pred_size : (s : ℕ) → 0 < s → s < 2 ^ 32 → (s + 2 ^ 32 - 1) % 2 ^ 32 ≡ s - 1
pred_size s h k = omega arith

dim-wrap : (s w : ℕ) → 0 < s → s < 2 ^ 32 → dim s w ≡ (s - 1) / w + 1
unfolding dim
dim-wrap s w h k = ap (λ r. r / w + 1) (pred_size s h k)

-- The group at position `x` begins inside the grid exactly where `x` is below `dim`.
pub lt-dim_iff : (s w x : ℕ) → 0 < s → s < 2 ^ 32 → 0 < w → (x < dim s w) ↔ (x * w < s)
lt-dim_iff s w x hs hb hw = (forward, backward)
  where
    below : (x ≤ (s - 1) / w) ↔ (x * w ≤ s - 1)
    below = le-div_iff_mul-le hw

    forward : x < dim s w → x * w < s
    forward h = omega (arith, dim-wrap s w hs hb, below.0 (omega (arith, dim-wrap s w hs hb)))

    backward : x * w < s → x < dim s w
    backward h = omega (arith, dim-wrap s w hs hb, below.1 (omega arith))

pub mul_suc : (a b : ℕ) → (a + 1) * b ≡ a * b + b
mul_suc a b = omega arith

-- The part of the axis that is left is taken whole by the last group, and by no other.
pub last-dim :
    (s w x : ℕ)
    → 0 < s
    → s < 2 ^ 32
    → 0 < w
    → x < dim s w
    → leb (s - x * w) (min_int (s - x * w) w) ≡ leb (dim s w) (x + 1)
unfolding min_int
last-dim s w x hs hb hw h = ground (arith, mul_suc x w, lt-dim_iff s w (x + 1) hs hb hw)
