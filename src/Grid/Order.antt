-- ===== src/Grid/Order.antt =====
-- The order in which `NextWG` goes through the positions of the grid: the rank of a position, and
-- the step from each to the one after it.
use native.Mathlib.Nat.{mul-le-mul_right}
use sampled_mgpu_sim.Prelude.{
  ℕ, ◌+◌, ◌-◌, ◌*◌, ◌^◌, ◌<◌, ◌≤◌, ◌≡◌, refl, sym, ap, ◌∙◌, ◌⊎◌, inl, inr, none, some, true, leb,
  arith, Bool-cases, leb→le,
}
use sampled_mgpu_sim.Grid.{Packet, GridBuilder, dim, min_int, group_at, current_group, advance}
use sampled_mgpu_sim.Grid.Dim.{lt-dim_iff, mul_suc, last-dim}

abbrev pub IsSize : ℕ → ℕ → Type 0
IsSize s w = (0 < s) × (s < 2 ^ 32) × (0 < w)

abbrev pub IsLegal : Packet → Type 0
IsLegal p =
    IsSize p.grid_size_x p.workgroup_size_x
    × IsSize p.grid_size_y p.workgroup_size_y
    × IsSize p.grid_size_z p.workgroup_size_z

-- A position of a work-group, or the one just past the last.
abbrev pub IsInside : GridBuilder → Type 0
IsInside b =
    (b.xdim ≡ dim b.packet.grid_size_x b.packet.workgroup_size_x)
    × (b.ydim ≡ dim b.packet.grid_size_y b.packet.workgroup_size_y)
    × (b.zdim ≡ dim b.packet.grid_size_z b.packet.workgroup_size_z)
    × (b.xid < b.xdim)
    × (b.yid < b.ydim)
    × ((b.zid < b.zdim) ⊎ ((b.zid ≡ b.zdim) × (b.xid ≡ 0) × (b.yid ≡ 0)))

-- The groups before the position, x fastest.
unfoldable pub rank_at : GridBuilder → ℕ → ℕ → ℕ → ℕ
rank_at b x y z = (z * b.ydim + y) * b.xdim + x

unfoldable pub rank : GridBuilder → ℕ
rank b = rank_at b b.xid b.yid b.zid

unfoldable pub total : GridBuilder → ℕ
total b = b.zdim * b.ydim * b.xdim

pub rank_end : (b : GridBuilder) → b.zid ≡ b.zdim → b.xid ≡ 0 → b.yid ≡ 0 → rank b ≡ total b
unfolding rank rank_at total
rank_end b hz hx hy = rw (hz, hx, hy) (omega arith)

pub rank_bound :
    (b : GridBuilder) (x y z : ℕ) → x < b.xdim → y < b.ydim → z < b.zdim → rank_at b x y z < total b
unfolding rank rank_at total
rank_bound b x y z hx hy hz =
    omega (arith, mul-le-mul_right b.xdim row, mul_suc (z * b.ydim + y) b.xdim)
  where
    step : z + 1 ≤ b.zdim
    step = omega arith

    row : z * b.ydim + y + 1 ≤ b.zdim * b.ydim
    row = omega (arith, mul-le-mul_right b.ydim step, mul_suc z b.ydim)

pub rank_le : (b : GridBuilder) → IsInside b → rank b ≤ total b
unfolding rank
rank_le b inside = elim inside.5 [
  | inl h ↦ omega (arith, rank_bound b b.xid b.yid b.zid inside.3 inside.4 h)
  | inr e ↦ omega (arith, rank_end b e.0 e.1 e.2)
]

pub current-none :
    (b : GridBuilder) → IsLegal b.packet → IsInside b → b.zid ≡ b.zdim → current_group b ≡ none
unfolding current_group
current-none b legal inside h =
    ground (arith, lt-dim_iff b.packet.grid_size_z b.packet.workgroup_size_z b.zid)

pub current-some :
    (b : GridBuilder)
    → IsLegal b.packet
    → IsInside b
    → b.zid < b.zdim
    → current_group b ≡ some (group_at b.packet b.xid b.yid b.zid)
unfolding current_group
current-some b legal inside h = ground (
  arith,
  lt-dim_iff b.packet.grid_size_x b.packet.workgroup_size_x b.xid,
  lt-dim_iff b.packet.grid_size_y b.packet.workgroup_size_y b.yid,
  lt-dim_iff b.packet.grid_size_z b.packet.workgroup_size_z b.zid,
)

abbrev pub moved : GridBuilder → ℕ → ℕ → ℕ → GridBuilder
moved b x y z = record b { xid = x; yid = y; zid = z }

abbrev pub Next : GridBuilder → GridBuilder → Type 0
Next b after =
    (x : ℕ) × (y : ℕ) × (z : ℕ) × (after ≡ moved b x y z)
    × (rank_at b x y z ≡ rank b + 1)
    × IsInside (moved b x y z)

rest_x :
    (b : GridBuilder)
    → IsLegal b.packet
    → IsInside b
    → leb (b.packet.grid_size_x - b.xid * b.packet.workgroup_size_x) (
        min_int
          (b.packet.grid_size_x - b.xid * b.packet.workgroup_size_x)
          b.packet.workgroup_size_x)
      ≡ leb b.xdim (b.xid + 1)
rest_x b legal inside =
    last-dim b.packet.grid_size_x b.packet.workgroup_size_x b.xid (ground arith) (ground arith)
      (ground arith) (ground arith)
    ∙ ap (λ d. leb d (b.xid + 1)) (sym inside.0)

rest_y :
    (b : GridBuilder)
    → IsLegal b.packet
    → IsInside b
    → leb (b.packet.grid_size_y - b.yid * b.packet.workgroup_size_y) (
        min_int
          (b.packet.grid_size_y - b.yid * b.packet.workgroup_size_y)
          b.packet.workgroup_size_y)
      ≡ leb b.ydim (b.yid + 1)
rest_y b legal inside =
    last-dim b.packet.grid_size_y b.packet.workgroup_size_y b.yid (ground arith) (ground arith)
      (ground arith) (ground arith)
    ∙ ap (λ d. leb d (b.yid + 1)) (sym inside.1)

-- The step inside a row, to the next row, and to the next plane.
pub advance-Next :
    (b : GridBuilder)
    → IsLegal b.packet
    → IsInside b
    → b.zid < b.zdim
    → Next b (advance b (group_at b.packet b.xid b.yid b.zid))
unfolding advance group_at rank rank_at
advance-Next b legal inside h = elim (Bool-cases (leb b.xdim (b.xid + 1))) [
  | inr more ↦ (
    b.xid + 1,
    b.yid,
    b.zid,
    rw (rest_x b legal inside) (rw more refl),
    ground arith,
    ground arith,
  )
  | inl last ↦ elim (Bool-cases (leb b.ydim (b.yid + 1))) [
    | inr more ↦ (
      0,
      b.yid + 1,
      b.zid,
      rw (rest_x b legal inside) (rw last (rw (rest_y b legal inside) (rw more refl))),
      (omega (arith, leb→le b.xdim (b.xid + 1) last, mul_suc (b.zid * b.ydim + b.yid) b.xdim)),
      ground arith,
    )
    | inl end ↦ (
      0,
      0,
      b.zid + 1,
      rw (rest_x b legal inside) (rw last (rw (rest_y b legal inside) (rw end refl))),
      row last end,
      ground arith,
    )
  ]
]
  where
    plane : leb b.ydim (b.yid + 1) ≡ true → (b.zid + 1) * b.ydim + 0 ≡ b.zid * b.ydim + b.yid + 1
    plane end = omega (arith, leb→le b.ydim (b.yid + 1) end, mul_suc b.zid b.ydim)

    row :
        leb b.xdim (b.xid + 1) ≡ true
        → leb b.ydim (b.yid + 1) ≡ true
        → ((b.zid + 1) * b.ydim + 0) * b.xdim + 0 ≡ rank b + 1
    row last end = omega (
      arith,
      leb→le b.xdim (b.xid + 1) last,
      ap (λ r. r * b.xdim) (plane end),
      mul_suc (b.zid * b.ydim + b.yid) b.xdim,
    )

not_below : (a c n x y : ℕ) → x < n → a * n + x ≡ c * n + y → a < c → ⊥
not_below a c n x y hx e h = omega (arith, mul-le-mul_right n step, mul_suc a n)
  where
    step : a + 1 ≤ c
    step = omega arith

-- The digits of a number are determined by it.
digit : (a c n x y : ℕ) → x < n → y < n → a * n + x ≡ c * n + y → (a ≡ c) × (x ≡ y)
digit a c n x y hx hy e = (same, omega (arith, ap (λ q. q * n) same))
  where
    same : a ≡ c
    same = ground (arith, not_below a c n x y hx e, not_below c a n y x hy (sym e))

pub rank-injective :
    (b : GridBuilder) (x y z u v w : ℕ)
    → x < b.xdim
    → y < b.ydim
    → u < b.xdim
    → v < b.ydim
    → rank_at b x y z ≡ rank_at b u v w
    → (x ≡ u) × (y ≡ v) × (z ≡ w)
unfolding rank_at
rank-injective b x y z u v w hx hy hu hv e =
    let outer = digit (z * b.ydim + y) (w * b.ydim + v) b.xdim x u hx hu e in
    let inner = digit z w b.ydim y v hy hv outer.0 in (outer.1, inner.1, inner.0)
