-- ===== src/Grid/Search.antt =====
-- What the search of `NextWG` returns under a filter, and that it ends.
use native.Mathlib.Decide.{dec_lt}
use sampled_mgpu_sim.Prelude.{
  ℕ, zero, suc, ◌+◌, ◌<◌, ◌≤◌, ◌≡◌, refl, sym, ap, ◌∙◌, subst, inl, inr, Option, none, some, true,
  false, arith, Bool-cases,
}
use sampled_mgpu_sim.Grid.{
  WorkGroup, GridBuilder, group_at, current_group, advance, passes, find_wg,
}
use sampled_mgpu_sim.Grid.Order.{
  IsLegal, IsInside, rank_at, rank, total, moved, Next, rank_end, rank_le, current-none,
  current-some, advance-Next, rank-injective,
}

-- The filter rejects every group whose rank lies in a range.
unfoldable pub Rejected : GridBuilder → ℕ → ℕ → Type 0
Rejected b from to =
    (x y z : ℕ)
    → x < b.xdim
    → y < b.ydim
    → z < b.zdim
    → from ≤ rank_at b x y z
    → rank_at b x y z < to
    → passes b (group_at b.packet x y z) ≡ false

-- What a search from `b` returns: the first group, by rank, that the filter accepts, and the
-- position after it; or nil where it rejects the rest, and the position past the end.
pub data Found (b : GridBuilder) : Option WorkGroup → GridBuilder → Type 0 where
  accepted :
      (x y z u v w : ℕ)
      → x < b.xdim
      → y < b.ydim
      → z < b.zdim
      → passes b (group_at b.packet x y z) ≡ true
      → Rejected b (rank b) (rank_at b x y z)
      → rank b ≤ rank_at b x y z
      → rank_at b u v w ≡ rank_at b x y z + 1
      → IsInside (moved b u v w)
      → Found b (some (group_at b.packet x y z)) (moved b u v w)
  exhausted :
      (u v w : ℕ)
      → Rejected b (rank b) (total b)
      → rank_at b u v w ≡ total b
      → IsInside (moved b u v w)
      → Found b none (moved b u v w)

-- Where the search goes on after a rejected group, it has rejected this one too.
Rejected-step :
    (b : GridBuilder) (to u v w : ℕ)
    → IsInside b
    → rank_at b u v w ≡ rank b + 1
    → passes b (group_at b.packet b.xid b.yid b.zid) ≡ false
    → Rejected (moved b u v w) (rank_at b u v w) to
    → Rejected b (rank b) to
unfolding Rejected rank rank_at passes
Rejected-step b to u v w inside e fails rest x y z hx hy hz from below =
    elim (dec_lt (rank b) (rank_at b x y z)) [
      | yes later ↦ rest x y z hx hy hz (omega arith) below
      | no first ↦
          let same =
            rank-injective b x y z b.xid b.yid b.zid hx hy (ground arith) (ground arith)
              (omega arith) in
          (rw (same.0, same.1, same.2) fails)
    ]

Found-step :
    (b : GridBuilder) (u v w : ℕ) {r : Option WorkGroup} {after : GridBuilder}
    → IsInside b
    → rank_at b u v w ≡ rank b + 1
    → passes b (group_at b.packet b.xid b.yid b.zid) ≡ false
    → Found (moved b u v w) r after
    → Found b r after
unfolding rank rank_at passes total
Found-step b u v w inside e fails (accepted x y z i j k hx hy hz ok rejected le next inside') =
    accepted x y z i j k hx hy hz ok
      (Rejected-step b (rank_at b x y z) u v w inside e fails rejected) (omega arith) next inside'
Found-step b u v w inside e fails (exhausted i j k rejected end inside') =
    exhausted i j k (Rejected-step b (total b) u v w inside e fails rejected) end inside'

module _ (fuel : ℕ) (b : GridBuilder) where
  pub find_wg-nil : current_group b ≡ none → find_wg (suc fuel) b ≡ some (none, b)
  unfolding find_wg
  find_wg-nil e = rw (e, find_wg) refl

  pub find_wg-hit :
      {wg : WorkGroup}
      → current_group b ≡ some wg
      → passes b wg ≡ true
      → find_wg (suc fuel) b ≡ some (some wg, advance b wg)
  unfolding find_wg advance
  find_wg-hit e ok = rw (e, find_wg) (rw ok refl)

  find_wg-miss :
      {wg : WorkGroup}
      → current_group b ≡ some wg
      → passes b wg ≡ false
      → find_wg (suc fuel) b ≡ find_wg fuel (advance b wg)
  unfolding find_wg
  find_wg-miss e fails = rw (e, find_wg) (rw fails refl)

abbrev pub Answer : ℕ → GridBuilder → Type 0
Answer fuel b =
    (r : Option WorkGroup) × (after : GridBuilder) × (find_wg fuel b ≡ some (r, after))
    × Found b r after

nothing-Rejected : (b : GridBuilder) (from : ℕ) → Rejected b from from
unfolding Rejected
nothing-Rejected b from x y z hx hy hz le lt = absurd (omega arith)

finished :
    (fuel : ℕ) (b : GridBuilder)
    → IsLegal b.packet
    → IsInside b
    → b.zid ≡ b.zdim
    → Answer (suc fuel) b
unfolding rank
finished fuel b legal inside e = (
  none,
  b,
  find_wg-nil fuel b (current-none b legal inside e),
  exhausted b.xid b.yid b.zid
      (subst (λ k. Rejected b k (total b)) (sym end) (nothing-Rejected b (total b))) end inside,
)
  where
    end : rank b ≡ total b
    end = rank_end b e (ground arith) (ground arith)

-- A round at a position of the grid: either it ends the search or it goes on one rank later.
round :
    (fuel : ℕ) (b : GridBuilder)
    → IsLegal b.packet
    → IsInside b
    → b.zid < b.zdim
    → Next b (advance b (group_at b.packet b.xid b.yid b.zid))
    → ((after : GridBuilder)
        → after.packet ≡ b.packet
        → IsInside after
        → total after ≡ total b
        → rank after ≡ rank b + 1
        → Answer fuel after)
    → Answer (suc fuel) b
unfolding rank rank_at total
round fuel b legal inside h (x, y, z, e, one_more, inside') rest =
    elim (Bool-cases (passes b (group_at b.packet b.xid b.yid b.zid))) [
      | inl ok ↦ (
        some (group_at b.packet b.xid b.yid b.zid),
        moved b x y z,
        find_wg-hit fuel b (current-some b legal inside h) ok
            ∙ ap (λ after. some (some (group_at b.packet b.xid b.yid b.zid), after)) e,
        accepted b.xid b.yid b.zid x y z (ground arith) (ground arith) h ok
            (nothing-Rejected b (rank b)) (omega arith) one_more inside',
      )
      | inr fails ↦
          let (r, after, run, found) = rest (moved b x y z) refl inside' refl one_more in
          (
            r,
            after,
            find_wg-miss fuel b (current-some b legal inside h) fails ∙ ap (find_wg fuel) e ∙ run,
            Found-step b x y z inside one_more fails found,
          )
    ]

-- On a packet with sizes that fit, and enough fuel for the ranks that are left, the search of
-- `NextWG` ends. It returns the first group, by rank, that the filter accepts, with the position
-- one rank later, or nil at the end of the grid where the filter rejects the rest.
pub find_wg-Found :
    (fuel : ℕ) (b : GridBuilder)
    → IsLegal b.packet
    → IsInside b
    → total b < fuel + rank b
    → Answer fuel b
find_wg-Found zero b legal inside h = absurd (omega (arith, rank_le b inside))
find_wg-Found (suc fuel) b legal inside h = elim (dec_lt b.zid b.zdim) [
  | yes more ↦
      round fuel b legal inside more (advance-Next b legal inside more) (λ after same inside' t r.
        find_wg-Found fuel after (subst IsLegal (sym same) legal) inside' (omega arith))
  | no end ↦ finished fuel b legal inside (ground arith)
]
