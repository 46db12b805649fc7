-- ===== src/Grid/Launch.antt =====
-- A kernel from `SetKernel` on, without a filter: which group each call of `NextWG` returns.
use sampled_mgpu_sim.Prelude.{
  ℕ, zero, suc, ◌+◌, ◌<◌, ◌≤◌, ◌≡◌, refl, sym, ap, ◌∙◌, subst, inl, inr, Option, none, some, true,
  arith,
}
use sampled_mgpu_sim.Grid.{
  Packet, WorkGroup, GridBuilder, count_wg, set_kernel, min_int, group_at, passes, find_wg,
  spawn_work_items, form_wavefronts, next_wg, skip,
}
use sampled_mgpu_sim.Grid.Dim.{lt-dim_iff}
use sampled_mgpu_sim.Grid.Order.{
  IsLegal, IsInside, rank_at, rank, total, moved, rank_end, rank_bound, current-none, current-some,
  advance-Next,
}
use sampled_mgpu_sim.Grid.Search.{find_wg-nil, find_wg-hit}
use sampled_mgpu_sim.Grid.Form.{IsFresh, items_of, form-items}

-- A builder at rank `n` of the kernel of `p`, without a filter.
abbrev pub IsAt : Packet → ℕ → GridBuilder → Type 0
IsAt p n b =
    (b.packet ≡ p)
    × (b.filter ≡ none)
    × IsInside b
    × (rank b ≡ n)
    × (total b ≡ (set_kernel p none).num_wg)

pub set_kernel-IsAt : (p : Packet) → IsLegal p → IsAt p 0 (set_kernel p none)
unfolding set_kernel rank rank_at total count_wg
set_kernel-IsAt p legal = (refl, refl, inside, omega arith, omega arith)
  where
    inside : IsInside (set_kernel p none)
    inside = ground (
      arith,
      lt-dim_iff p.grid_size_x p.workgroup_size_x 0,
      lt-dim_iff p.grid_size_y p.workgroup_size_y 0,
      lt-dim_iff p.grid_size_z p.workgroup_size_z 0,
    )

passes-nil : (b : GridBuilder) (wg : WorkGroup) → b.filter ≡ none → passes b wg ≡ true
unfolding passes
passes-nil b wg e = rw e refl

group_at-IsFresh :
    (b : GridBuilder)
    → IsLegal b.packet
    → IsInside b
    → b.zid < b.zdim
    → IsFresh (group_at b.packet b.xid b.yid b.zid)
unfolding group_at min_int
group_at-IsFresh b legal inside h = (
  refl,
  refl,
  ground (arith, lt-dim_iff b.packet.grid_size_x b.packet.workgroup_size_x b.xid),
  ground (arith, lt-dim_iff b.packet.grid_size_y b.packet.workgroup_size_y b.yid),
  ground (arith, lt-dim_iff b.packet.grid_size_z b.packet.workgroup_size_z b.zid),
)

-- What a call of `NextWG` at rank `n` returns: the group of this rank, with its items in
-- wavefronts.
abbrev pub Launched : Packet → ℕ → ℕ → GridBuilder → Type 0
Launched p fuel n b =
    (wg : WorkGroup) × (after : GridBuilder) × (next_wg fuel b ≡ some (some wg, after))
    × (rank_at b wg.id_x wg.id_y wg.id_z ≡ n)
    × (wg.id_x < b.xdim)
    × (wg.id_y < b.ydim)
    × (wg.id_z < b.zdim)
    × (items_of wg.wavefronts ≡ wg.work_items)
    × IsAt p (n + 1) after

next_wg-some :
    (fuel : ℕ) (b : GridBuilder) {wg formed : WorkGroup} {after : GridBuilder}
    → find_wg fuel b ≡ some (some wg, after)
    → form_wavefronts (spawn_work_items wg) ≡ some formed
    → next_wg fuel b ≡ some (some formed, after)
unfolding next_wg
next_wg-some fuel b found formed = rw found (rw formed refl)

next_wg-nil :
    (fuel : ℕ) (b : GridBuilder) {after : GridBuilder}
    → find_wg fuel b ≡ some (none, after)
    → next_wg fuel b ≡ some (none, after)
unfolding next_wg
next_wg-nil fuel b found = rw found refl

-- Below the number of groups, the position is in the grid.
in_grid :
    {p : Packet} {n : ℕ} (b : GridBuilder)
    → IsAt p n b
    → n < (set_kernel p none).num_wg
    → b.zid < b.zdim
in_grid b (_, _, inside, r, t) h = elim inside.5 [
  | inl below ↦ below
  | inr end ↦ absurd (omega (arith, rank_end b end.0 end.1 end.2))
]

next_wg-Launched :
    (p : Packet) (n fuel : ℕ) (b : GridBuilder)
    → IsLegal p
    → IsAt p n b
    → n < (set_kernel p none).num_wg
    → Launched p (suc fuel) n b
unfolding spawn_work_items rank group_at total rank_at
next_wg-Launched p n fuel b legal' (same, nil, inside, r, t) h =
    let more = in_grid b (same, nil, inside, r, t) h in
    let legal = subst IsLegal (sym same) legal' in
    let here = group_at b.packet b.xid b.yid b.zid in
    let (x, y, z, e, one_more, inside') = advance-Next b legal inside more in
    let (wfs, formed, items, _) = form-items here (group_at-IsFresh b legal inside more) in
    (
      record (spawn_work_items here) { wavefronts = wfs },
      moved b x y z,
      next_wg-some (suc fuel) b
          (find_wg-hit fuel b (current-some b legal inside more) (passes-nil b here nil)
            ∙ ap (λ after. some (some here, after)) e)
          formed,
      r,
      inside.3,
      inside.4,
      more,
      items,
      (same, nil, inside', one_more ∙ ap (λ k. k + 1) r, t),
    )

skip-step :
    (fuel n : ℕ) (b : GridBuilder) {r : Option WorkGroup} {after : GridBuilder}
    → next_wg fuel b ≡ some (r, after)
    → skip fuel (suc n) b ≡ skip fuel n after
unfolding skip
skip-step fuel n b e = rw e refl

skip-IsAt :
    (p : Packet) (n k fuel : ℕ) (b : GridBuilder)
    → IsLegal p
    → IsAt p n b
    → n + k ≤ (set_kernel p none).num_wg
    → (after : GridBuilder) × (skip (suc fuel) k b ≡ some after) × IsAt p (n + k) after
unfolding skip
skip-IsAt p n zero fuel b legal at h = (b, refl, subst (λ m. IsAt p m b) (omega arith) at)
skip-IsAt p n (suc k) fuel b legal at h =
    let (wg, next, run, _, _, _, _, _, at') = next_wg-Launched p n fuel b legal at (omega arith) in
    let (after, run', at'') = skip-IsAt p (n + 1) k fuel next legal at' (omega arith) in
    (after, skip-step (suc fuel) k b run ∙ run', subst (λ m. IsAt p m after) (omega arith) at'')

rank_lt : (b : GridBuilder) → IsInside b → b.zid < b.zdim → rank b < total b
unfolding rank
rank_lt b inside h = rank_bound b b.xid b.yid b.zid inside.3 inside.4 h

at_end : (b : GridBuilder) → IsInside b → total b ≤ rank b → b.zid ≡ b.zdim
at_end b inside h = elim inside.5 [
  | inl below ↦ absurd (omega (arith, rank_lt b inside below))
  | inr end ↦ end.0
]

start-skip :
    (p : Packet) (n fuel : ℕ)
    → IsLegal p
    → n ≤ (set_kernel p none).num_wg
    → (b : GridBuilder) × (skip (suc fuel) n (set_kernel p none) ≡ some b) × IsAt p n b
start-skip p n fuel legal h =
    let (b, run, at) =
      skip-IsAt p 0 n fuel (set_kernel p none) legal (set_kernel-IsAt p legal) (omega arith) in
    (b, run, subst (λ m. IsAt p m b) (omega arith) at)

-- Without a filter, a kernel on a legal packet has `NumWG` work-groups: after any `n` fewer calls of
-- `NextWG`, the next one returns the group of rank `n`, x fastest and z slowest, inside the grid and
-- with all its items in wavefronts. No loop takes more than one round.
pub launch-nth :
    (p : Packet) (n fuel : ℕ)
    → IsLegal p
    → n < (set_kernel p none).num_wg
    → (b : GridBuilder) × (skip (suc fuel) n (set_kernel p none) ≡ some b)
      × Launched p (suc fuel) n b
launch-nth p n fuel legal h =
    let (b, run, at) = start-skip p n fuel legal (omega arith) in
    (b, run, next_wg-Launched p n fuel b legal at h)

-- Without a filter, the call of `NextWG` after `NumWG` of them returns nil and keeps the position.
pub launch-end :
    (p : Packet) (fuel : ℕ)
    → IsLegal p
    → (b : GridBuilder) × (skip (suc fuel) (set_kernel p none).num_wg (set_kernel p none) ≡ some b)
      × (next_wg (suc fuel) b ≡ some (none, b))
launch-end p fuel legal =
    let (b, run, (same, nil, inside, r, t)) =
      start-skip p (set_kernel p none).num_wg fuel legal (omega arith) in
    let legal' = subst IsLegal (sym same) legal in
    (
      b,
      run,
      next_wg-nil (suc fuel) b
          (find_wg-nil fuel b (current-none b legal' inside (at_end b inside (omega arith)))),
    )
