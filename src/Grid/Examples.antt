-- ===== src/Grid/Examples.antt =====
-- Small grids, and runs on them.
use sampled_mgpu_sim.Prelude.{
  ℕ, Option, [], ◌∷◌, map, ◌+◌, ◌<◌, ◌≡◌, refl, List, length, some, none, ◌==◌, arith,
}
use sampled_mgpu_sim.Grid.{
  Packet, WorkGroup, Filter, form_loop, add_item, open_wavefront, in_wg_id, flattened_id, new_items,
  append_range, skip, next_wg, Wavefront, GridBuilder, dim, set_kernel, group_at, count_wg,
  sum_range, spawn_work_items, form_wavefronts, min_int,
}
use sampled_mgpu_sim.Grid.Order.{IsInside, IsLegal, rank, rank_at, total}
use sampled_mgpu_sim.Grid.Search.{Answer, find_wg-Found}
use sampled_mgpu_sim.Grid.Form.{IsFresh, items_of, form-items}
use sampled_mgpu_sim.Grid.Launch.{Launched, launch-nth, launch-end}

abbrev packet : Packet
packet = record {
  grid_size_x = 10;
  grid_size_y = 3;
  grid_size_z = 2;
  workgroup_size_x = 4;
  workgroup_size_y = 2;
  workgroup_size_z = 2;
}

abbrev second_row : Filter
second_row = some (λ p wg. wg.id_y == 1)

filtered_count : (set_kernel packet second_row).num_wg ≡ 3
unfolding set_kernel dim count_wg sum_range
filtered_count = refl

legal : IsLegal packet
legal = ground arith

inside : IsInside (set_kernel packet second_row)
unfolding set_kernel dim
inside = ground arith

enough : total (set_kernel packet second_row) < 7 + rank (set_kernel packet second_row)
unfolding set_kernel dim total rank rank_at
enough = ground arith

IsLegal-start : IsLegal (set_kernel packet second_row).packet
unfolding set_kernel
IsLegal-start = legal

find_wg-Found_example : Answer 7 (set_kernel packet second_row)
find_wg-Found_example = find_wg-Found 7 (set_kernel packet second_row) IsLegal-start inside enough

fresh : IsFresh (group_at packet 2 1 0)
unfolding group_at min_int
fresh = (refl, refl, ground arith, ground arith, ground arith)

form-items_example :
    (wfs : List Wavefront) × (form_wavefronts (spawn_work_items (group_at packet 2 1 0))
      ≡ some (record (spawn_work_items (group_at packet 2 1 0)) { wavefronts = wfs }))
    × (items_of wfs ≡ (spawn_work_items (group_at packet 2 1 0)).work_items)
    × (length (items_of wfs) ≡ 4)
unfolding group_at min_int
form-items_example = form-items (group_at packet 2 1 0) fresh

six : 5 < (set_kernel packet none).num_wg
unfolding set_kernel dim count_wg
six = ground arith

launch-nth_example :
    (b : GridBuilder) × (skip 1 5 (set_kernel packet none) ≡ some b) × Launched packet 1 5 b
launch-nth_example = launch-nth packet 5 0 legal six

launch-end_example :
    (b : GridBuilder) × (skip 1 (set_kernel packet none).num_wg (set_kernel packet none) ≡ some b)
    × (next_wg 1 b ≡ some (none, b))
launch-end_example = launch-end packet 0 legal

-- A work-group of size 33 by 3 of which 30 columns are in the grid: 64 is the identifier of none of
-- its items.
abbrev narrow : WorkGroup
narrow = record (group_at packet 0 0 0) {
  size_x = 33;
  size_y = 3;
  size_z = 1;
  curr_size_x = 30;
  curr_size_y = 3;
  curr_size_z = 1;
}

abbrev item_counts : Option WorkGroup → List ℕ
item_counts none = []
item_counts (some wg) = map (λ wf. length wf.work_items) wg.wavefronts

-- Its 90 work-items come to one wavefront.
narrow_wavefronts : item_counts (form_wavefronts (spawn_work_items narrow)) ≡ 90 ∷ []
unfolding group_at min_int form_wavefronts form_loop add_item open_wavefront in_wg_id flattened_id
    spawn_work_items new_items append_range
narrow_wavefronts = refl
