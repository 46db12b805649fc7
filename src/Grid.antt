-- ===== src/Grid.antt =====
-- kernels/gridbuilder.go and kernels/grid.go: cutting a grid into work-groups and these into
-- wavefronts. The identifiers and the profiling fields of a work-group play no part.
pub mod Dim
pub mod Order
pub mod Search
pub mod Form
pub mod Launch
mod Examples
use Prim.Native.Nat.{bit_or}
use sampled_mgpu_sim.Prelude.{
  ℕ, zero, suc, ◌+◌, ◌-◌, ◌*◌, ◌/◌, ◌%◌, ◌^◌, Bool, true, false, Option, none, some, List, [], ◌∷◌,
  ◌++◌, leb, ltb, if◌then◌else◌, ◌>>=◌, ◌||◌, ◌==◌,
}

-- The sizes of `HsaKernelDispatchPacket`: `uint32` for the grid, `uint16` for a work-group.
pub record Packet : Type 0 where
  pub grid_size_x : ℕ
  pub grid_size_y : ℕ
  pub grid_size_z : ℕ
  pub workgroup_size_x : ℕ
  pub workgroup_size_y : ℕ
  pub workgroup_size_z : ℕ

pub record WorkItem : Type 0 where
  pub id_x : ℕ
  pub id_y : ℕ
  pub id_z : ℕ

pub record Wavefront : Type 0 where
  pub first_wi_flat_id : ℕ
  pub init_exec_mask : ℕ
  pub work_items : List WorkItem

pub record WorkGroup : Type 0 where
  pub size_x : ℕ
  pub size_y : ℕ
  pub size_z : ℕ
  pub id_x : ℕ
  pub id_y : ℕ
  pub id_z : ℕ
  pub curr_size_x : ℕ
  pub curr_size_y : ℕ
  pub curr_size_z : ℕ
  pub wavefronts : List Wavefront
  pub work_items : List WorkItem

-- `WGFilterFunc`; `none` is a nil filter.
abbrev pub Filter : Type 0
Filter = Option (Packet → WorkGroup → Bool)

pub record GridBuilder : Type 0 where
  pub packet : Packet
  pub filter : Filter
  pub num_wg : ℕ
  pub xdim : ℕ
  pub ydim : ℕ
  pub zdim : ℕ
  pub xid : ℕ
  pub yid : ℕ
  pub zid : ℕ

-- `int(size-1)/int(group) + 1`, where `size-1` wraps at 32 bits.
unfoldable pub dim : ℕ → ℕ → ℕ
dim size group = (size + 2 ^ 32 - 1) % 2 ^ 32 / group + 1

-- `WorkGroup{IDX: i, IDY: j, IDZ: k}`, which `countWG` hands to the filter.
abbrev pub bare_group : ℕ → ℕ → ℕ → WorkGroup
bare_group i j k = record {
  size_x = 0;
  size_y = 0;
  size_z = 0;
  id_x = i;
  id_y = j;
  id_z = k;
  curr_size_x = 0;
  curr_size_y = 0;
  curr_size_z = 0;
  wavefronts = [];
  work_items = [];
}

-- The sum of `body i` over `i` from `from`, `n` rounds: a counting loop.
unfoldable pub sum_range : ℕ → ℕ → (ℕ → ℕ) → ℕ
sum_range zero from body = 0
sum_range (suc n) from body = body from + sum_range n (from + 1) body

-- `countWG`: the number of work-groups that it stores.
unfoldable pub count_wg : Packet → Filter → ℕ → ℕ → ℕ → ℕ
count_wg p none x y z = x * y * z
count_wg p (some f) x y z =
    sum_range x 0 λ i. sum_range y 0 λ j. sum_range z 0 λ k. if f p (bare_group i j k) then 1 else 0

unfoldable pub set_kernel : Packet → Filter → GridBuilder
set_kernel p f =
    let x = dim p.grid_size_x p.workgroup_size_x in
    let y = dim p.grid_size_y p.workgroup_size_y in
    let z = dim p.grid_size_z p.workgroup_size_z in
    record {
      packet = p;
      filter = f;
      num_wg = count_wg p f x y z;
      xdim = x;
      ydim = y;
      zdim = z;
      xid = 0;
      yid = 0;
      zid = 0;
    }

-- `min` of gridbuilder.go.
unfoldable pub min_int : ℕ → ℕ → ℕ
min_int a b = if ltb a b then a else b

-- What a round of `NextWG` writes to `wg` at the position x, y, z.
unfoldable pub group_at : Packet → ℕ → ℕ → ℕ → WorkGroup
group_at p x y z = record {
  size_x = p.workgroup_size_x;
  size_y = p.workgroup_size_y;
  size_z = p.workgroup_size_z;
  id_x = x;
  id_y = y;
  id_z = z;
  curr_size_x = min_int (p.grid_size_x - x * p.workgroup_size_x) p.workgroup_size_x;
  curr_size_y = min_int (p.grid_size_y - y * p.workgroup_size_y) p.workgroup_size_y;
  curr_size_z = min_int (p.grid_size_z - z * p.workgroup_size_z) p.workgroup_size_z;
  wavefronts = [];
  work_items = [];
}

-- One round of the loop of `NextWG` up to the position's step: no work-group where one of `xLeft`,
-- `yLeft`, `zLeft` is not positive.
unfoldable pub current_group : GridBuilder → Option WorkGroup
current_group b =
    let p = b.packet in
    if leb p.grid_size_x (b.xid * p.workgroup_size_x)
      || (leb p.grid_size_y (b.yid * p.workgroup_size_y)
          || leb p.grid_size_z (b.zid * p.workgroup_size_z))
    then none
    else some (group_at p b.xid b.yid b.zid)

-- `b.xid++` and the carries to `yid` and `zid`, where `xLeft -= xToAllocate` comes to 0.
unfoldable pub advance : GridBuilder → WorkGroup → GridBuilder
advance b wg =
    let p = b.packet in
    if leb (p.grid_size_x - b.xid * p.workgroup_size_x) wg.curr_size_x
    then (if leb (p.grid_size_y - b.yid * p.workgroup_size_y) wg.curr_size_y
        then record b { xid = 0; yid = 0; zid = b.zid + 1 }
        else record b { xid = 0; yid = b.yid + 1 })
    else record b { xid = b.xid + 1 }

unfoldable pub passes : GridBuilder → WorkGroup → Bool
passes b wg = elim b.filter [ none ↦ true | some f ↦ f b.packet wg ]

-- The loop of `NextWG`, on fuel; `none` outside is running out of it, inside it is nil.
unfoldable pub find_wg : ℕ → GridBuilder → Option (Option WorkGroup × GridBuilder)
find_wg zero b = none
find_wg (suc fuel) b = elim (current_group b) [
  | none ↦ some (none, b)
  | some wg ↦ elim (passes b wg) [
    | true ↦ some (some wg, advance b wg)
    | false ↦ find_wg fuel (advance b wg)
  ]
]

-- A nested loop that appends: `body i` for `n` values of `i` from `from`.
unfoldable pub append_range {ℓ} : {A : Type ℓ} → ℕ → ℕ → (ℕ → List A) → List A
append_range zero from body = []
append_range (suc n) from body = body from ++ append_range n (from + 1) body

abbrev pub item : ℕ → ℕ → ℕ → List WorkItem
item z y x = record { id_x = x; id_y = y; id_z = z } ∷ []

-- The items that the loops of `spawnWorkItems` append.
unfoldable pub new_items : WorkGroup → List WorkItem
new_items wg =
    append_range wg.curr_size_z 0
      (λ z. append_range wg.curr_size_y 0 (λ y. append_range wg.curr_size_x 0 (λ x. item z y x)))

unfoldable pub spawn_work_items : WorkGroup → WorkGroup
spawn_work_items wg = record wg { work_items = wg.work_items ++ new_items wg }

-- `FlattenedID`, of a work-item of `wg`.
unfoldable pub flattened_id : WorkGroup → WorkItem → ℕ
flattened_id wg wi = wi.id_x + wi.id_y * wg.size_x + wi.id_z * wg.size_x * wg.size_y

unfoldable pub in_wg_id : WorkGroup → WorkItem → ℕ
in_wg_id wg wi = wi.id_z * wg.size_x * wg.size_y + wi.id_y * wg.size_x + wi.id_x

-- The writes through `wf`, the last of the wavefronts; a panic while it is nil.
unfoldable pub add_item : WorkItem → ℕ → List Wavefront → Option (List Wavefront)
add_item wi lane [] = none
add_item wi lane (wf ∷ []) = some (
    record wf {
      work_items = wf.work_items ++ wi ∷ [];
      init_exec_mask = bit_or wf.init_exec_mask (2 ^ lane);
    }
    ∷ [])
add_item wi lane (wf ∷ next ∷ wfs) = add_item wi lane (next ∷ wfs) >>= λ rest. some (wf ∷ rest)

-- A new wavefront where an item has the identifier of a first lane.
unfoldable pub open_wavefront : WorkGroup → WorkItem → List Wavefront → List Wavefront
open_wavefront wg wi wfs =
    if in_wg_id wg wi % 64 == 0
    then wfs
      ++ record { first_wi_flat_id = flattened_id wg wi; init_exec_mask = 0; work_items = [] } ∷ []
    else wfs

unfoldable pub form_loop : WorkGroup → List WorkItem → List Wavefront → Option (List Wavefront)
form_loop wg [] wfs = some wfs
form_loop wg (wi ∷ rest) wfs =
    add_item wi (in_wg_id wg wi % 64) (open_wavefront wg wi wfs) >>= λ formed.
    form_loop wg rest formed

unfoldable pub form_wavefronts : WorkGroup → Option WorkGroup
form_wavefronts wg =
    form_loop wg wg.work_items wg.wavefronts >>= λ wfs. some (record wg { wavefronts = wfs })

-- `NextWG`, with fuel for its loop.
unfoldable pub next_wg : ℕ → GridBuilder → Option (Option WorkGroup × GridBuilder)
next_wg fuel b = find_wg fuel b >>= λ found. elim found.0 [
  | none ↦ some (none, found.1)
  | some wg ↦ form_wavefronts (spawn_work_items wg) >>= λ formed. some (some formed, found.1)
]

unfoldable pub skip : ℕ → ℕ → GridBuilder → Option GridBuilder
skip fuel zero b = some b
skip fuel (suc n) b = next_wg fuel b >>= λ found. skip fuel n found.1
