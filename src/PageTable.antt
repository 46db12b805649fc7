-- ===== src/PageTable.antt =====
-- The page table (virtualdevice/pagetable.go). A Go map is a function, and a `*list.Element` is the
-- number under which the element stands in its list. `none` is a panic. The locks make each
-- operation one step.
mod Wf
mod Changes
mod Spec
mod Sound
mod Refine
mod Examples
use sampled_mgpu_sim.Prelude.{
  ℕ, zero, suc, ◌+◌, ◌-◌, ◌*◌, ◌/◌, ◌%◌, ◌^◌, ◌≤◌, ◌<◌, min, max, ◌≡◌, refl, sym, ap, ap₂, subst,
  ◌≢◌, ◌↔◌, ◌⊎◌, inl, inr, Bool, true, false, not, ◌&&◌, ◌||◌, Option, none, some, List, [], ◌∷◌,
  ◌++◌, map, arith, ltb, leb, ◌==◌, if◌then◌else◌, Bool-cases, Option-cases, ltb→lt, ltb-false,
  lt→ltb, le→leb, leb→le, ==_iff, ==_refl, ◌>>=◌, length, get_elem?, set, All,
}
use sampled_mgpu_sim.Prelude.Elements.{put, element, set_element, remove_element}
use sampled_mgpu_sim.Prelude.Words.{shift_left, shift_right}

pub record Page : Type 0 where
  pub pid : ℕ
  pub p_addr : ℕ
  pub v_addr : ℕ
  pub page_size : ℕ
  pub valid : Bool
  pub device_id : ℕ
  pub unified : Bool
  pub is_migrating : Bool
  pub is_pinned : Bool

-- `fresh` is the number of the next element.
pub record ProcessTable : Type 0 where
  pub entries : List (ℕ × Page)
  pub entries_table : ℕ → Option ℕ
  pub fresh : ℕ

pub record PageTable : Type 0 where
  pub log2_page_size : ℕ
  pub tables : ℕ → Option ProcessTable

unfoldable pub insert_page : ProcessTable → Page → Option ProcessTable
insert_page t page = elim (t.entries_table (page.v_addr)) [
  | some _ ↦ none
  | none ↦ some (record t {
    entries = t.entries ++ ((t.fresh, page) ∷ []);
    entries_table = put (t.entries_table) (page.v_addr) (some (t.fresh));
    fresh = suc (t.fresh);
  })
]

unfoldable pub remove_page : ProcessTable → ℕ → Option ProcessTable
remove_page t v_addr = do
  elem ← t.entries_table v_addr
  some (record t {
    entries = remove_element elem (t.entries);
    entries_table = put (t.entries_table) v_addr none;
  })

unfoldable pub update_page : ProcessTable → Page → Option ProcessTable
update_page t page = do
  elem ← t.entries_table (page.v_addr)
  some (record t { entries = set_element elem page (t.entries) })

unfoldable pub find_page : ProcessTable → ℕ → Option Page
find_page t v_addr = do elem ← t.entries_table v_addr; element elem (t.entries)

unfoldable pub new_page_table : ℕ → PageTable
new_page_table log2_page_size = record { log2_page_size = log2_page_size; tables = λ pid. none }

-- The table of a process, and the page table with it: an empty one is made for a new process.
unfoldable pub get_table : PageTable → ℕ → ProcessTable × PageTable
get_table pt pid = elim (pt.tables pid) [
  | some table ↦ (table, pt)
  | none ↦
      let table : ProcessTable = record { entries = []; entries_table = λ v. none; fresh = 0 } in
      (table, record pt { tables = put (pt.tables) pid (some table) })
]

unfoldable pub align_to_page : PageTable → ℕ → ℕ
align_to_page pt addr = shift_left 64 (shift_right addr (pt.log2_page_size)) (pt.log2_page_size)

-- The process's table is shared with the map, so an operation on it is a write of the map.
unfoldable pub write_table : PageTable → ℕ → ProcessTable → PageTable
write_table pt pid table = record pt { tables = put (pt.tables) pid (some table) }

unfoldable pub insert : PageTable → Page → Option PageTable
insert pt page = do
  let (table, pt1) = get_table pt (page.pid)
  table1 ← insert_page table page
  some (write_table pt1 (page.pid) table1)

unfoldable pub remove : PageTable → ℕ → ℕ → Option PageTable
remove pt pid v_addr = do
  let (table, pt1) = get_table pt pid
  table1 ← remove_page table v_addr
  some (write_table pt1 pid table1)

unfoldable pub find : PageTable → ℕ → ℕ → Option Page × PageTable
find pt pid v_addr =
    let (table, pt1) = get_table pt pid in (find_page table (align_to_page pt1 v_addr), pt1)

unfoldable pub update : PageTable → Page → Option PageTable
update pt page = do
  let (table, pt1) = get_table pt (page.pid)
  table1 ← update_page table page
  some (write_table pt1 (page.pid) table1)
