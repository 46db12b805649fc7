-- ===== src/PageTable/Spec.antt =====
-- What the page table promises: a map from processes and page addresses to pages.
use sampled_mgpu_sim.Prelude.{ℕ, ◌-◌, ◌%◌, ◌^◌, ◌≡◌, ◌⊎◌, Option, none, some, ◌>>=◌}
use sampled_mgpu_sim.Prelude.Elements.{put}
use sampled_mgpu_sim.PageTable.{
  Page, ProcessTable, PageTable, get_table, find_page, insert, remove, update, find,
}
use sampled_mgpu_sim.PageTable.Wf.{IsWf}

-- The calls of the interface.
pub data Command : Type 0 where
  insert_call : Page → Command
  remove_call : (pid v_addr : ℕ) → Command
  update_call : Page → Command
  find_call : (pid addr : ℕ) → Command

-- One call: the table after it, and the page where it returns one.
unfoldable pub step : PageTable → Command → Option (PageTable × Option Page)
step pt (insert_call page) = do pt1 ← insert pt page; some (pt1, none)
step pt (remove_call pid v_addr) = do pt1 ← remove pt pid v_addr; some (pt1, none)
step pt (update_call page) = do pt1 ← update pt page; some (pt1, none)
step pt (find_call pid addr) = let (page, pt1) = find pt pid addr in some (pt1, page)

-- The map, and what each call does to it: `none` where the call must not be made.
abbrev pub View : Type 0
View = ℕ → ℕ → Option Page

unfoldable pub spec_step : (log2_page_size : ℕ) → View → Command → Option (View × Option Page)
spec_step l view (insert_call page) = elim (view (page.pid) (page.v_addr)) [
  | some _ ↦ none
  | none ↦ some (put view (page.pid) (put (view (page.pid)) (page.v_addr) (some page)), none)
]
spec_step l view (remove_call pid v_addr) = elim (view pid v_addr) [
  | some _ ↦ some (put view pid (put (view pid) v_addr none), none)
  | none ↦ none
]
spec_step l view (update_call page) = elim (view (page.pid) (page.v_addr)) [
  | some _ ↦ some (put view (page.pid) (put (view (page.pid)) (page.v_addr) (some page)), none)
  | none ↦ none
]
spec_step l view (find_call pid addr) = some (view, view pid (addr - addr % 2 ^ l))

-- The map that a page table stands for.
unfoldable pub view_of : PageTable → View
view_of pt pid = find_page ((get_table pt pid).0)

abbrev pub IsSound : PageTable → Type 0
IsSound pt = (pid : ℕ) (t : ProcessTable) → pt.tables pid ≡ some t → IsWf t

-- Both refuse the call, or both make it, with the same page, and the table stands for the map.
abbrev pub Simulates : ℕ → Option (PageTable × Option Page) → Option (View × Option Page) → Type 0
Simulates l concrete abstract =
    ((concrete ≡ none) × (abstract ≡ none))
    ⊎ ((pt : PageTable) × (out : Option Page) × (concrete ≡ some (pt, out))
        × (abstract ≡ some (view_of pt, out))
        × IsSound pt
        × (pt.log2_page_size ≡ l))
