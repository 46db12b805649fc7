-- ===== src/PageTable/Refine.antt =====
-- The page table does what it promises, call by call and over every sequence of calls.
use sampled_mgpu_sim.Prelude.{
  ℕ, ◌-◌, ◌*◌, ◌/◌, ◌%◌, ◌^◌, ◌<◌, ◌≡◌, refl, ◌∙◌, sym, ap, subst, inl, inr, Option, none, some,
  List, [], ◌∷◌, arith, Option-cases, ◌>>=◌, All,
}
use native.Mathlib.Nat.{div-add-mod, mod-eq_of_lt}
use sampled_mgpu_sim.Prelude.{fun_ext}
use sampled_mgpu_sim.Prelude.Elements.{put}
use sampled_mgpu_sim.PageTable.{
  Page, ProcessTable, PageTable, new_page_table, get_table, align_to_page, insert_page, remove_page,
  update_page, find_page, insert, remove, update, find,
}
use sampled_mgpu_sim.PageTable.Wf.{IsWf, found, missing, appended, appended-IsWf, appended-find}
use sampled_mgpu_sim.PageTable.Changes.{
  rewritten, rewritten-IsWf, rewritten-find, removed, removed-IsWf, removed-find,
}
use sampled_mgpu_sim.PageTable.Spec.{
  Command, insert_call, remove_call, update_call, find_call, step, spec_step, View, view_of,
  IsSound, Simulates,
}
use sampled_mgpu_sim.PageTable.Sound.{
  table-IsWf, written, written-IsSound, written-view, written-log2, get_table-IsSound,
  get_table-view, get_table-log2,
}

-- The addresses to look up are words of 64 bits.
abbrev pub IsCall : Command → Type 0
IsCall (find_call pid addr) = addr < 2 ^ 64
IsCall (insert_call page) = Unit
IsCall (remove_call pid v_addr) = Unit
IsCall (update_call page) = Unit

align_to_page-start :
    (pt : PageTable) (addr : ℕ)
    → addr < 2 ^ 64
    → align_to_page pt addr ≡ addr - addr % 2 ^ pt.log2_page_size
unfolding align_to_page
align_to_page-start pt addr h =
    let p = 2 ^ pt.log2_page_size in
    let whole : addr / p * p ≡ addr - addr % p = omega (arith, div-add-mod addr p) in
    rw whole (mod-eq_of_lt (omega (arith, h)))

module _ (pt : PageTable) (sound : IsSound pt) where
  -- A call that leaves the process with the table `t`, whose pages are the map's with one change.
  leaves :
      {concrete : Option (PageTable × Option Page)} {abstract : Option (View × Option Page)}
      (pid : ℕ) (t : ProcessTable) (key : ℕ) (value : Option Page)
      → IsWf t
      → ((v : ℕ) → find_page t v ≡ put (view_of pt pid) key value v)
      → concrete ≡ some (written pt sound pid t, none)
      → abstract ≡ some (put (view_of pt) pid (put (view_of pt pid) key value), none)
      → Simulates (pt.log2_page_size) concrete abstract
  leaves pid t key value wf pages c a =
      let view = written-view pt sound pid t ∙ ap (put (view_of pt) pid) (fun_ext pages) in
      inr (
        written pt sound pid t,
        none,
        c,
        a ∙ ap (λ (v : View). some (v, none)) (sym view),
        written-IsSound pt sound pid t wf,
        written-log2 pt sound pid t,
      )

  step-insert :
      (page : Page)
      → Simulates
          (pt.log2_page_size)
          (step pt (insert_call page))
          (spec_step (pt.log2_page_size) (view_of pt) (insert_call page))
  unfolding step spec_step insert insert_page view_of
  step-insert page =
      let t = (get_table pt (page.pid)).0 in
      let wf = table-IsWf pt sound (page.pid) in
      elim (Option-cases (t.entries_table (page.v_addr))) [
        | inl e ↦
            leaves (page.pid) (appended t wf page) (page.v_addr) (some page)
              (appended-IsWf t wf page e) (appended-find t wf page) (rw (e, insert_page) refl)
              (rw (missing t wf (page.v_addr) e, spec_step) refl)
        | inr (id, e) ↦
            let (old, there) = found t wf (page.v_addr) id e in
            inl (rw (e, insert_page) refl, rw (there, spec_step) refl)
      ]

  step-update :
      (page : Page)
      → Simulates
          (pt.log2_page_size)
          (step pt (update_call page))
          (spec_step (pt.log2_page_size) (view_of pt) (update_call page))
  unfolding step spec_step update update_page view_of
  step-update page =
      let t = (get_table pt (page.pid)).0 in
      let wf = table-IsWf pt sound (page.pid) in
      elim (Option-cases (t.entries_table (page.v_addr))) [
        | inl e ↦ inl (rw e refl, rw (missing t wf (page.v_addr) e, spec_step) refl)
        | inr (id, e) ↦
            let (old, there) = found t wf (page.v_addr) id e in
            leaves (page.pid) (rewritten t wf (page.v_addr) id e page refl) (page.v_addr)
              (some page) (rewritten-IsWf t wf (page.v_addr) id e page refl)
              (rewritten-find t wf (page.v_addr) id e page refl) (rw e refl)
              (rw (there, spec_step) refl)
      ]

  step-remove :
      (pid v_addr : ℕ)
      → Simulates
          (pt.log2_page_size)
          (step pt (remove_call pid v_addr))
          (spec_step (pt.log2_page_size) (view_of pt) (remove_call pid v_addr))
  unfolding step spec_step remove remove_page view_of
  step-remove pid v_addr =
      let t = (get_table pt pid).0 in
      let wf = table-IsWf pt sound pid in
      elim (Option-cases (t.entries_table v_addr)) [
        | inl e ↦ inl (rw e refl, rw (missing t wf v_addr e, spec_step) refl)
        | inr (id, e) ↦
            let (old, there) = found t wf v_addr id e in
            leaves pid (removed t wf v_addr id e) v_addr none (removed-IsWf t wf v_addr id e)
              (removed-find t wf v_addr id e) (rw e refl) (rw (there, spec_step) refl)
      ]

  step-find :
      (pid addr : ℕ)
      → addr < 2 ^ 64
      → Simulates
          (pt.log2_page_size)
          (step pt (find_call pid addr))
          (spec_step (pt.log2_page_size) (view_of pt) (find_call pid addr))
  unfolding step spec_step find view_of
  step-find pid addr h = inr (
    (get_table pt pid).1,
    view_of pt pid (addr - addr % 2 ^ pt.log2_page_size),
    rw (align_to_page-start ((get_table pt pid).1) addr h, get_table-log2 pt sound pid) refl,
    ap (λ (v : View). some (v, view_of pt pid (addr - addr % 2 ^ pt.log2_page_size)))
        (sym (get_table-view pt sound pid)),
    get_table-IsSound pt sound pid,
    get_table-log2 pt sound pid,
  )

  step-Simulates :
      (call : Command)
      → IsCall call
      → Simulates
          (pt.log2_page_size)
          (step pt call)
          (spec_step (pt.log2_page_size) (view_of pt) call)
  step-Simulates (insert_call page) h = step-insert page
  step-Simulates (remove_call pid v_addr) h = step-remove pid v_addr
  step-Simulates (update_call page) h = step-update page
  step-Simulates (find_call pid addr) h = step-find pid addr h

-- A sequence of calls: the state after it and what each call returned.
unfoldable pub run_calls {ℓ} :
    {S : Type ℓ}
    → (S → Command → Option (S × Option Page))
    → S
    → List Command
    → Option (S × List (Option Page))
run_calls next s [] = some (s, [])
run_calls next s (call ∷ calls) = do
  (s1, out) ← next s call
  (s2, outs) ← run_calls next s1 calls
  some (s2, out ∷ outs)

abbrev pub viewed : Option (PageTable × List (Option Page)) → Option (View × List (Option Page))
viewed result = do (pt, outs) ← result; some (view_of pt, outs)

-- The output of a call stands first, whichever state is kept.
put_first :
    (result : Option (PageTable × List (Option Page))) (out : Option Page)
    → viewed (result >>= λ r. some (r.0, out ∷ r.1))
      ≡ (viewed result >>= λ r. some (r.0, out ∷ r.1))
put_first none out = refl
put_first (some r) out = refl

run-refines :
    (pt : PageTable) (calls : List Command)
    → IsSound pt
    → All IsCall calls
    → viewed (run_calls step pt calls)
      ≡ run_calls (spec_step (pt.log2_page_size)) (view_of pt) calls
unfolding run_calls
run-refines pt [] sound words = refl
run-refines pt (call ∷ calls) sound (word, words) = elim (step-Simulates pt sound call word) [
  | inl (c, a) ↦ rw (c, a) refl
  | inr (pt1, out, c, a, sound1, same) ↦
      let rest =
        subst (λ l. viewed (run_calls step pt1 calls) ≡ run_calls (spec_step l) (view_of pt1) calls)
          same (run-refines pt1 calls sound1 words) in
      rw (c, a) (rw (sym rest) (put_first (run_calls step pt1 calls) out))
]

-- From an empty table, every sequence of calls whose addresses to look up are 64-bit words is refused
-- exactly where the map refuses it, returns the pages that the map returns for the start of the page
-- of each address, and leaves a table that stands for the map.
pub run-refines_map :
    (log2_page_size : ℕ) (calls : List Command)
    → All IsCall calls
    → viewed (run_calls step (new_page_table log2_page_size) calls)
      ≡ run_calls (spec_step log2_page_size) (λ pid v. none) calls
unfolding new_page_table view_of get_table find_page
run-refines_map l calls words = run-refines (new_page_table l) calls (λ pid t e. ground arith) words
