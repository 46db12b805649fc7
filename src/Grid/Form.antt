-- ===== src/Grid/Form.antt =====
-- The work-items of a group and the wavefronts that they are put into.
use sampled_mgpu_sim.Prelude.{
  ℕ, zero, suc, ◌+◌, ◌*◌, ◌%◌, ◌<◌, ◌≡◌, refl, sym, ap, ap₂, ◌∙◌, some, List, [], ◌∷◌, ◌++◌, length,
  length-append, arith, ◌==◌, ◌>>=◌, Bool-cases, inl, inr,
}
use sampled_mgpu_sim.Grid.{
  WorkItem, Wavefront, WorkGroup, item, append_range, new_items, spawn_work_items, flattened_id,
  in_wg_id, add_item, open_wavefront, form_loop, form_wavefronts,
}
use mathlib.Core.List.{append_assoc, append-nil}

unfoldable pub items_of : List Wavefront → List WorkItem
items_of [] = []
items_of (wf ∷ wfs) = wf.work_items ++ items_of wfs

abbrev pub NonEmpty : List Wavefront → Type 0
NonEmpty [] = ⊥
NonEmpty (wf ∷ wfs) = Unit

abbrev Added : WorkItem → ℕ → List Wavefront → Type 0
Added wi lane wfs =
    (after : List Wavefront) × (add_item wi lane wfs ≡ some after)
    × (items_of after ≡ items_of wfs ++ wi ∷ [])
    × NonEmpty after

add_item-items :
    (wi : WorkItem) (lane : ℕ) (wfs : List Wavefront) → NonEmpty wfs → Added wi lane wfs
unfolding add_item items_of
add_item-items wi lane [] h = absurd h
add_item-items wi lane (wf ∷ []) h = (_, refl, end, tt)
  where
    end : (wf.work_items ++ wi ∷ []) ++ [] ≡ (wf.work_items ++ []) ++ wi ∷ []
    end = rw (append-nil (wf.work_items ++ wi ∷ []), append-nil wf.work_items) refl
add_item-items wi lane (wf ∷ next ∷ wfs) h =
    let (after, run, items, ok) = add_item-items wi lane (next ∷ wfs) tt in
    (
      wf ∷ after,
      rw (run, add_item) refl,
      ap (λ ys. wf.work_items ++ ys) items ∙ sym (append_assoc wf.work_items _ _),
      tt,
    )

none_added :
    (xs : List Wavefront) (first : ℕ)
    → items_of (xs ++ record { first_wi_flat_id = first; init_exec_mask = 0; work_items = [] } ∷ [])
      ≡ items_of xs
unfolding items_of
none_added [] first = refl
none_added (x ∷ xs) first = ap (λ ys. x.work_items ++ ys) (none_added xs first)

open-items :
    (wg : WorkGroup) (wi : WorkItem) (wfs : List Wavefront)
    → items_of (open_wavefront wg wi wfs) ≡ items_of wfs
unfolding open_wavefront
open-items wg wi wfs = elim (Bool-cases (in_wg_id wg wi % 64 == 0)) [
  | inl e ↦ rw e (none_added wfs (flattened_id wg wi))
  | inr e ↦ rw e refl
]

open-NonEmpty :
    (wg : WorkGroup) (wi : WorkItem) (wfs : List Wavefront)
    → NonEmpty wfs
    → NonEmpty (open_wavefront wg wi wfs)
unfolding open_wavefront
open-NonEmpty wg wi [] h = elim h [ ]
open-NonEmpty wg wi (wf ∷ wfs) h = elim (Bool-cases (in_wg_id wg wi % 64 == 0)) [
  | inl e ↦ rw e tt
  | inr e ↦ rw e tt
]

abbrev Formed : WorkGroup → List WorkItem → List Wavefront → Type 0
Formed wg items wfs =
    (after : List Wavefront) × (form_loop wg items wfs ≡ some after)
    × (items_of after ≡ items_of wfs ++ items)

form_step :
    (wg : WorkGroup) (wi : WorkItem) (rest : List WorkItem) (wfs : List Wavefront)
    → NonEmpty (open_wavefront wg wi wfs)
    → ((next : List Wavefront) → NonEmpty next → Formed wg rest next)
    → Formed wg (wi ∷ rest) wfs
unfolding form_loop
form_step wg wi rest wfs h go =
    let (next, run, items, ok) =
      add_item-items wi (in_wg_id wg wi % 64) (open_wavefront wg wi wfs) h in
    let (after, run', items') = go next ok in
    (
      after,
      rw (run, form_loop) run',
      items'
          ∙ ap (λ ys. ys ++ rest) (items ∙ ap (λ ys. ys ++ wi ∷ []) (open-items wg wi wfs))
          ∙ append_assoc (items_of wfs) (wi ∷ []) rest,
    )

form_loop-items :
    (wg : WorkGroup) (items : List WorkItem) (wfs : List Wavefront)
    → NonEmpty wfs
    → Formed wg items wfs
unfolding form_loop
form_loop-items wg [] wfs h = (wfs, refl, sym (append-nil (items_of wfs)))
form_loop-items wg (wi ∷ rest) wfs h =
    form_step wg wi rest wfs (open-NonEmpty wg wi wfs h) (form_loop-items wg rest)

-- A group that `NextWG` has just laid out.
abbrev pub IsFresh : WorkGroup → Type 0
IsFresh wg =
    (wg.wavefronts ≡ [])
    × (wg.work_items ≡ [])
    × (0 < wg.curr_size_x)
    × (0 < wg.curr_size_y)
    × (0 < wg.curr_size_z)

length-append_range :
    {A : Type 0} (n from k : ℕ) (body : ℕ → List A)
    → ((i : ℕ) → length (body i) ≡ k)
    → length (append_range n from body) ≡ n * k
unfolding append_range
length-append_range zero from k body h = omega arith
length-append_range (suc n) from k body h =
    rw (length-append, h, length-append_range n (from + 1) k body h) (omega arith)

abbrev origin : WorkItem
origin = record { id_x = 0; id_y = 0; id_z = 0 }

range-cons :
    (n from : ℕ) (body : ℕ → List WorkItem) {a : WorkItem} {rest : List WorkItem}
    → 0 < n
    → body from ≡ a ∷ rest
    → (more : List WorkItem) × (append_range n from body ≡ a ∷ more)
unfolding append_range
range-cons zero from body h e = absurd (omega arith)
range-cons (suc n) from body h e = (_, ap (λ xs. xs ++ append_range n (from + 1) body) e)

spawned : (wg : WorkGroup) → wg.work_items ≡ [] → (spawn_work_items wg).work_items ≡ new_items wg
unfolding spawn_work_items
spawned wg empty = ap (λ before. before ++ new_items wg) empty

-- The first work-item is at the origin, so that a wavefront is open before any item is put in.
spawn-first :
    (wg : WorkGroup)
    → IsFresh wg
    → (rest : List WorkItem) × ((spawn_work_items wg).work_items ≡ origin ∷ rest)
unfolding new_items
spawn-first wg (_, empty, hx, hy, hz) =
    let row = range-cons wg.curr_size_x 0 (item 0 0) hx refl in
    let plane = range-cons wg.curr_size_y 0 _ hy row.1 in
    let all = range-cons wg.curr_size_z 0 _ hz plane.1 in (all.0, spawned wg empty ∙ all.1)

origin-zero : (wg : WorkGroup) → in_wg_id wg origin ≡ 0
unfolding in_wg_id
origin-zero wg = omega arith

is_open : (wg : WorkGroup) → in_wg_id wg origin ≡ 0 → NonEmpty (open_wavefront wg origin [])
unfolding open_wavefront
is_open wg e = rw e tt

no_wavefronts : (wg : WorkGroup) → wg.wavefronts ≡ [] → (spawn_work_items wg).wavefronts ≡ []
unfolding spawn_work_items
no_wavefronts wg e = e

opens-first : (wg : WorkGroup) (rest : List WorkItem) → Formed wg (origin ∷ rest) []
opens-first wg rest = form_step wg origin rest [] opened (form_loop-items wg rest)
  where
    opened : NonEmpty (open_wavefront wg origin [])
    opened = is_open wg (origin-zero wg)

form-run :
    (wg : WorkGroup) {items : List WorkItem} {after : List Wavefront}
    → wg.work_items ≡ items
    → wg.wavefronts ≡ []
    → form_loop wg items [] ≡ some after
    → form_wavefronts wg ≡ some (record wg { wavefronts = after })
unfolding form_wavefronts
form-run wg e none_yet run =
    ap (λ r. r >>= λ wfs. some (record wg { wavefronts = wfs }))
      (ap₂ (form_loop wg) e none_yet ∙ run)

spawn-length :
    (wg : WorkGroup)
    → wg.work_items ≡ []
    → length (spawn_work_items wg).work_items ≡ wg.curr_size_z * (wg.curr_size_y * wg.curr_size_x)
unfolding new_items
spawn-length wg empty =
    ap length (spawned wg empty)
    ∙ length-append_range wg.curr_size_z 0 (wg.curr_size_y * wg.curr_size_x)
        (λ z. append_range wg.curr_size_y 0 (λ y. append_range wg.curr_size_x 0 (item z y)))
        (λ z.
          length-append_range wg.curr_size_y 0 wg.curr_size_x
            (λ y. append_range wg.curr_size_x 0 (item z y))
            (λ y. length-append_range wg.curr_size_x 0 1 (item z y) (λ x. refl) ∙ omega arith))

-- On a group that has just been laid out and has items, forming the wavefronts does not panic. It
-- changes only the wavefronts: one after another, they hold each of the group's `z * y * x`
-- work-items once, in order.
pub form-items :
    (wg : WorkGroup)
    → IsFresh wg
    → (wfs : List Wavefront) × (form_wavefronts (spawn_work_items wg)
        ≡ some (record (spawn_work_items wg) { wavefronts = wfs }))
      × (items_of wfs ≡ (spawn_work_items wg).work_items)
      × (length (items_of wfs) ≡ wg.curr_size_z * (wg.curr_size_y * wg.curr_size_x))
unfolding items_of
form-items wg fresh =
    let (rest, first) = spawn-first wg fresh in
    let (after, run, items) = opens-first (spawn_work_items wg) rest in
    (
      after,
      form-run (spawn_work_items wg) first (no_wavefronts wg fresh.0) run,
      items ∙ sym first,
      ap length (items ∙ sym first) ∙ spawn-length wg fresh.1,
    )
