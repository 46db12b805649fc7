-- ===== src/PageTable/Sound.antt =====
-- The table of a process in the table of them all.
use sampled_mgpu_sim.Prelude.{
  ℕ, ◌≡◌, refl, subst, inl, inr, Option, none, some, [], arith, ◌==◌, if◌then◌else◌, Bool-cases,
  Option-cases, ==_iff,
}
use sampled_mgpu_sim.Prelude.{fun_ext}
use sampled_mgpu_sim.Prelude.Elements.{put, element}
use sampled_mgpu_sim.PageTable.{ProcessTable, PageTable, get_table, write_table, find_page}
use sampled_mgpu_sim.PageTable.Wf.{IsWf}
use sampled_mgpu_sim.PageTable.Spec.{view_of, IsSound}

abbrev empty : ProcessTable
empty = record { entries = []; entries_table = λ v. none; fresh = 0 }

empty-IsWf : IsWf empty
unfolding element
empty-IsWf = record {
  unused = λ id h. refl;
  named = λ v id e. ground arith;
  apart = λ v w id e f. ground arith;
}

or_empty : Option ProcessTable → ProcessTable
or_empty none = empty
or_empty (some t) = t

created : PageTable → ℕ → PageTable
created pt pid = record pt { tables = put (pt.tables) pid (some empty) }

module _ (pt : PageTable) (pid : ℕ) where
  get_table-none : pt.tables pid ≡ none → get_table pt pid ≡ (empty, created pt pid)
  unfolding get_table created
  get_table-none e = rw (e, get_table) refl

  get_table-some : (t : ProcessTable) → pt.tables pid ≡ some t → get_table pt pid ≡ (t, pt)
  unfolding get_table
  get_table-some t e = rw (e, get_table) refl

table-or_empty : (pt : PageTable) (pid : ℕ) → (get_table pt pid).0 ≡ or_empty (pt.tables pid)
unfolding or_empty
table-or_empty pt pid = elim (Option-cases (pt.tables pid)) [
  | inl e ↦ rw (get_table-none pt pid e, e) refl
  | inr (t, e) ↦ rw (get_table-some pt pid t e, e) refl
]

module _ (pt : PageTable) (sound : IsSound pt) (pid : ℕ) where
  pub table-IsWf : IsWf ((get_table pt pid).0)
  unfolding or_empty
  table-IsWf = rw (table-or_empty pt pid) (elim (Option-cases (pt.tables pid)) [
    | inl e ↦ rw e empty-IsWf
    | inr (t, e) ↦ rw e (sound pid t e)
  ])

  abbrev pub written : ProcessTable → PageTable
  written t = write_table ((get_table pt pid).1) pid t

  written-tables :
      (t : ProcessTable) (p : ℕ) → (written t).tables p ≡ (if p == pid then some t else pt.tables p)
  unfolding write_table created
  written-tables t p = elim (Option-cases (pt.tables pid)) [
    | inl e ↦ rw (get_table-none pt pid e) (ground arith)
    | inr (old, e) ↦ rw (get_table-some pt pid old e) refl
  ]

  pub written-IsSound : (t : ProcessTable) → IsWf t → IsSound (written t)
  written-IsSound t wf p t' e = elim (Bool-cases (p == pid)) [
    | inl h ↦ subst IsWf (cc (e, written-tables t p, h)) wf
    | inr h ↦ sound p t' (cc (e, written-tables t p, h))
  ]

  pub written-view : (t : ProcessTable) → view_of (written t) ≡ put (view_of pt) pid (find_page t)
  unfolding view_of or_empty
  written-view t = fun_ext point
    where
      point : (p : ℕ) → view_of (written t) p ≡ put (view_of pt) pid (find_page t) p
      point p =
          rw (table-or_empty (written t) p, table-or_empty pt p, written-tables t p)
            (elim (Bool-cases (p == pid)) [ inl h ↦ rw h refl | inr h ↦ rw h refl ])

  pub written-log2 : (t : ProcessTable) → (written t).log2_page_size ≡ pt.log2_page_size
  unfolding write_table created
  written-log2 t = elim (Option-cases (pt.tables pid)) [
    | inl e ↦ rw (get_table-none pt pid e) refl
    | inr (old, e) ↦ rw (get_table-some pt pid old e) refl
  ]

  -- Looking a table up may make one, which changes neither the view nor the rest.
  created-IsSound : pt.tables pid ≡ none → IsSound (created pt pid)
  unfolding created
  created-IsSound e p t' f = elim (Bool-cases (p == pid)) [
    | inl h ↦ subst IsWf (cc (f, h)) empty-IsWf
    | inr h ↦ sound p t' (cc (f, h))
  ]

  created-view : pt.tables pid ≡ none → view_of (created pt pid) ≡ view_of pt
  unfolding view_of created or_empty
  created-view e = fun_ext point
    where
      point : (p : ℕ) → view_of (created pt pid) p ≡ view_of pt p
      point p =
          rw (table-or_empty (created pt pid) p, table-or_empty pt p)
            (elim (Bool-cases (p == pid)) [
              | inl h ↦ rw (h, (==_iff p pid).0 h, e) refl
              | inr h ↦ rw h refl
            ])

  pub get_table-IsSound : IsSound ((get_table pt pid).1)
  get_table-IsSound = elim (Option-cases (pt.tables pid)) [
    | inl e ↦ rw (get_table-none pt pid e) (created-IsSound e)
    | inr (old, e) ↦ rw (get_table-some pt pid old e) sound
  ]

  pub get_table-view : view_of ((get_table pt pid).1) ≡ view_of pt
  get_table-view = elim (Option-cases (pt.tables pid)) [
    | inl e ↦ rw (get_table-none pt pid e) (created-view e)
    | inr (old, e) ↦ rw (get_table-some pt pid old e) refl
  ]

  pub get_table-log2 : ((get_table pt pid).1).log2_page_size ≡ pt.log2_page_size
  unfolding created
  get_table-log2 = elim (Option-cases (pt.tables pid)) [
    | inl e ↦ rw (get_table-none pt pid e) refl
    | inr (old, e) ↦ rw (get_table-some pt pid old e) refl
  ]
