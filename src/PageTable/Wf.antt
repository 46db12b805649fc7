-- ===== src/PageTable/Wf.antt =====
-- The table of a process keeps its map and its list in step.
use sampled_mgpu_sim.Prelude.{
  ℕ, suc, ◌≤◌, ◌<◌, ◌≡◌, refl, sym, subst, ◌≢◌, inl, inr, none, some, List, [], ◌∷◌, ◌++◌, arith,
  ltb, ◌==◌, Bool-cases, Option-cases, ltb→lt, ltb-false, ◌>>=◌,
}
use sampled_mgpu_sim.Prelude.Elements.{put, put-cases, element}
use sampled_mgpu_sim.PageTable.{Page, ProcessTable, find_page}
use sampled_mgpu_sim.Prelude.Elements.{element-append_new, element-append_ne}

-- No element has a number that is still to be given; each key names an element whose page has the
-- key for its address; and no two keys name one element.
pub record IsWf (t : ProcessTable) : Type 0 where
  pub unused : (id : ℕ) → t.fresh ≤ id → element id (t.entries) ≡ none
  pub named :
      (v id : ℕ)
      → t.entries_table v ≡ some id
      → (page : Page) × (element id (t.entries) ≡ some page) × (page.v_addr ≡ v)
  pub apart : (v w id : ℕ) → t.entries_table v ≡ some id → t.entries_table w ≡ some id → v ≡ w

module _ (t : ProcessTable) (wf : IsWf t) where
  -- A key names a number that has been given.
  pub named-lt : (v id : ℕ) → t.entries_table v ≡ some id → id < t.fresh
  named-lt v id e = elim (Bool-cases (ltb id (t.fresh))) [
    | inl h ↦ ltb→lt id (t.fresh) h
    | inr h ↦ cc ((wf.named v id e).1, wf.unused id (ltb-false id (t.fresh) h))
  ]

  -- The page of a key that is there, and of one that is not.
  pub found : (v id : ℕ) → t.entries_table v ≡ some id → (page : Page) × (find_page t v ≡ some page)
  unfolding find_page
  found v id e = let (page, there, same) = wf.named v id e in (page, rw e there)

  pub missing : (v : ℕ) → t.entries_table v ≡ none → find_page t v ≡ none
  unfolding find_page
  missing v e = rw e refl

  -- A list that has the same elements under the numbers of the keys gives the same pages.
  pub same-find :
      (entries : List (ℕ × Page)) (v : ℕ)
      → ((id : ℕ) → t.entries_table v ≡ some id → element id entries ≡ element id (t.entries))
      → (t.entries_table v >>= λ elem. element elem entries) ≡ find_page t v
  unfolding find_page
  same-find entries v same = elim (Option-cases (t.entries_table v)) [
    | inl e ↦ rw e refl
    | inr (id, e) ↦ rw e (same id e)
  ]

  module _ (page : Page) where
    abbrev pub appended : ProcessTable
    appended = record t {
      entries = t.entries ++ ((t.fresh, page) ∷ []);
      entries_table = put (t.entries_table) (page.v_addr) (some (t.fresh));
      fresh = suc (t.fresh);
    }

    pub appended-IsWf : t.entries_table (page.v_addr) ≡ none → IsWf appended
    appended-IsWf gone = record { unused = unused; named = named; apart = apart }
      where
        differs : (v id : ℕ) → t.entries_table v ≡ some id → id ≢ t.fresh
        differs v id e q = omega (arith, named-lt v id e)

        unused : (id : ℕ) → suc (t.fresh) ≤ id → element id (appended.entries) ≡ none
        unused id h =
            rw (element-append_ne id (t.fresh) page (t.entries) (λ q. omega arith))
              (wf.unused id (omega arith))

        named :
            (v id : ℕ)
            → appended.entries_table v ≡ some id
            → (x : Page) × (element id (appended.entries) ≡ some x) × (x.v_addr ≡ v)
        named v id e = elim (put-cases (t.entries_table) (page.v_addr) (some (t.fresh)) v e) [
          | inl (here, given) ↦ (
            page,
            subst (λ n. element n (appended.entries) ≡ some page) (cc given)
                (element-append_new (t.fresh) page (t.entries) (wf.unused (t.fresh) (omega arith))),
            sym here,
          )
          | inr (there, old) ↦
              let (x, at, addr) = wf.named v id old in
              (x, rw (element-append_ne id (t.fresh) page (t.entries) (differs v id old)) at, addr)
        ]

        apart :
            (v w id : ℕ)
            → appended.entries_table v ≡ some id
            → appended.entries_table w ≡ some id
            → v ≡ w
        apart v w id e f = elim (put-cases (t.entries_table) (page.v_addr) (some (t.fresh)) v e) [
          | inl (here, given) ↦
              elim (put-cases (t.entries_table) (page.v_addr) (some (t.fresh)) w f) [
                | inl (here2, _) ↦ cc (here, here2)
                | inr (_, old) ↦ absurd (differs w id old (cc given))
              ]
          | inr (_, old) ↦ elim (put-cases (t.entries_table) (page.v_addr) (some (t.fresh)) w f) [
            | inl (_, given) ↦ absurd (differs v id old (cc given))
            | inr (_, old2) ↦ wf.apart v w id old old2
          ]
        ]

    pub appended-find :
        (v : ℕ) → find_page appended v ≡ put (find_page t) (page.v_addr) (some page) v
    unfolding find_page
    appended-find v = elim (Bool-cases (v == page.v_addr)) [
      | inl h ↦
          rw h (element-append_new (t.fresh) page (t.entries) (wf.unused (t.fresh) (omega arith)))
      | inr h ↦ rw h (
          same-find (t.entries ++ ((t.fresh, page) ∷ [])) v (λ id e.
            element-append_ne id (t.fresh) page (t.entries) (λ q. omega (arith, named-lt v id e))))
    ]
