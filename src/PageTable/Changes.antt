-- ===== src/PageTable/Changes.antt =====
-- Rewriting and removing the page of a key keeps the table of a process in step.
use sampled_mgpu_sim.Prelude.{
  ℕ, ◌≤◌, ◌≡◌, refl, ◌∙◌, sym, subst, ◌≢◌, inl, inr, none, some, arith, ◌==◌, Bool-cases, ==_iff,
  ==_refl,
}
use sampled_mgpu_sim.Prelude.Elements.{put, put-cases, element, set_element, remove_element}
use sampled_mgpu_sim.PageTable.{Page, ProcessTable, find_page}
use sampled_mgpu_sim.Prelude.Elements.{element-set_self, element-set_ne, element-remove_ne}
use sampled_mgpu_sim.PageTable.Wf.{IsWf, named-lt, same-find}

module _ (t : ProcessTable) (wf : IsWf t) (key elem : ℕ)
    (at : t.entries_table key ≡ some elem) where
  -- Another key names another element.
  other : (v id : ℕ) → t.entries_table v ≡ some id → v ≢ key → id ≢ elem
  other v id e ne q = ne (wf.apart v key elem (cc (e, q)) at)

  beyond : (id : ℕ) → t.fresh ≤ id → id ≢ elem
  beyond id h q = omega (arith, named-lt t wf key elem at)

  module _ (page : Page) (addr : page.v_addr ≡ key) where
    abbrev pub rewritten : ProcessTable
    rewritten = record t { entries = set_element elem page (t.entries) }

    pub rewritten-IsWf : IsWf rewritten
    rewritten-IsWf = record { unused = unused; named = named; apart = wf.apart }
      where
        unused : (id : ℕ) → t.fresh ≤ id → element id (rewritten.entries) ≡ none
        unused id h = rw (element-set_ne id elem page (t.entries) (beyond id h)) (wf.unused id h)

        named :
            (v id : ℕ)
            → t.entries_table v ≡ some id
            → (x : Page) × (element id (rewritten.entries) ≡ some x) × (x.v_addr ≡ v)
        named v id e =
            let (x, there, addr_of) = wf.named v id e in
            elim (Bool-cases (id == elem)) [
              | inl h ↦ (
                page,
                rw ((==_iff id elem).0 h) (
                    element-set_self elem page (t.entries) {old = x}
                      (subst (λ n. element n (t.entries) ≡ some x) ((==_iff id elem).0 h) there)),
                addr ∙ sym (wf.apart v key id e (cc (at, (==_iff id elem).0 h))),
              )
              | inr h ↦ (
                x,
                rw (element-set_ne id elem page (t.entries) (λ q. ground arith)) there,
                addr_of,
              )
            ]

    pub rewritten-find : (v : ℕ) → find_page rewritten v ≡ put (find_page t) key (some page) v
    unfolding find_page
    rewritten-find v = elim (Bool-cases (v == key)) [
      | inl h ↦
          let (x, there, addr_of) = wf.named key elem at in
          rw ((==_iff v key).0 h, at, ==_refl key)
            (element-set_self elem page (t.entries) {old = x} there)
      | inr h ↦ rw h (
          same-find t wf (rewritten.entries) v
            (λ id e. element-set_ne id elem page (t.entries) (other v id e (λ q. ground arith))))
    ]

  abbrev pub removed : ProcessTable
  removed = record t {
    entries = remove_element elem (t.entries);
    entries_table = put (t.entries_table) key none;
  }

  pub removed-IsWf : IsWf removed
  removed-IsWf = record { unused = unused; named = named; apart = apart }
    where
      unused : (id : ℕ) → t.fresh ≤ id → element id (removed.entries) ≡ none
      unused id h = rw (element-remove_ne id elem (t.entries) (beyond id h)) (wf.unused id h)

      named :
          (v id : ℕ)
          → removed.entries_table v ≡ some id
          → (x : Page) × (element id (removed.entries) ≡ some x) × (x.v_addr ≡ v)
      named v id e = elim (put-cases (t.entries_table) key none v e) [
        | inl (here, gone) ↦ cc gone
        | inr (there, old) ↦
            let (x, stays, addr_of) = wf.named v id old in
            (x, rw (element-remove_ne id elem (t.entries) (other v id old there)) stays, addr_of)
      ]

      apart :
          (v w id : ℕ)
          → removed.entries_table v ≡ some id
          → removed.entries_table w ≡ some id
          → v ≡ w
      apart v w id e f = elim (put-cases (t.entries_table) key none v e) [
        | inl (_, gone) ↦ cc gone
        | inr (_, old) ↦ elim (put-cases (t.entries_table) key none w f) [
          | inl (_, gone) ↦ cc gone
          | inr (_, old2) ↦ wf.apart v w id old old2
        ]
      ]

  pub removed-find : (v : ℕ) → find_page removed v ≡ put (find_page t) key none v
  unfolding find_page
  removed-find v = elim (Bool-cases (v == key)) [
    | inl h ↦ rw h refl
    | inr h ↦ rw h (
        same-find t wf (removed.entries) v
          (λ id e. element-remove_ne id elem (t.entries) (other v id e (λ q. ground arith))))
  ]
