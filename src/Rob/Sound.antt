-- ===== src/Rob/Sound.antt =====
-- The reorder buffer stays within its size, and keeps each response with the request that it answers.
use sampled_mgpu_sim.Prelude.{
  length-append, ℕ, ◌≤◌, ◌≡◌, refl, ◌∙◌, sym, ap, subst, ◌≢◌, inl, inr, Bool, false, none, some,
  List, [], ◌∷◌, ◌++◌, arith, ◌==◌, Bool-cases, ==_iff, ==_refl, length, All,
}
use sampled_mgpu_sim.Prelude.Elements.{
  put, put-cases, element, set_element, remove_element, element-append_new, element-append_ne,
  element-set_self, element-set_ne, element-remove_ne,
}
use sampled_mgpu_sim.Rob.{
  AccessReq, AccessRsp, Transaction, Rob, Effect, req_id, respond_to, duplicate_req, read_req,
  write_req, add_transaction, create_transaction, delete_transaction, is_full,
}
use sampled_mgpu_sim.Rob.Stages.{top_down-cases, parse_bottom-cases, bottom_up-cases}
use sampled_mgpu_sim.Rob.Log.{Reaches, start, by_top_down, by_parse_bottom, by_bottom_up}

-- A response that is there answers the request that went to the bottom.
pub IsMatched : Transaction → Type 0
IsMatched t =
    (rsp : AccessRsp) → t.rsp_from_bottom ≡ some rsp → respond_to rsp ≡ req_id (t.req_to_bottom)

-- The buffer has no more transactions than its size, no transaction has a number that is still to be
-- given, each identifier of the table names the transaction with that request to the bottom, and
-- each response answers the request of its transaction.
pub record IsSound (b : Rob) : Type 0 where
  pub within : length (b.transactions) ≤ b.buffer_size
  pub unused : (n : ℕ) → b.fresh ≤ n → element n (b.transactions) ≡ none
  pub named :
      (id n : ℕ)
      → b.table id ≡ some n
      → (t : Transaction) × (element n (b.transactions) ≡ some t) × (req_id (t.req_to_bottom) ≡ id)
  pub matched : All (λ e. IsMatched (e.1)) (b.transactions)

pub duplicate_req-id : (id src : ℕ) (req : AccessReq) → req_id (duplicate_req id src req) ≡ id
unfolding duplicate_req
duplicate_req-id id src (read_req a b c d e) = refl
duplicate_req-id id src (write_req a b c d e f) = refl

length-set_element :
    (n : ℕ) (t : Transaction) (xs : List (ℕ × Transaction))
    → length (set_element n t xs) ≡ length xs
unfolding set_element
length-set_element n t [] = refl
length-set_element n t ((m, x) ∷ xs) = ground (arith, length-set_element n t xs)

IsMatched-set :
    (n : ℕ) (t : Transaction) (xs : List (ℕ × Transaction))
    → IsMatched t
    → All (λ e. IsMatched (e.1)) xs
    → All (λ e. IsMatched (e.1)) (set_element n t xs)
unfolding set_element
IsMatched-set n t [] m all = all
IsMatched-set n t ((k, x) ∷ xs) m (first, rest) = elim (Bool-cases (n == k)) [
  | inl h ↦ rw h (m, rest)
  | inr h ↦ rw h (first, IsMatched-set n t xs m rest)
]

IsMatched-append :
    (xs : List (ℕ × Transaction)) (n : ℕ) (t : Transaction)
    → IsMatched t
    → All (λ e. IsMatched (e.1)) xs
    → All (λ e. IsMatched (e.1)) (xs ++ ((n, t) ∷ []))
IsMatched-append [] n t m all = (m, tt)
IsMatched-append ((k, x) ∷ xs) n t m (first, rest) = (first, IsMatched-append xs n t m rest)

module _ (b : Rob) (sound : IsSound b) where
  given-ne : (n : ℕ) (t : Transaction) → element n (b.transactions) ≡ some t → n ≢ b.fresh
  given-ne n t e q = cc (e, sound.unused n (omega (arith, q)))

  later :
      (elem : ℕ) (t : Transaction)
      → element elem (b.transactions) ≡ some t
      → (n : ℕ) → b.fresh ≤ n
      → n ≢ elem
  later elem t there n h q = cc (there, sound.unused elem (omega (arith, q, h)))

  added-IsSound :
      (id : ℕ) (req : AccessReq)
      → is_full b ≡ false
      → IsSound (add_transaction b (create_transaction b id req))
  unfolding add_transaction create_transaction IsMatched
  added-IsSound id req room =
      let trans = create_transaction b id req in
      record {
        within = ground (arith, length-append (b.transactions) ((b.fresh, trans) ∷ []), room);
        unused = λ n h.
            element-append_ne n (b.fresh) trans (b.transactions) (λ q. omega arith)
            ∙ sound.unused n (omega arith);
        named = named;
        matched =
            IsMatched-append (b.transactions) (b.fresh) trans (λ rsp e. ground arith)
              (sound.matched);
      }
    where
      new : Transaction
      new = create_transaction b id req

      named :
          (id' n : ℕ)
          → (add_transaction b new).table id' ≡ some n
          → (t : Transaction) × (element n ((add_transaction b new).transactions) ≡ some t)
            × (req_id (t.req_to_bottom) ≡ id')
      named id' n e =
          elim (put-cases (b.table) (req_id (duplicate_req id (b.bottom_port) req)) (some (b.fresh))
            id' e) [
              | inl (here, given) ↦ (
                new,
                subst (λ m. element m ((add_transaction b new).transactions) ≡ some new) (cc given)
                    (element-append_new (b.fresh) new (b.transactions)
                      (sound.unused (b.fresh) (omega arith))),
                sym here,
              )
              | inr (_, old) ↦
                  let (t, there, same) = sound.named id' n old in
                  (
                    t,
                    element-append_ne n (b.fresh) new (b.transactions) (given-ne n t there) ∙ there,
                    same,
                  )
            ]

  recorded-IsSound :
      (rsp : AccessRsp) (elem : ℕ) (trans : Transaction)
      → b.table (respond_to rsp) ≡ some elem
      → element elem (b.transactions) ≡ some trans
      → IsSound (record b {
        transactions =
            set_element elem (record trans { rsp_from_bottom = some rsp }) (b.transactions);
      })
  unfolding IsMatched
  recorded-IsSound rsp elem trans at there =
      let new : Transaction = record trans { rsp_from_bottom = some rsp } in
      record {
        within = omega (arith, length-set_element elem new (b.transactions), sound.within);
        unused = λ n h.
            element-set_ne n elem new (b.transactions) (later elem trans there n h)
            ∙ sound.unused n h;
        named = named;
        matched = IsMatched-set elem new (b.transactions) (λ r e. answers r e) (sound.matched);
      }
    where
      new_trans : Transaction
      new_trans = record trans { rsp_from_bottom = some rsp }

      answers : (r : AccessRsp) → some rsp ≡ some r → respond_to r ≡ req_id (trans.req_to_bottom)
      answers r e =
          let (t, same_elem, same) = sound.named (respond_to rsp) elem at in
          cc (e, same, same_elem, there)

      named :
          (id n : ℕ)
          → b.table id ≡ some n
          → (t : Transaction) × (element n (set_element elem new_trans (b.transactions)) ≡ some t)
            × (req_id (t.req_to_bottom) ≡ id)
      named id n e =
          let (t, old, same) = sound.named id n e in
          elim (Bool-cases (n == elem)) [
            | inl h ↦ (
              new_trans,
              rw ((==_iff n elem).0 h)
                  (element-set_self elem new_trans (b.transactions) {old = trans} there),
              cc (same, old, there, (==_iff n elem).0 h),
            )
            | inr h ↦ (
              t,
              element-set_ne n elem new_trans (b.transactions) (λ q. ground arith) ∙ old,
              same,
            )
          ]

  deleted-IsSound :
      (elem : ℕ) (trans : Transaction) (rest : List (ℕ × Transaction))
      → b.transactions ≡ (elem, trans) ∷ rest
      → IsSound (delete_transaction b elem trans)
  unfolding delete_transaction element remove_element
  deleted-IsSound elem trans rest first =
      let front : element elem (b.transactions) ≡ some trans = rw (first, ==_refl elem) refl in
      let shorter : remove_element elem (b.transactions) ≡ rest = rw (first, ==_refl elem) refl in
      record {
        within = rw shorter (omega (arith, ap length first, sound.within));
        unused = λ n h.
            element-remove_ne n elem (b.transactions) (later elem trans front n h)
            ∙ sound.unused n h;
        named = named front;
        matched = rw shorter (subst (λ xs. All (λ e. IsMatched (e.1)) xs) first (sound.matched)).1;
      }
    where
      named :
          element elem (b.transactions) ≡ some trans
          → (id n : ℕ) → put (b.table) (req_id (trans.req_to_bottom)) none id ≡ some n
          → (t : Transaction) × (element n (remove_element elem (b.transactions)) ≡ some t)
            × (req_id (t.req_to_bottom) ≡ id)
      named front id n e = elim (put-cases (b.table) (req_id (trans.req_to_bottom)) none id e) [
        | inl (_, gone) ↦ cc gone
        | inr (other, old) ↦
            let (t, there, same) = sound.named id n old in
            (
              t,
              element-remove_ne n elem (b.transactions) (λ q. other (cc (same, there, front, q)))
                  ∙ there,
              same,
            )
      ]

-- What holds of the buffer after a stage.
After : Bool × Rob × List Effect → Type 0
After result = IsSound (result.1)

-- From a buffer that is so, whatever the stages do in whichever order, and whatever the ports show
-- and accept: the buffer has no more transactions than its size, each identifier in the table names
-- a transaction with that request to the bottom, and each response that waits in a transaction
-- answers the request that the transaction sent to the bottom.
pub reached-IsSound :
    (b : Rob) {log : List Effect} {after : Rob} → Reaches b log after → IsSound b → IsSound after
unfolding After
reached-IsSound b start sound = sound
reached-IsSound b (by_top_down {log} {b1} run peeked id accepted) sound =
    let before = reached-IsSound b run sound in
    elim (top_down-cases b1 peeked id accepted) [
      | inl idle ↦ subst After (sym idle) before
      | inr (req, room, taken) ↦ subst After (sym taken) (added-IsSound b1 before id req room)
    ]
reached-IsSound b (by_parse_bottom {log} {b1} run peeked) sound =
    let before = reached-IsSound b run sound in
    elim (parse_bottom-cases b1 peeked) [
      | inl idle ↦ subst After (sym idle) before
      | inr (inl (rsp, dropped)) ↦ subst After (sym dropped) before
      | inr (inr (rsp, elem, trans, at, there, recorded)) ↦
          subst After (sym recorded) (recorded-IsSound b1 before rsp elem trans at there)
    ]
reached-IsSound b (by_bottom_up {log} {b1} run accepted) sound =
    let before = reached-IsSound b run sound in
    elim (bottom_up-cases b1 accepted) [
      | inl idle ↦ subst After (sym idle) before
      | inr (elem, trans, rest, rsp, first, ready, sent) ↦
          subst After (sym sent) (deleted-IsSound b1 before elem trans rest first)
    ]
