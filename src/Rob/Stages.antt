-- ===== src/Rob/Stages.antt =====
-- What each stage of the reorder buffer can do.
use sampled_mgpu_sim.Prelude.{
  ℕ, ◌≡◌, refl, ◌∙◌, ap, ap₂, ◌⊎◌, inl, inr, Bool, true, false, Option, none, some, List, [], ◌∷◌,
  Bool-cases, Option-cases, >>=-eq-some,
}
use sampled_mgpu_sim.Prelude.Elements.{element, set_element}
use sampled_mgpu_sim.Rob.{
  AccessReq, AccessRsp, Transaction, Rob, Effect, retrieve_top, retrieve_bottom, send_top,
  send_bottom, req_id, req_src, respond_to, top_down, parse_bottom, bottom_up, answer, answer_front,
  named_transaction, record_response, add_transaction, create_transaction, delete_transaction,
  duplicate_rsp, is_full,
}

-- A request is taken: there is room, and both ports are ready.
abbrev pub IsTaken : Rob → ℕ → Bool × Rob × List Effect → Type 0
IsTaken b id result =
    (req : AccessReq) × (is_full b ≡ false)
    × (result ≡ (
      true,
      add_transaction b (create_transaction b id req),
      send_bottom ((create_transaction b id req).req_to_bottom) ∷ retrieve_top req ∷ [],
    ))

pub top_down-cases :
    (b : Rob) (peeked : Option AccessReq) (id : ℕ) (accepted : Bool)
    → (top_down b peeked id accepted ≡ (false, b, []))
      ⊎ IsTaken b id (top_down b peeked id accepted)
unfolding top_down
top_down-cases b peeked id accepted = elim (Bool-cases (is_full b)) [
  | inl full ↦ inl (rw full refl)
  | inr room ↦ split peeked accepted room
]
  where
    split :
        (peeked : Option AccessReq) (accepted : Bool)
        → is_full b ≡ false
        → (top_down b peeked id accepted ≡ (false, b, []))
          ⊎ IsTaken b id (top_down b peeked id accepted)
    split none accepted room = inl (rw room refl)
    split (some req) true room = inr (req, room, rw room refl)
    split (some req) false room = inl (rw room refl)

-- A response is recorded in the transaction that the table names.
abbrev pub IsRecorded : Rob → Bool × Rob × List Effect → Type 0
IsRecorded b result =
    (rsp : AccessRsp) × (elem : ℕ) × (trans : Transaction) × (b.table (respond_to rsp) ≡ some elem)
    × (element elem (b.transactions) ≡ some trans)
    × (result ≡ (
      true,
      record b {
        transactions =
            set_element elem (record trans { rsp_from_bottom = some rsp }) (b.transactions);
      },
      retrieve_bottom rsp ∷ [],
    ))

pub parse_bottom-cases :
    (b : Rob) (peeked : Option AccessRsp)
    → (parse_bottom b peeked ≡ (false, b, []))
      ⊎ ((rsp : AccessRsp) × (parse_bottom b peeked ≡ (true, b, retrieve_bottom rsp ∷ [])))
      ⊎ IsRecorded b (parse_bottom b peeked)
unfolding parse_bottom record_response named_transaction
parse_bottom-cases b none = inl refl
parse_bottom-cases b (some rsp) = elim (Option-cases (named_transaction b (respond_to rsp))) [
  | inl e ↦ inr (inl (rsp, ap (record_response b rsp) e))
  | inr ((elem, trans), e) ↦
      let (elem1, at, more) = >>=-eq-some (b.table (respond_to rsp)) _ e in
      let (trans1, there, same) = >>=-eq-some (element elem1 (b.transactions)) _ more in
      inr (inr (rsp, elem, trans, cc (at, same), cc (there, same), ap (record_response b rsp) e))
]

-- The first transaction leaves with its response.
abbrev pub IsAnswered : Rob → Bool × Rob × List Effect → Type 0
IsAnswered b result =
    (elem : ℕ) × (trans : Transaction) × (rest : List (ℕ × Transaction)) × (rsp : AccessRsp)
    × (b.transactions ≡ (elem, trans) ∷ rest)
    × (trans.rsp_from_bottom ≡ some rsp)
    × (result ≡ (
      true,
      delete_transaction b elem trans,
      send_top (duplicate_rsp rsp (req_id (trans.req_from_top)) (req_src (trans.req_from_top)))
          ∷ [],
    ))

List-cases :
    (xs : List (ℕ × Transaction))
    → (xs ≡ [])
      ⊎ ((elem : ℕ) × (trans : Transaction) × (rest : List (ℕ × Transaction)) × (xs
            ≡ (elem, trans) ∷ rest))
List-cases [] = inl refl
List-cases ((elem, trans) ∷ rest) = inr (elem, trans, rest, refl)

pub bottom_up-cases :
    (b : Rob) (accepted : Bool)
    → (bottom_up b accepted ≡ (false, b, [])) ⊎ IsAnswered b (bottom_up b accepted)
unfolding bottom_up answer_front answer
bottom_up-cases b accepted = elim (List-cases (b.transactions)) [
  | inl e ↦ inl (rw e refl)
  | inr (elem, trans, rest, e) ↦
      let opened : bottom_up b accepted ≡ answer b elem trans (trans.rsp_from_bottom) accepted =
        ap (λ xs. answer_front b xs accepted) e in
      elim (Option-cases (trans.rsp_from_bottom)) [
        | inl f ↦ inl (opened ∙ ap (λ o. answer b elem trans o accepted) f)
        | inr (rsp, f) ↦ elim (Bool-cases accepted) [
          | inl ready ↦
              inr (elem, trans, rest, rsp, e, f, opened ∙ ap₂ (answer b elem trans) f ready)
          | inr not_ready ↦ inl (opened ∙ ap₂ (answer b elem trans) f not_ready)
        ]
      ]
]
