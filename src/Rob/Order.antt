-- ===== src/Rob/Order.antt =====
-- The reorder buffer answers requests in the order in which it took them.
use sampled_mgpu_sim.Prelude.{
  ℕ, ◌≡◌, refl, ◌∙◌, sym, ap, subst, inl, inr, Bool, true, false, Option, some, List, [], ◌∷◌, ◌++◌,
  ◌==◌, Bool-cases, ==_refl,
}
use mathlib.Core.List.{append_assoc, append-nil}
use sampled_mgpu_sim.Prelude.Elements.{element, set_element, remove_element}
use sampled_mgpu_sim.Rob.{
  AccessReq, AccessRsp, Transaction, Rob, Effect, data_ready, write_done, retrieve_bottom, req_id,
  req_src, respond_to, top_down, parse_bottom, bottom_up, add_transaction, create_transaction,
  delete_transaction, duplicate_rsp,
}
use sampled_mgpu_sim.Rob.Stages.{top_down-cases, parse_bottom-cases, bottom_up-cases}
use sampled_mgpu_sim.Rob.Log.{
  Reaches, start, by_top_down, by_parse_bottom, by_bottom_up, requested, answered, waiting,
  requested-append, answered-append, waiting-append,
}

waiting-set :
    (elem : ℕ) (trans new : Transaction) (xs : List (ℕ × Transaction))
    → element elem xs ≡ some trans
    → req_id (new.req_from_top) ≡ req_id (trans.req_from_top)
    → waiting (set_element elem new xs) ≡ waiting xs
unfolding element set_element
waiting-set elem trans new [] e same = refl
waiting-set elem trans new ((n, t) ∷ xs) e same = elim (Bool-cases (elem == n)) [
  | inl h ↦
      let there : t ≡ trans = cc (e, h) in
      rw h (
        ap (λ id. id ∷ waiting xs)
          (same ∙ ap (λ (x : Transaction). req_id (x.req_from_top)) (sym there)))
  | inr h ↦
      rw h
        (ap (λ ids. req_id (t.req_from_top) ∷ ids) (waiting-set elem trans new xs (cc (e, h)) same))
]

duplicate_rsp-to : (rsp : AccessRsp) (to dst : ℕ) → respond_to (duplicate_rsp rsp to dst) ≡ to
unfolding duplicate_rsp
duplicate_rsp-to (data_ready r d bytes) to dst = refl
duplicate_rsp-to (write_done r d) to dst = refl

-- What one stage answers and leaves waiting is what was waiting and what it takes.
abbrev Moves : Rob → Bool × Rob × List Effect → Type 0
Moves b result =
    answered (result.2) ++ waiting (result.1.transactions)
    ≡ waiting (b.transactions) ++ requested (result.2)

idle-Moves :
    (b : Rob) (progress : Bool) (effects : List Effect)
    → answered effects ≡ []
    → requested effects ≡ []
    → Moves b (progress, b, effects)
idle-Moves b progress effects a r = rw (a, r) (sym (append-nil (waiting (b.transactions))))

top_down-Moves :
    (b : Rob) (peeked : Option AccessReq) (id : ℕ) (accepted : Bool)
    → Moves b (top_down b peeked id accepted)
unfolding add_transaction create_transaction answered requested
top_down-Moves b peeked id accepted = elim (top_down-cases b peeked id accepted) [
  | inl idle ↦ subst (Moves b) (sym idle) (idle-Moves b false [] refl refl)
  | inr (req, room, taken) ↦
      subst (Moves b) (sym taken)
        (waiting-append (b.transactions) ((b.fresh, create_transaction b id req) ∷ []))
]

parse_bottom-Moves : (b : Rob) (peeked : Option AccessRsp) → Moves b (parse_bottom b peeked)
unfolding answered requested
parse_bottom-Moves b peeked = elim (parse_bottom-cases b peeked) [
  | inl idle ↦ subst (Moves b) (sym idle) (idle-Moves b false [] refl refl)
  | inr (inl (rsp, dropped)) ↦
      subst (Moves b) (sym dropped) (idle-Moves b true (retrieve_bottom rsp ∷ []) refl refl)
  | inr (inr (rsp, elem, trans, named, there, recorded)) ↦ subst (Moves b) (sym recorded) (
      waiting-set elem trans (record trans { rsp_from_bottom = some rsp }) (b.transactions) there
        refl
      ∙ sym (append-nil (waiting (b.transactions))))
]

bottom_up-Moves : (b : Rob) (accepted : Bool) → Moves b (bottom_up b accepted)
unfolding delete_transaction remove_element answered requested
bottom_up-Moves b accepted = elim (bottom_up-cases b accepted) [
  | inl idle ↦ subst (Moves b) (sym idle) (idle-Moves b false [] refl refl)
  | inr (elem, trans, rest, rsp, first, ready, sent) ↦ subst (Moves b) (sym sent) (
      rw
        (
          first,
          ==_refl elem,
          duplicate_rsp-to rsp (req_id (trans.req_from_top)) (req_src (trans.req_from_top)),
        )
        (sym (append-nil (waiting ((elem, trans) ∷ rest)))))
]

-- A stage continues a run.
continues :
    (b b1 : Rob) (log : List Effect) (result : Bool × Rob × List Effect)
    → answered log ++ waiting (b1.transactions) ≡ waiting (b.transactions) ++ requested log
    → Moves b1 result
    → answered (log ++ result.2) ++ waiting (result.1.transactions)
      ≡ waiting (b.transactions) ++ requested (log ++ result.2)
continues b b1 log result before moves =
    rw (answered-append log (result.2), requested-append log (result.2))
      (append_assoc (answered log) (answered (result.2)) (waiting (result.1.transactions))
        ∙ ap (λ ids. answered log ++ ids) moves
        ∙ sym (append_assoc (answered log) (waiting (b1.transactions)) (requested (result.2)))
        ∙ ap (λ ids. ids ++ requested (result.2)) before
        ∙ append_assoc (waiting (b.transactions)) (requested log) (requested (result.2)))

-- From any buffer, whatever the stages do in whichever order, and whatever the ports show and accept:
-- the requests that are answered, and then the ones that wait, are the ones that waited at the
-- start, and then the ones that were taken since, in the same order.
pub answered-in_order :
    (b : Rob) {log : List Effect} {after : Rob}
    → Reaches b log after
    → answered log ++ waiting (after.transactions) ≡ waiting (b.transactions) ++ requested log
unfolding answered requested
answered-in_order b start = sym (append-nil (waiting (b.transactions)))
answered-in_order b (by_top_down {log} {b1} run peeked id accepted) =
    continues b b1 log (top_down b1 peeked id accepted) (answered-in_order b run)
      (top_down-Moves b1 peeked id accepted)
answered-in_order b (by_parse_bottom {log} {b1} run peeked) =
    continues b b1 log (parse_bottom b1 peeked) (answered-in_order b run)
      (parse_bottom-Moves b1 peeked)
answered-in_order b (by_bottom_up {log} {b1} run accepted) =
    continues b b1 log (bottom_up b1 accepted) (answered-in_order b run)
      (bottom_up-Moves b1 accepted)
