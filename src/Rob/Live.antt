-- ===== src/Rob/Live.antt =====
-- A response from below is recorded with the transaction that waits for it, and sent when it is the
-- oldest one.
use sampled_mgpu_sim.Prelude.{
  ℕ, ◌≡◌, refl, sym, ap, subst, inl, inr, Bool, true, Option, none, some, List, [], ◌∷◌, arith,
  ◌==◌, Bool-cases, ==_iff, ==_refl, ◌>>=◌,
}
use sampled_mgpu_sim.Prelude.{◌∙◌}
use sampled_mgpu_sim.Prelude.Elements.{put, element, set_element, remove_element}
use sampled_mgpu_sim.Rob.{
  AccessReq, AccessRsp, Transaction, Rob, Effect, req_id, req_src, respond_to, duplicate_req,
  duplicate_rsp, retrieve_bottom, send_top, add_transaction, create_transaction, delete_transaction,
  named_transaction, record_response, parse_bottom, bottom_up, answer_front, answer,
}
use sampled_mgpu_sim.Rob.Stages.{top_down-cases, parse_bottom-cases, bottom_up-cases}
use sampled_mgpu_sim.Rob.Log.{Reaches, start, by_top_down, by_parse_bottom, by_bottom_up}
use sampled_mgpu_sim.Rob.Sound.{IsSound, reached-IsSound, duplicate_req-id}
use sampled_mgpu_sim.Rob.Pending.{
  AreNamed, AreDistinct, IsListed, AreNamed-put_new, AreNamed-append, AreDistinct-append,
  AreDistinct-set, AreNamed-set, AreNamed-delete,
}

IsListed-added :
    (b : Rob) (id : ℕ) (req : AccessReq)
    → IsSound b
    → b.table id ≡ none
    → IsListed b
    → IsListed (add_transaction b (create_transaction b id req))
unfolding add_transaction create_transaction
IsListed-added b id req sound new listed =
    let built : ℕ = req_id (duplicate_req id (b.bottom_port) req) in
    let same : built ≡ id = duplicate_req-id id (b.bottom_port) req in
    record {
      named =
          AreNamed-append (put (b.table) built (some (b.fresh))) (b.fresh) _ (b.transactions)
            (rw (==_refl built) refl)
            (AreNamed-put_new (b.table) built (b.fresh) (b.transactions) (ap (b.table) same ∙ new)
              (listed.named));
      distinct =
          AreDistinct-append (b.fresh) _ (b.transactions) (sound.unused (b.fresh) (omega arith))
            (listed.distinct);
    }

IsListed-recorded :
    (b : Rob) (rsp : AccessRsp) (elem : ℕ) (trans : Transaction)
    → element elem (b.transactions) ≡ some trans
    → IsListed b
    → IsListed (record b {
      transactions =
          set_element elem (record trans { rsp_from_bottom = some rsp }) (b.transactions);
    })
IsListed-recorded b rsp elem trans there listed = record {
  named =
      AreNamed-set (b.table) elem trans (record trans { rsp_from_bottom = some rsp })
        (b.transactions) there refl (listed.named);
  distinct =
      AreDistinct-set elem (record trans { rsp_from_bottom = some rsp }) (b.transactions)
        (listed.distinct);
}

IsListed-deleted :
    (b : Rob) (elem : ℕ) (trans : Transaction) (rest : List (ℕ × Transaction))
    → b.transactions ≡ (elem, trans) ∷ rest
    → IsListed b
    → IsListed (delete_transaction b elem trans)
unfolding delete_transaction remove_element
IsListed-deleted b elem trans rest first listed =
    let shorter : remove_element elem (b.transactions) ≡ rest = rw (first, ==_refl elem) refl in
    let names : AreNamed (b.table) ((elem, trans) ∷ rest) =
      subst (AreNamed (b.table)) first (listed.named) in
    let apart : AreDistinct ((elem, trans) ∷ rest) = subst AreDistinct first (listed.distinct) in
    record {
      named = subst (AreNamed (put (b.table) (req_id (trans.req_to_bottom)) none)) (sym shorter) (
          AreNamed-delete (b.table) elem (req_id (trans.req_to_bottom)) rest (names.0) (apart.0)
            (names.1));
      distinct = subst AreDistinct (sym shorter) (apart.1);
    }

-- In a run, no request to the bottom is built with an identifier that the table has.
unfoldable pub FreshIds : {b : Rob} {log : List Effect} {after : Rob} → Reaches b log after → Type 0
FreshIds start = Unit
FreshIds (by_top_down {b1 = b1} run peeked id accepted) = FreshIds run × (b1.table id ≡ none)
FreshIds (by_parse_bottom run peeked) = FreshIds run
FreshIds (by_bottom_up run accepted) = FreshIds run

ListedAfter : Bool × Rob × List Effect → Type 0
ListedAfter result = IsListed (result.1)

reached-IsListed :
    (b : Rob) {log : List Effect} {after : Rob} (run : Reaches b log after)
    → FreshIds run
    → IsSound b
    → IsListed b
    → IsListed after
unfolding ListedAfter FreshIds
reached-IsListed b start ids sound listed = listed
reached-IsListed b (by_top_down {log} {b1} run peeked id accepted) (ids, new) sound listed =
    let before : IsListed b1 = reached-IsListed b run ids sound listed in
    elim (top_down-cases b1 peeked id accepted) [
      | inl idle ↦ subst ListedAfter (sym idle) before
      | inr (req, room, taken) ↦
          subst ListedAfter (sym taken)
            (IsListed-added b1 id req (reached-IsSound b run sound) new before)
    ]
reached-IsListed b (by_parse_bottom {log} {b1} run peeked) ids sound listed =
    let before : IsListed b1 = reached-IsListed b run ids sound listed in
    elim (parse_bottom-cases b1 peeked) [
      | inl idle ↦ subst ListedAfter (sym idle) before
      | inr (inl (rsp, dropped)) ↦ subst ListedAfter (sym dropped) before
      | inr (inr (rsp, elem, trans, at, there, recorded)) ↦
          subst ListedAfter (sym recorded) (IsListed-recorded b1 rsp elem trans there before)
    ]
reached-IsListed b (by_bottom_up {log} {b1} run accepted) ids sound listed =
    let before : IsListed b1 = reached-IsListed b run ids sound listed in
    elim (bottom_up-cases b1 accepted) [
      | inl idle ↦ subst ListedAfter (sym idle) before
      | inr (elem, trans, rest, rsp, first, ready, sent) ↦
          subst ListedAfter (sym sent) (IsListed-deleted b1 elem trans rest first before)
    ]

-- The table gives the number of a transaction that stands under it.
named-element :
    (table : ℕ → Option ℕ) (n : ℕ) (t : Transaction) (xs : List (ℕ × Transaction))
    → AreNamed table xs
    → element n xs ≡ some t
    → table (req_id (t.req_to_bottom)) ≡ some n
unfolding element
named-element table n t [] all e = ground arith
named-element table n t ((k, u) ∷ xs) (first, rest) e = elim (Bool-cases (n == k)) [
  | inl h ↦
      let it : u ≡ t = cc (e, h) in
      ap (λ (t : Transaction). table (req_id (t.req_to_bottom))) (sym it)
      ∙ first
      ∙ ap some (sym ((==_iff n k).0 h))
  | inr h ↦ named-element table n t xs rest (cc (e, h))
]

-- The buffer with the response in the transaction.
abbrev pub with_response : Rob → ℕ → Transaction → AccessRsp → Rob
with_response b n t rsp = record b {
  transactions = set_element n (record t { rsp_from_bottom = some rsp }) (b.transactions);
}

-- From a sound buffer whose table names each of its transactions, over any run of the stages that
-- builds no request with an identifier still in the table: a response from below to the request of
-- any transaction that waits is taken and recorded in that transaction, and in no other; and when the
-- transaction is the oldest one and the port above accepts, the next turn sends that response to the
-- requester of the transaction, under the identifier of its request.
pub reached-answers :
    (b : Rob) {log : List Effect} {after : Rob} (run : Reaches b log after)
    → FreshIds run
    → IsSound b
    → IsListed b
    → (n : ℕ) (t : Transaction) (rsp : AccessRsp) → element n (after.transactions) ≡ some t
    → respond_to rsp ≡ req_id (t.req_to_bottom)
    → (parse_bottom after (some rsp)
        ≡ (true, with_response after n t rsp, retrieve_bottom rsp ∷ []))
      × ((rest : List (ℕ × Transaction))
          → after.transactions ≡ (n, t) ∷ rest
          → ((bottom_up (with_response after n t rsp) true).2
              ≡ send_top (duplicate_rsp rsp (req_id (t.req_from_top)) (req_src (t.req_from_top)))
                ∷ []))
unfolding parse_bottom named_transaction record_response bottom_up answer_front answer set_element
reached-answers b {log} {after} run ids sound listed n t rsp there answers =
    let now : IsListed after = reached-IsListed b run ids sound listed in
    let found : after.table (respond_to rsp) ≡ some n =
      ap (after.table) answers
      ∙ named-element (after.table) n t (after.transactions) (now.named) there in
    let opened : named_transaction after (respond_to rsp) ≡ some (n, t) =
      ap (λ o. o >>= (λ elem. element elem (after.transactions) >>= (λ trans. some (elem, trans))))
        found
      ∙ ap (λ o. o >>= (λ trans. some (n, trans))) there in
    (
      ap (λ o. record_response after rsp o) opened,
      λ rest first.
          let queue : set_element n (record t { rsp_from_bottom = some rsp }) ((n, t) ∷ rest)
              ≡ (n, record t { rsp_from_bottom = some rsp }) ∷ rest =
            rw (==_refl n) refl in
          ap (λ xs. (answer_front (with_response after n t rsp) xs true).2)
            (ap (λ xs. set_element n (record t { rsp_from_bottom = some rsp }) xs) first ∙ queue),
    )
