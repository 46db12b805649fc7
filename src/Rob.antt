-- ===== src/Rob.antt =====
-- The reorder buffer (timing/rob/rob.go). The ports and the identifiers are another repository's: what
-- `Peek` returns, whether `Send` takes the message, and the identifier of a built request are
-- arguments, and what an operation sends and retrieves is the list of its effects.
mod Stages
mod Log
mod Sound
mod Order
mod Ticks
mod Pending
mod Live
mod Examples
use sampled_mgpu_sim.Prelude.{
  ℕ, zero, suc, ◌+◌, ◌-◌, ◌*◌, ◌/◌, ◌%◌, ◌^◌, ◌≤◌, ◌<◌, min, max, ◌≡◌, refl, sym, ap, ap₂, subst,
  ◌≢◌, ◌↔◌, ◌⊎◌, inl, inr, Bool, true, false, not, ◌&&◌, ◌||◌, Option, none, some, List, [], ◌∷◌,
  ◌++◌, map, arith, ltb, leb, ◌==◌, if◌then◌else◌, Bool-cases, Option-cases, ltb→lt, ltb-false,
  lt→ltb, le→leb, leb→le, ==_iff, ==_refl, ◌>>=◌, length, get_elem?, set, All,
}
use sampled_mgpu_sim.Prelude.Elements.{put, element, set_element, remove_element}

-- The messages by the fields that the code reads and copies; the destination of a copied request is
-- always the bottom unit.
pub data AccessReq : Type 0 where
  read_req : (id src address byte_size pid : ℕ) → AccessReq
  write_req :
      (id src address pid : ℕ) → (data_bytes : List ℕ) → (dirty_mask : List Bool) → AccessReq

pub data AccessRsp : Type 0 where
  data_ready : (respond_to dst : ℕ) → (data_bytes : List ℕ) → AccessRsp
  write_done : (respond_to dst : ℕ) → AccessRsp

abbrev pub req_id : AccessReq → ℕ
req_id (read_req id src address byte_size pid) = id
req_id (write_req id src address pid data_bytes dirty_mask) = id

abbrev pub req_src : AccessReq → ℕ
req_src (read_req id src address byte_size pid) = src
req_src (write_req id src address pid data_bytes dirty_mask) = src

abbrev pub respond_to : AccessRsp → ℕ
respond_to (data_ready to dst data_bytes) = to
respond_to (write_done to dst) = to

pub record Transaction : Type 0 where
  pub req_from_top : AccessReq
  pub req_to_bottom : AccessReq
  pub rsp_from_bottom : Option AccessRsp

-- `fresh` is the number of the next list element; `bottom_port` is the port that requests are sent from.
pub record Rob : Type 0 where
  pub buffer_size : ℕ
  pub num_req_per_cycle : ℕ
  pub bottom_port : ℕ
  pub table : ℕ → Option ℕ
  pub transactions : List (ℕ × Transaction)
  pub fresh : ℕ
  pub is_flushing : Bool

-- A control message, by its sender and the two flags that the code reads.
pub record ControlMsg : Type 0 where
  pub sender : ℕ
  pub discard_transations : Bool
  pub is_restart : Bool

pub data Effect : Type 0 where
  retrieve_top : AccessReq → Effect
  retrieve_bottom : AccessRsp → Effect
  retrieve_control : ControlMsg → Effect
  send_top : AccessRsp → Effect
  send_bottom : AccessReq → Effect
  send_control : (dst : ℕ) → Effect

abbrev pub is_full : Rob → Bool
is_full b = leb (b.buffer_size) (length (b.transactions))

-- The copy of a request, under its new identifier and from the bottom port.
unfoldable pub duplicate_req : (id src : ℕ) → AccessReq → AccessReq
duplicate_req id src (read_req top_id top_src address byte_size pid) =
    read_req id src address byte_size pid
duplicate_req id src (write_req top_id top_src address pid data_bytes dirty_mask) =
    write_req id src address pid data_bytes dirty_mask

-- The copy of a response, to the requester of the request that it answers.
unfoldable pub duplicate_rsp : AccessRsp → (rsp_to dst : ℕ) → AccessRsp
duplicate_rsp (data_ready to bottom_dst data_bytes) rsp_to dst = data_ready rsp_to dst data_bytes
duplicate_rsp (write_done to bottom_dst) rsp_to dst = write_done rsp_to dst

unfoldable pub create_transaction : Rob → ℕ → AccessReq → Transaction
create_transaction b id req = record {
  req_from_top = req;
  req_to_bottom = duplicate_req id (b.bottom_port) req;
  rsp_from_bottom = none;
}

unfoldable pub add_transaction : Rob → Transaction → Rob
add_transaction b trans = record b {
  transactions = b.transactions ++ ((b.fresh, trans) ∷ []);
  table = put b.table (req_id trans.req_to_bottom) (some b.fresh);
  fresh = suc (b.fresh);
}

unfoldable pub delete_transaction : Rob → ℕ → Transaction → Rob
delete_transaction b elem trans = record b {
  transactions = remove_element elem (b.transactions);
  table = put (b.table) (req_id (trans.req_to_bottom)) none;
}

-- Whether progress was made, the buffer after it, and the effects in order.
unfoldable pub top_down :
    Rob → (peeked : Option AccessReq) → (id : ℕ) → (accepted : Bool) → Bool × Rob × List Effect
top_down b peeked id accepted = if is_full b then (false, b, []) else elim peeked [
  | none ↦ (false, b, [])
  | some req ↦
      let trans = create_transaction b id req in
      if accepted
      then (
        true,
        add_transaction b trans,
        send_bottom (trans.req_to_bottom) ∷ retrieve_top req ∷ [],
      )
      else (false, b, [])
]

-- The transaction that the table names for an identifier, wherever it stands.
unfoldable pub named_transaction : Rob → ℕ → Option (ℕ × Transaction)
named_transaction b id = do
  elem ← b.table id
  trans ← element elem (b.transactions)
  some (elem, trans)

unfoldable pub record_response :
    Rob → AccessRsp → Option (ℕ × Transaction) → Bool × Rob × List Effect
record_response b rsp none = (true, b, retrieve_bottom rsp ∷ [])
record_response b rsp (some (elem, trans)) = (
  true,
  record b {
    transactions = set_element elem (record trans { rsp_from_bottom = some rsp }) (b.transactions);
  },
  retrieve_bottom rsp ∷ [],
)

unfoldable pub parse_bottom : Rob → (peeked : Option AccessRsp) → Bool × Rob × List Effect
parse_bottom b none = (false, b, [])
parse_bottom b (some rsp) = record_response b rsp (named_transaction b (respond_to rsp))

-- The first transaction, and the response that it has from the bottom.
unfoldable pub answer :
    Rob → ℕ → Transaction → Option AccessRsp → (accepted : Bool) → Bool × Rob × List Effect
answer b elem trans none accepted = (false, b, [])
answer b elem trans (some from_bottom) accepted =
    let rsp =
      duplicate_rsp from_bottom (req_id (trans.req_from_top)) (req_src (trans.req_from_top)) in
    if accepted then (true, delete_transaction b elem trans, send_top rsp ∷ []) else (false, b, [])

unfoldable pub answer_front :
    Rob → List (ℕ × Transaction) → (accepted : Bool) → Bool × Rob × List Effect
answer_front b [] accepted = (false, b, [])
answer_front b ((elem, trans) ∷ rest) accepted =
    answer b elem trans (trans.rsp_from_bottom) accepted

unfoldable pub bottom_up : Rob → (accepted : Bool) → Bool × Rob × List Effect
bottom_up b accepted = answer_front b (b.transactions) accepted

-- `accepted` is whether the control port takes the answer, which goes out first; the control message
-- is retrieved last.
unfoldable pub discard_transactions :
    Rob → ControlMsg → (accepted : Bool) → Bool × Rob × List Effect
discard_transactions b msg accepted =
    if accepted
    then (
      true,
      record b { is_flushing = true; table = λ id. none; transactions = [] },
      send_control (msg.sender) ∷ retrieve_control msg ∷ [],
    )
    else (false, b, [])

-- The messages that the other two ports hold, which `restart` retrieves until there is none left.
pub record Held : Type 0 where
  pub at_top : List AccessReq
  pub at_bottom : List AccessRsp

abbrev pub retrieve_all_top : List AccessReq → List Effect
retrieve_all_top [] = []
retrieve_all_top (req ∷ reqs) = retrieve_top req ∷ retrieve_all_top reqs

abbrev pub retrieve_all_bottom : List AccessRsp → List Effect
retrieve_all_bottom [] = []
retrieve_all_bottom (rsp ∷ rsps) = retrieve_bottom rsp ∷ retrieve_all_bottom rsps

unfoldable pub restart : Rob → Held → ControlMsg → (accepted : Bool) → Bool × Rob × List Effect
restart b held msg accepted =
    if accepted
    then (
      true,
      record b { is_flushing = false; table = λ id. none; transactions = [] },
      send_control (msg.sender) ∷ retrieve_all_top (held.at_top)
          ++ retrieve_all_bottom (held.at_bottom)
          ++ (retrieve_control msg ∷ []),
    )
    else (false, b, [])

-- `none` is `panic("never")`.
unfoldable pub process_control_msg :
    Rob
    → Held
    → (peeked : Option ControlMsg) → (accepted : Bool) → Option (Bool × Rob × List Effect)
process_control_msg b held none accepted = some (false, b, [])
process_control_msg b held (some msg) accepted =
    if msg.discard_transations
    then some (discard_transactions b msg accepted)
    else if msg.is_restart
    then some (restart b held msg accepted)
    else none

-- What the ports show and accept in each turn of the three loops of `runPipeline`.
pub record Turns : Type 0 where
  pub top_accepts : ℕ → Bool
  pub bottom_peeks : ℕ → Option AccessRsp
  pub top_peeks : ℕ → Option AccessReq
  pub ids : ℕ → ℕ
  pub bottom_accepts : ℕ → Bool

-- A loop over a stage, with the progress so far.
unfoldable pub repeat_stage :
    (ℕ → Rob → Bool × Rob × List Effect) → ℕ → Bool × Rob × List Effect → Bool × Rob × List Effect
repeat_stage stage zero before = before
repeat_stage stage (suc n) before =
    let (progress, b, effects) = repeat_stage stage n before in
    let (made, b1, more) = stage n b in (made || progress, b1, effects ++ more)

unfoldable pub run_pipeline : Turns → Rob → Bool × Rob × List Effect
run_pipeline turns b =
    let n = b.num_req_per_cycle in
    let up = repeat_stage (λ i c. bottom_up c (turns.top_accepts i)) n (false, b, []) in
    let parsed = repeat_stage (λ i c. parse_bottom c (turns.bottom_peeks i)) n up in
    repeat_stage (λ i c. top_down c (turns.top_peeks i) (turns.ids i) (turns.bottom_accepts i)) n
      parsed

unfoldable pub tick :
    (control : Option ControlMsg) (accepted : Bool)
    → Held
    → Turns
    → Rob
    → Option (Bool × Rob × List Effect)
tick control accepted held turns b = do
  (handled, b1, effects) ← process_control_msg b held control accepted
  let (made, b2, more) = run_pipeline turns b1
  some (if b1.is_flushing then (handled, b1, effects) else (made || handled, b2, effects ++ more))
