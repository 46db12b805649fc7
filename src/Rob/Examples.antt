-- ===== src/Rob/Examples.antt =====
-- Each theorem at one input, and a test of the reorder buffer.
use sampled_mgpu_sim.Prelude.{
  ℕ, ◌+◌, ◌≡◌, refl, Bool, true, false, none, some, List, [], ◌∷◌, ◌++◌, arith,
}
use sampled_mgpu_sim.Rob.{
  AccessReq, Rob, Effect, Turns, ControlMsg, Held, Transaction, read_req, data_ready, top_down,
  parse_bottom, bottom_up, tick, add_transaction, create_transaction, duplicate_req, duplicate_rsp,
  req_id, req_src, respond_to, send_top, retrieve_bottom,
}
use sampled_mgpu_sim.Rob.Live.{FreshIds, with_response, reached-answers}
use sampled_mgpu_sim.Prelude.Elements.{element}
use sampled_mgpu_sim.Rob.Log.{
  Reaches, start, by_top_down, by_parse_bottom, requested, answered, waiting,
}
use sampled_mgpu_sim.Rob.Order.{answered-in_order}
use sampled_mgpu_sim.Rob.Sound.{IsSound, reached-IsSound}
use sampled_mgpu_sim.Rob.Ticks.{IsControlled, IsTicked, tick-IsTicked}

abbrev empty : Rob
empty = record {
  buffer_size = 2;
  num_req_per_cycle = 2;
  bottom_port = 7;
  table = λ id. none;
  transactions = [];
  fresh = 0;
  is_flushing = false;
}

empty-IsSound : IsSound empty
unfolding element
empty-IsSound = record {
  within = omega arith;
  unused = λ n h. refl;
  named = λ id n e. ground arith;
  matched = tt;
}

abbrev request : ℕ → AccessReq
request id = read_req id 3 0x1000 64 1

-- Two requests are taken, and the second one is answered first from below.
abbrev both : Rob
both = (top_down ((top_down empty (some (request 10)) 20 true).1) (some (request 11)) 21 true).1

abbrev later_answered : Rob
later_answered = (parse_bottom both (some (data_ready 21 7 []))).1

abbrev both_taken :
    Reaches empty
      ([]
        ++ (top_down empty (some (request 10)) 20 true).2
        ++ (top_down
            ((top_down empty (some (request 10)) 20 true).1)
            (some (request 11))
            21
            true).2)
      both
both_taken = by_top_down (by_top_down start (some (request 10)) 20 true) (some (request 11)) 21 true

answered-in_order_example :
    answered (
        []
        ++ (top_down empty (some (request 10)) 20 true).2
        ++ (top_down ((top_down empty (some (request 10)) 20 true).1) (some (request 11)) 21 true).2
        ++ (parse_bottom both (some (data_ready 21 7 []))).2)
      ++ waiting (later_answered.transactions)
    ≡ []
      ++ requested (
          []
          ++ (top_down empty (some (request 10)) 20 true).2
          ++ (top_down
              ((top_down empty (some (request 10)) 20 true).1)
              (some (request 11))
              21
              true).2
          ++ (parse_bottom both (some (data_ready 21 7 []))).2)
answered-in_order_example =
    answered-in_order empty (by_parse_bottom both_taken (some (data_ready 21 7 [])))

reached-IsSound_example : IsSound later_answered
reached-IsSound_example =
    reached-IsSound empty (by_parse_bottom both_taken (some (data_ready 21 7 []))) empty-IsSound

abbrev turns : Turns
turns = record {
  top_accepts = λ i. true;
  bottom_peeks = λ i. none;
  top_peeks = λ i. some (request (10 + i));
  ids = λ i. 20 + i;
  bottom_accepts = λ i. true;
}

-- A restart, with a request at the top port that is retrieved and never answered.
abbrev restart_msg : ControlMsg
restart_msg = record { sender = 9; discard_transations = false; is_restart = true }

abbrev held : Held
held = record { at_top = request 5 ∷ []; at_bottom = [] }

tick-IsTicked_example :
    (c : Bool × Rob × List Effect) × (result : Bool × Rob × List Effect) × (tick
        (some restart_msg)
        true
        held
        turns
        empty
      ≡ some result)
    × IsControlled empty held (some restart_msg) true c
    × IsTicked c result
tick-IsTicked_example = tick-IsTicked (some restart_msg) true held turns empty refl empty-IsSound

-- The identifiers of both requests are new, and the older one is answered from below.
both-FreshIds : FreshIds both_taken
unfolding FreshIds top_down add_transaction create_transaction duplicate_req
both-FreshIds = ((tt, refl), refl)

older : Transaction
older = create_transaction empty 20 (request 10)

older_waits : element 0 (both.transactions) ≡ some older
unfolding element top_down add_transaction create_transaction duplicate_req older
older_waits = refl

older_asked : respond_to (data_ready 20 7 []) ≡ req_id (older.req_to_bottom)
unfolding older create_transaction duplicate_req
older_asked = refl

reached-answers_example :
    (parse_bottom both (some (data_ready 20 7 [])) ≡ (
      true,
      with_response both 0 older (data_ready 20 7 []),
      retrieve_bottom (data_ready 20 7 []) ∷ [],
    ))
    × ((rest : List (ℕ × Transaction))
        → both.transactions ≡ (0, older) ∷ rest
        → ((bottom_up (with_response both 0 older (data_ready 20 7 [])) true).2
            ≡ send_top (
                duplicate_rsp
                  (data_ready 20 7 [])
                  (req_id (older.req_from_top))
                  (req_src (older.req_from_top)))
              ∷ []))
reached-answers_example =
    reached-answers empty both_taken both-FreshIds empty-IsSound
      (record { named = tt; distinct = tt }) 0 older (data_ready 20 7 []) older_waits older_asked
