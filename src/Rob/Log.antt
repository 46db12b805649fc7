-- ===== src/Rob/Log.antt =====
-- The runs of the reorder buffer between two flushes, and what a run has requested and answered.
use sampled_mgpu_sim.Prelude.{ℕ, ◌≡◌, refl, ap, Bool, Option, List, [], ◌∷◌, ◌++◌}
use sampled_mgpu_sim.Rob.{
  AccessReq, AccessRsp, Transaction, Rob, Effect, retrieve_top, retrieve_bottom, retrieve_control,
  send_top, send_bottom, send_control, req_id, respond_to, top_down, parse_bottom, bottom_up,
}

-- The effects of any sequence of the three stages, whatever the ports show and accept. A tick is
-- such a sequence: each stage a number of times.
pub data Reaches (b : Rob) : List Effect → Rob → Type 0 where
  start : Reaches b [] b
  by_top_down :
      {log : List Effect} {b1 : Rob}
      → Reaches b log b1
      → (peeked : Option AccessReq) (id : ℕ) (accepted : Bool)
      → Reaches b (log ++ (top_down b1 peeked id accepted).2) ((top_down b1 peeked id accepted).1)
  by_parse_bottom :
      {log : List Effect} {b1 : Rob}
      → Reaches b log b1
      → (peeked : Option AccessRsp)
      → Reaches b (log ++ (parse_bottom b1 peeked).2) ((parse_bottom b1 peeked).1)
  by_bottom_up :
      {log : List Effect} {b1 : Rob}
      → Reaches b log b1
      → (accepted : Bool) → Reaches b (log ++ (bottom_up b1 accepted).2) ((bottom_up b1 accepted).1)

-- The identifiers of the requests that were taken, and of those that were answered.
unfoldable pub requested : List Effect → List ℕ
requested [] = []
requested (retrieve_top req ∷ log) = req_id req ∷ requested log
requested (retrieve_bottom rsp ∷ log) = requested log
requested (send_top rsp ∷ log) = requested log
requested (send_bottom req ∷ log) = requested log
requested (retrieve_control msg ∷ log) = requested log
requested (send_control dst ∷ log) = requested log

unfoldable pub answered : List Effect → List ℕ
answered [] = []
answered (send_top rsp ∷ log) = respond_to rsp ∷ answered log
answered (retrieve_top req ∷ log) = answered log
answered (retrieve_bottom rsp ∷ log) = answered log
answered (send_bottom req ∷ log) = answered log
answered (retrieve_control msg ∷ log) = answered log
answered (send_control dst ∷ log) = answered log

abbrev pub waiting : List (ℕ × Transaction) → List ℕ
waiting [] = []
waiting ((elem, trans) ∷ rest) = req_id (trans.req_from_top) ∷ waiting rest

pub requested-append :
    (log more : List Effect) → requested (log ++ more) ≡ requested log ++ requested more
unfolding requested
requested-append [] more = refl
requested-append (retrieve_top req ∷ log) more =
    ap (λ ids. req_id req ∷ ids) (requested-append log more)
requested-append (retrieve_bottom rsp ∷ log) more = requested-append log more
requested-append (send_top rsp ∷ log) more = requested-append log more
requested-append (send_bottom req ∷ log) more = requested-append log more
requested-append (retrieve_control msg ∷ log) more = requested-append log more
requested-append (send_control dst ∷ log) more = requested-append log more

pub answered-append :
    (log more : List Effect) → answered (log ++ more) ≡ answered log ++ answered more
unfolding answered
answered-append [] more = refl
answered-append (send_top rsp ∷ log) more =
    ap (λ ids. respond_to rsp ∷ ids) (answered-append log more)
answered-append (retrieve_top req ∷ log) more = answered-append log more
answered-append (retrieve_bottom rsp ∷ log) more = answered-append log more
answered-append (send_bottom req ∷ log) more = answered-append log more
answered-append (retrieve_control msg ∷ log) more = answered-append log more
answered-append (send_control dst ∷ log) more = answered-append log more

pub waiting-append :
    (xs ys : List (ℕ × Transaction)) → waiting (xs ++ ys) ≡ waiting xs ++ waiting ys
waiting-append [] ys = refl
waiting-append ((n, t) ∷ xs) ys = ap (λ ids. req_id (t.req_from_top) ∷ ids) (waiting-append xs ys)
