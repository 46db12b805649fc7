-- ===== src/Rob/Ticks.antt =====
-- Whole ticks of the reorder buffer.
use sampled_mgpu_sim.Prelude.{
  ℕ, zero, suc, ◌≡◌, refl, ◌⊎◌, inl, inr, Bool, true, false, ◌||◌, Option, none, some, List, [],
  ◌∷◌, ◌++◌, arith, Bool-cases,
}
use sampled_mgpu_sim.Prelude.Elements.{element}
use sampled_mgpu_sim.Rob.{
  Rob, Effect, ControlMsg, Held, Turns, repeat_stage, run_pipeline, process_control_msg, tick,
  discard_transactions, restart, send_control, retrieve_control, retrieve_all_top,
  retrieve_all_bottom,
}
use sampled_mgpu_sim.Rob.Log.{
  Reaches, start, by_top_down, by_parse_bottom, by_bottom_up, requested, answered, waiting,
}
use sampled_mgpu_sim.Rob.Order.{answered-in_order}
use sampled_mgpu_sim.Rob.Sound.{IsSound, reached-IsSound}

-- A result that a run from `b` reaches.
Reached : Rob → Bool × Rob × List Effect → Type 0
Reached b result = Reaches b (result.2) (result.1)

repeat_stage-Reached :
    (b : Rob) (stage : ℕ → Rob → Bool × Rob × List Effect)
    → ((n : ℕ) (log : List Effect) (c : Rob)
        → Reaches b log c
        → Reaches b (log ++ (stage n c).2) ((stage n c).1))
    → (n : ℕ) (before : Bool × Rob × List Effect) → Reached b before
    → Reached b (repeat_stage stage n before)
unfolding repeat_stage Reached
repeat_stage-Reached b stage extends zero before run = run
repeat_stage-Reached b stage extends (suc n) before run =
    extends n _ _ (repeat_stage-Reached b stage extends n before run)

run_pipeline-Reached : (turns : Turns) (b : Rob) → Reached b (run_pipeline turns b)
unfolding run_pipeline Reached
run_pipeline-Reached turns b =
    repeat_stage-Reached b _
      (λ n log c run. by_top_down run (turns.top_peeks n) (turns.ids n) (turns.bottom_accepts n)) _
      _
      (repeat_stage-Reached b _ (λ n log c run. by_parse_bottom run (turns.bottom_peeks n)) _ _
        (repeat_stage-Reached b _ (λ n log c run. by_bottom_up run (turns.top_accepts n)) _ _
          (first b)))
  where
    first : (b : Rob) → Reached b (false, b, [])
    first b = start

-- A control message discards or restarts.
abbrev pub IsControl : Option ControlMsg → Type 0
IsControl none = Unit
IsControl (some msg) = (msg.discard_transations || msg.is_restart) ≡ true

-- What the control message makes of the buffer, with whether it was handled and the effects: nothing
-- where there is none or where its answer is not sent.
pub data IsControlled (b : Rob) (held : Held)
    : Option ControlMsg → (accepted : Bool) → Bool × Rob × List Effect → Type 0 where
  no_message : (accepted : Bool) → IsControlled b held none accepted (false, b, [])
  not_sent : (msg : ControlMsg) → IsControlled b held (some msg) false (false, b, [])
  discarded :
      (msg : ControlMsg)
      → msg.discard_transations ≡ true
      → IsControlled b held (some msg) true (
        true,
        record b { is_flushing = true; table = λ id. none; transactions = [] },
        send_control (msg.sender) ∷ retrieve_control msg ∷ [],
      )
  restarted :
      (msg : ControlMsg)
      → msg.discard_transations ≡ false
      → msg.is_restart ≡ true
      → IsControlled b held (some msg) true (
        true,
        record b { is_flushing = false; table = λ id. none; transactions = [] },
        send_control (msg.sender) ∷ retrieve_all_top (held.at_top)
            ++ retrieve_all_bottom (held.at_bottom)
            ++ (retrieve_control msg ∷ []),
      )

-- What a tick gives, where the control message has given `c`.
abbrev pub IsTicked : Bool × Rob × List Effect → Bool × Rob × List Effect → Type 0
IsTicked c result =
    IsSound (result.1)
    × (((c.1.is_flushing ≡ true) × (result ≡ c))
        ⊎ ((c.1.is_flushing ≡ false)
            × (c.0 ≡ true → result.0 ≡ true)
            × (more : List Effect) × (result.2 ≡ c.2 ++ more)
            × (answered more ++ waiting (result.1.transactions)
                ≡ waiting (c.1.transactions) ++ requested more)))

module _ (b : Rob) (sound : IsSound b) where
  emptied-IsSound :
      (flushing : Bool)
      → IsSound (record b { is_flushing = flushing; table = λ id. none; transactions = [] })
  unfolding element
  emptied-IsSound flushing = record {
    within = omega arith;
    unused = λ n h. refl;
    named = λ id n e. ground arith;
    matched = tt;
  }

  -- The control message is handled without a panic and leaves the buffer sound.
  Controlled : Held → Option ControlMsg → Bool → Type 0
  Controlled held control accepted =
      (c : Bool × Rob × List Effect) × (process_control_msg b held control accepted ≡ some c)
      × IsControlled b held control accepted c
      × IsSound (c.1)

  process_control_msg-Controlled :
      (held : Held) (control : Option ControlMsg) (accepted : Bool)
      → IsControl control
      → Controlled held control accepted
  unfolding process_control_msg discard_transactions restart Controlled
  process_control_msg-Controlled held none accepted h =
      ((false, b, []), refl, no_message accepted, sound)
  process_control_msg-Controlled held (some msg) false h = (
    (false, b, []),
    elim (Bool-cases (msg.discard_transations)) [
      | inl d ↦ rw d refl
      | inr d ↦ let r : msg.is_restart ≡ true = cc (d, h) in rw d (rw r refl)
    ],
    not_sent msg,
    sound,
  )
  process_control_msg-Controlled held (some msg) true h =
      elim (Bool-cases (msg.discard_transations)) [
        | inl d ↦ (_, rw d refl, discarded msg d, emptied-IsSound true)
        | inr d ↦
            let r : msg.is_restart ≡ true = cc (d, h) in
            (_, rw d (rw r refl), restarted msg d r, emptied-IsSound false)
      ]

-- A tick of a sound buffer, with a control message that discards or restarts or with none, ends
-- without a panic. With no message, or where the answer to it is not sent, the buffer stays as it
-- is and has no effects up to here. A message to discard is answered and then retrieved; the buffer
-- has no transactions then and is flushing. A restart is answered, all that the ports at the top
-- and the bottom hold is retrieved, then the message; the buffer has no transactions and is not
-- flushing. In a buffer that is flushing then, the tick does nothing more. Otherwise further
-- effects follow: what they answer, followed by what waits after the tick, is what waited before
-- them, followed by what they take, in the same order; so after a restart they answer only requests
-- that they take themselves. A tick that handles a message reports progress. The buffer after the
-- tick is sound: within its size, each identifier of the table names the transaction with that
-- request, and each response stands with the request that it answers.
pub tick-IsTicked :
    (control : Option ControlMsg) (accepted : Bool) (held : Held) (turns : Turns) (b : Rob)
    → IsControl control
    → IsSound b
    → (c : Bool × Rob × List Effect) × (result : Bool × Rob × List Effect) × (tick control accepted
          held turns b
        ≡ some result)
      × IsControlled b held control accepted c
      × IsTicked c result
unfolding tick Reached Controlled
tick-IsTicked control accepted held turns b h sound =
    let (c, e, controlled, sound1) =
      process_control_msg-Controlled b sound held control accepted h in
    let run = run_pipeline-Reached turns (c.1) in
    elim (Bool-cases (c.1.is_flushing)) [
      | inl f ↦ (c, c, rw e (rw f refl), controlled, (sound1, inl (f, refl)))
      | inr f ↦ (
        c,
        (
          (run_pipeline turns (c.1)).0 || (c.0),
          (run_pipeline turns (c.1)).1,
          (c.2) ++ (run_pipeline turns (c.1)).2,
        ),
        rw e (rw f refl),
        controlled,
        (
          reached-IsSound (c.1) run sound1,
          inr (
            f,
            λ t. rw t (either_true ((run_pipeline turns (c.1)).0)),
            (run_pipeline turns (c.1)).2,
            refl,
            answered-in_order (c.1) run,
          ),
        ),
      )
    ]
  where
    either_true : (made : Bool) → (made || true) ≡ true
    either_true true = refl
    either_true false = refl
