-- ===== src/TimeQueue.antt =====
-- virtualdevice/timequeue.go: a queue of a fixed number of elements, ordered by their times. The
-- comparison `>` of times, which are floating-point numbers, is a parameter.
pub mod Order
mod Examples
use sampled_mgpu_sim.Prelude.{
  ℕ, Option, none, some, List, [], ◌∷◌, Bool, true, false, length, ltb, ◌==◌, not, ◌&&◌,
  if◌then◌else◌,
}

pub record FixedNumQueue (E : Type 0) : Type 0 where
  pub l : List E
  pub queue_cap : ℕ

module _ {E : Type 0} where
  -- `Remove` of a nil front panics.
  unfoldable pub pop : FixedNumQueue E → Option (E × FixedNumQueue E)
  pop q = elim q.l [ [] ↦ none | e ∷ es ↦ some (e, record q { l = es }) ]

  unfoldable pub peek : FixedNumQueue E → Option E
  peek q = elim q.l [ [] ↦ none | e ∷ es ↦ some e ]

  module _ (later : E → E → Bool) where
    -- The loop of `Push` and its insertion: before the first element with a later time, or at the
    -- end.
    unfoldable pub insert : E → List E → List E
    insert e [] = e ∷ []
    insert e (x ∷ xs) = let rest = insert e xs in if later x e then e ∷ x ∷ xs else x ∷ rest

    unfoldable pub push : E → FixedNumQueue E → Option (FixedNumQueue E)
    push e q =
        let inserted = record q { l = insert e q.l } in
        if not (q.queue_cap == 0) && ltb q.queue_cap (length inserted.l)
        then elim (pop inserted) [ none ↦ none | some popped ↦ some popped.1 ]
        else some inserted
