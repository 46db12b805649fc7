-- ===== src/TimeQueue/Examples.antt =====
-- A queue of two times.
use sampled_mgpu_sim.Prelude.{ℕ, ◌≡◌, refl, [], ◌∷◌, Bool, some, ltb}
use sampled_mgpu_sim.TimeQueue.{FixedNumQueue, insert, push, pop}

abbrev later : ℕ → ℕ → Bool
later a b = ltb b a

abbrev queue : FixedNumQueue ℕ
queue = record { l = 3 ∷ 8 ∷ []; queue_cap = 2 }

push_run : push later 5 queue ≡ some (record { l = 5 ∷ 8 ∷ []; queue_cap = 2 })
unfolding push insert pop
push_run = refl
