-- ===== src/TimeQueue/Order.antt =====
-- The order of the queue, and what it forgets when it is full.
use sampled_mgpu_sim.Prelude.{◌≤◌, ◌≡◌, ◌⊎◌, List, [], ◌∷◌, ◌++◌, Bool, true, false, All, length}
use sampled_mgpu_sim.TimeQueue.{FixedNumQueue}

-- What the code relies on in the comparison of times: it is a strict order, and "not later" is
-- transitive.
pub record IsOrder {E : Type 0} (later : E → E → Bool) : Type 0 where
  pub asymmetric : (x y : E) → later x y ≡ true → later y x ≡ false
  pub transitive : (x y z : E) → later x y ≡ false → later y z ≡ false → later x z ≡ false

-- A capacity of 0 is no bound.
abbrev pub IsWithin : {E : Type 0} → FixedNumQueue E → Type 0
IsWithin q = (q.queue_cap ≡ 0) ⊎ (length q.l ≤ q.queue_cap)

module _ {E : Type 0} (later : E → E → Bool) where
  abbrev pub IsSorted : List E → Type 0
  IsSorted [] = Unit
  IsSorted (x ∷ xs) = All (λ y. later x y ≡ false) xs × IsSorted xs

  -- Where `insert` puts an element: behind all that are not later, also behind those of the same
  -- time, and before all that are later.
  pub record Placed (e : E) (xs ys : List E) : Type 0 where
    pub before : List E
    pub after : List E
    pub split : xs ≡ before ++ after
    pub result : ys ≡ before ++ e ∷ after
    pub not_later : All (λ x. later x e ≡ false) before
    pub later_all : All (λ x. later x e ≡ true) after

  -- What `Push` leaves: the queue with the new element in its place, or, where that is one more
  -- than the capacity, this queue without its first element.
  abbrev pub Pushed : E → FixedNumQueue E → FixedNumQueue E → Type 0
  Pushed e q q' =
      (ys : List E) × Placed e q.l ys
      × ((q'.l ≡ ys)
          ⊎ ((x : E) × (ys ≡ x ∷ q'.l)
              × (length q'.l ≡ q.queue_cap)
              × All (λ y. later x y ≡ false) q'.l))
