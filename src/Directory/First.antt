-- ===== src/Directory/First.antt =====
-- The victim finder returns the first block of the queue that it may take.
use sampled_mgpu_sim.Prelude.{
  ℕ, ◌≤◌, ◌<◌, ◌≡◌, refl, ap, ◌⊎◌, inl, inr, Bool, true, false, none, some, List, [], ◌∷◌, ◌++◌,
  Bool-cases, length, get_elem?, All,
}
use sampled_mgpu_sim.Prelude.{get_elem?-some}
use sampled_mgpu_sim.Directory.{
  Block, DirectorySet, first_way, is_empty, is_unlocked, find_lru_victim,
}

-- The block of a way, and that it takes a test or not.
abbrev pub Passes : (Block → Bool) → List Block → ℕ → Type 0
Passes test blocks way = (b : Block) × (get_elem? blocks way ≡ some b) × (test b ≡ true)

abbrev pub Fails : (Block → Bool) → List Block → ℕ → Type 0
Fails test blocks way = (b : Block) × (get_elem? blocks way ≡ some b) × (test b ≡ false)

-- The first way of the queue that takes the test.
abbrev pub IsFirst : (Block → Bool) → List Block → (queue : List ℕ) → ℕ → Type 0
IsFirst test blocks queue way =
    (before : List ℕ) × (after : List ℕ) × (queue ≡ before ++ way ∷ after)
    × All (Fails test blocks) before
    × Passes test blocks way

first_way-IsFirst :
    (test : Block → Bool) (blocks : List Block) (queue : List ℕ)
    → All (λ way. way < length blocks) queue
    → ((first_way test blocks queue ≡ some none) × All (Fails test blocks) queue)
      ⊎ ((way : ℕ) × (first_way test blocks queue ≡ some (some way))
          × IsFirst test blocks queue way)
unfolding first_way
first_way-IsFirst test blocks [] h = inl (refl, tt)
first_way-IsFirst test blocks (way ∷ queue) (within, h) =
    let (b, found) = get_elem?-some blocks way within in
    elim (Bool-cases (test b)) [
      | inl e ↦ inr (way, rw (found, e) refl, ([], queue, refl, tt, (b, found, e)))
      | inr e ↦ elim (first_way-IsFirst test blocks queue h) [
        | inl (missed, all) ↦ inl (rw (found, e) missed, ((b, found, e), all))
        | inr (w, taken, (before, after, split, all, passes)) ↦ inr (
          w,
          rw (found, e) taken,
          (way ∷ before, after, ap (λ xs. way ∷ xs) split, ((b, found, e), all), passes),
        )
      ]
    ]

-- The first block that is neither valid nor locked; without one, the first that is not locked;
-- without one, the first.
abbrev pub IsVictim : List Block → (order : List ℕ) → ℕ → Type 0
IsVictim blocks order way =
    IsFirst is_empty blocks order way
    ⊎ (All (Fails is_empty blocks) order × IsFirst is_unlocked blocks order way)
    ⊎ (All (Fails is_unlocked blocks) order × (get_elem? order 0 ≡ some way))

pub find_lru_victim-IsVictim :
    (stored : DirectorySet)
    → All (λ way. way < length (stored.blocks)) (stored.lru_queue)
    → 1 ≤ length (stored.lru_queue)
    → (way : ℕ) × (find_lru_victim stored ≡ some way)
      × IsVictim (stored.blocks) (stored.lru_queue) way
unfolding find_lru_victim
find_lru_victim-IsVictim stored within some_way =
    elim (first_way-IsFirst is_empty (stored.blocks) (stored.lru_queue) within) [
      | inr (way, e, first) ↦ (way, rw e refl, inl first)
      | inl (e, full) ↦
          elim (first_way-IsFirst is_unlocked (stored.blocks) (stored.lru_queue) within) [
            | inr (way, e2, first) ↦ (way, rw (e, e2) refl, inr (inl (full, first)))
            | inl (e2, locked) ↦
                let (way, front) = get_elem?-some (stored.lru_queue) 0 some_way in
                (way, rw (e, e2) front, inr (inr (locked, front)))
          ]
    ]
