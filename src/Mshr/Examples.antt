-- ===== src/Mshr/Examples.antt =====
-- Registers for two misses, over natural numbers as times.
use sampled_mgpu_sim.Prelude.{
  ℕ, ◌+◌, ◌≡◌, refl, some, [], ◌∷◌, ◌==◌, length, ltb, if◌then◌else◌, arith,
}
use sampled_mgpu_sim.Mshr.{Times, MshrEntry, Mshr, add, query, query_entries, remove, matches}
use sampled_mgpu_sim.Mshr.Earliest.{IsTimes, IsSound, remove-IsSound, remove-add}

-- A time, or 0 for the time that never comes.
abbrev least : ℕ → ℕ → ℕ
least a b = if a == 0 then b else if b == 0 then a else if ltb b a then b else a

abbrev times : Times ℕ
times = record { min_time = least; max_time = 0; same_time = ◌==◌ }

times-IsTimes : IsTimes times
times-IsTimes = record {
  min_comm = λ a b. ground arith;
  min_assoc = λ a b c. ground arith;
  min_max = λ a. ground arith;
  min_or = λ a b. ground arith;
  same_refl = λ a. ground arith;
}

abbrev waiting : MshrEntry ℕ
waiting = record { pid = 1; address = 64; expected_time = 7; issue_time = 2 }

abbrev registers : Mshr ℕ
registers = record { capacity = 2; entries = waiting ∷ []; available_time = 7 }

registers-IsSound : IsSound times times-IsTimes registers
registers-IsSound = record { available = refl; room = omega arith }

remove-IsSound_example :
    (m' : Mshr ℕ) × (remove times registers 1 64 ≡ some (waiting, m'))
    × IsSound times times-IsTimes m'
    × (length m'.entries + 1 ≡ 1)
unfolding query query_entries matches
remove-IsSound_example = remove-IsSound times times-IsTimes registers 1 64 registers-IsSound refl

remove-add_example :
    (e : MshrEntry ℕ) × (m' : Mshr ℕ) × (add times registers 1 128 3 5 ≡ some (e, m'))
    × IsSound times times-IsTimes m'
    × (query m' 1 128 ≡ some e)
    × (remove times m' 1 128 ≡ some (e, registers))
unfolding query query_entries matches
remove-add_example =
    remove-add times times-IsTimes registers 1 128 3 5 registers-IsSound refl (omega arith)
