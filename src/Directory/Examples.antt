-- ===== src/Directory/Examples.antt =====
-- The theorem at one input, and tests of the directory.
use sampled_mgpu_sim.Prelude.{
  ℕ, ◌*◌, ◌≡◌, refl, Bool, true, false, Option, some, [], ◌∷◌, ◌++◌, arith, ◌>>=◌,
}
use sampled_mgpu_sim.Directory.{
  Block, DirectorySet, Directory, get_set, find_victim, visit, visit_queue, remove_way,
  new_directory, reset_directory, fill_sets, fill_set, new_block, lookup, lookup_block, is_hit,
  first_way, find_lru_victim,
}
use sampled_mgpu_sim.Directory.Recency.{unvisited, last_visits}
use sampled_mgpu_sim.Directory.First.{IsVictim}
use sampled_mgpu_sim.Directory.Victim.{visits, find_victim-IsVictim}

-- A block with data in it, in the first set of a directory of one set.
abbrev line : ℕ → ℕ → Bool → Block
line way tag locked = record {
  pid = 1;
  tag = tag;
  way_id = way;
  set_id = 0;
  cache_address = way * 64;
  is_valid = true;
  is_locked = locked;
}

abbrev lines : DirectorySet
lines = record {
  blocks = line 0 0x00 false ∷ line 1 0x40 true ∷ line 2 0x80 false ∷ [];
  lru_queue = 0 ∷ 1 ∷ 2 ∷ [];
}

abbrev three_ways : Directory
three_ways = record { num_sets = 1; num_ways = 3; block_size = 64; sets = lines ∷ [] }

same_address : ℕ → ℕ
same_address addr = addr

first_set : get_set same_address three_ways 0x40 ≡ some (lines, 0)
unfolding get_set same_address
first_set = refl

find_victim-IsVictim_example :
    (visited : Directory) × (visits (0 ∷ 1 ∷ []) three_ways 0 ≡ some visited)
    × (way : ℕ) × (find_victim same_address visited 0x40 ≡ some way)
    × IsVictim
        (lines.blocks)
        (unvisited (0 ∷ 1 ∷ []) (lines.lru_queue) ++ last_visits (0 ∷ 1 ∷ []))
        way
find_victim-IsVictim_example =
    find_victim-IsVictim same_address three_ways 0x40 0 lines (0 ∷ 1 ∷ []) first_set
      (refl, (refl, (refl, tt))) (omega arith, (omega arith, (omega arith, tt))) (omega arith)
      (refl, (refl, tt))

-- Way 2 is not visited; it is the victim.
victim_of : Option Directory → Option ℕ
victim_of o = o >>= λ d. find_victim same_address d 0x40

victim_unvisited : victim_of (visits (0 ∷ 1 ∷ []) three_ways 0) ≡ some 2
unfolding victim_of visit visit_queue remove_way find_victim get_set same_address find_lru_victim
    first_way
victim_unvisited = refl

found_line : lookup same_address three_ways 1 0x80 ≡ some (some 2)
unfolding lookup lookup_block is_hit get_set same_address
found_line = refl

-- A new directory has empty blocks, the addresses of which follow one another.
new_victim : find_victim same_address (new_directory 2 2 64) 0x40 ≡ some 0
unfolding new_directory reset_directory fill_sets fill_set new_block find_victim get_set
    same_address find_lru_victim first_way
new_victim = refl
