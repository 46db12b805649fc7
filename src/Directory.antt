-- ===== src/Directory.antt =====
-- The directory of the sampled caches (virtualdevice/directory.go) and its victim finder
-- (virtualdevice/victimfinder.go). A `*Block` is the way under which the block stands in its set,
-- with the set of it. The converter of addresses is another repository's, a parameter; without one it
-- is the identity. `none` is a panic. The fields of a block that this code does not read or write
-- beyond zero are left out.
mod Recency
mod First
mod Victim
mod Examples
use sampled_mgpu_sim.Prelude.{
  ℕ, zero, suc, ◌+◌, ◌-◌, ◌*◌, ◌/◌, ◌%◌, ◌^◌, ◌≤◌, ◌<◌, min, max, ◌≡◌, refl, sym, ap, ap₂, subst,
  ◌≢◌, ◌↔◌, ◌⊎◌, inl, inr, Bool, true, false, not, ◌&&◌, ◌||◌, Option, none, some, List, [], ◌∷◌,
  ◌++◌, map, arith, ltb, leb, ◌==◌, if◌then◌else◌, Bool-cases, Option-cases, ltb→lt, ltb-false,
  lt→ltb, le→leb, leb→le, ==_iff, ==_refl, ◌>>=◌, length, get_elem?, set, All,
}

pub record Block : Type 0 where
  pub pid : ℕ
  pub tag : ℕ
  pub way_id : ℕ
  pub set_id : ℕ
  pub cache_address : ℕ
  pub is_valid : Bool
  pub is_locked : Bool

pub record DirectorySet : Type 0 where
  pub blocks : List Block
  pub lru_queue : List ℕ

pub record Directory : Type 0 where
  pub num_sets : ℕ
  pub num_ways : ℕ
  pub block_size : ℕ
  pub sets : List DirectorySet

unfoldable pub total_size : Directory → ℕ
total_size d =
    d.num_sets % 2 ^ 64 * (d.num_ways % 2 ^ 64) % 2 ^ 64 * (d.block_size % 2 ^ 64) % 2 ^ 64

-- A division by zero panics, and so does a set that is not there.
unfoldable pub get_set : (convert : ℕ → ℕ) → Directory → ℕ → Option (DirectorySet × ℕ)
get_set convert d req_addr =
    let set_id = convert req_addr / d.block_size % d.num_sets in
    if d.block_size == 0 || d.num_sets == 0
    then none
    else do stored ← get_elem? (d.sets) set_id; some (stored, set_id)

unfoldable pub is_hit : (pid req_addr : ℕ) → Block → Bool
is_hit pid req_addr block = block.is_valid && block.tag == req_addr && block.pid == pid

-- The loop of `Lookup` over the blocks from the way `way` on.
unfoldable pub lookup_block : (pid req_addr : ℕ) → List Block → (way : ℕ) → Option ℕ
lookup_block pid req_addr [] way = none
lookup_block pid req_addr (block ∷ blocks) way =
    let rest = lookup_block pid req_addr blocks (suc way) in
    if is_hit pid req_addr block then some way else rest

-- Nil is `none` inside.
unfoldable pub lookup : (convert : ℕ → ℕ) → Directory → (pid req_addr : ℕ) → Option (Option ℕ)
lookup convert d pid req_addr = do
  (stored, set_id) ← get_set convert d req_addr
  some (lookup_block pid req_addr (stored.blocks) 0)

-- The loops of the victim finder: the first block of the queue that the test takes.
unfoldable pub first_way : (Block → Bool) → List Block → (queue : List ℕ) → Option (Option ℕ)
first_way test blocks [] = some none
first_way test blocks (way ∷ queue) =
    let rest = first_way test blocks queue in
    do block ← get_elem? blocks way; if test block then some (some way) else rest

abbrev pub is_empty : Block → Bool
is_empty block = not (block.is_valid) && not (block.is_locked)

abbrev pub is_unlocked : Block → Bool
is_unlocked block = not (block.is_locked)

unfoldable pub find_lru_victim : DirectorySet → Option ℕ
find_lru_victim set = do
  empty ← first_way is_empty (set.blocks) (set.lru_queue)
  elim empty [
    | some way ↦ some way
    | none ↦ do
      unlocked ← first_way is_unlocked (set.blocks) (set.lru_queue)
      elim unlocked [ some way ↦ some way | none ↦ get_elem? (set.lru_queue) 0 ]
  ]

unfoldable pub find_victim : (convert : ℕ → ℕ) → Directory → ℕ → Option ℕ
find_victim convert d addr = do (stored, set_id) ← get_set convert d addr; find_lru_victim stored

-- `append(queue[:i], queue[i+1:]...)` at the first `i` with the block, if there is one.
unfoldable pub remove_way : ℕ → List ℕ → Option (List ℕ)
remove_way way [] = none
remove_way way (x ∷ xs) =
    let rest = remove_way way xs in if x == way then some xs else (do ys ← rest; some (x ∷ ys))

-- The queue of the set after `Visit`, which works on a copy of the set: the copy's queue has the
-- array of the set's queue, so taking the block out moves the elements after it down in that array,
-- and appending it writes the last place again, within the length that the set still has. Where the
-- block is not in the queue, it is appended past that length, and the set's queue stays as it is.
unfoldable pub visit_queue : ℕ → List ℕ → List ℕ
visit_queue way queue = elim (remove_way way queue) [
  | none ↦ queue
  | some rest ↦ rest ++ (way ∷ [])
]

unfoldable pub visit : Directory → (set_id way : ℕ) → Option Directory
visit d set_id way = do
  stored ← get_elem? (d.sets) set_id
  some (record d {
    sets = set (d.sets) set_id (record stored { lru_queue = visit_queue way (stored.lru_queue) });
  })

unfoldable pub new_block : Directory → (set_id way_id : ℕ) → Block
new_block d set_id way_id = record {
  pid = 0;
  tag = 0;
  way_id = way_id;
  set_id = set_id;
  cache_address = (set_id * d.num_ways + way_id) % 2 ^ 64 * (d.block_size % 2 ^ 64) % 2 ^ 64;
  is_valid = false;
  is_locked = false;
}

-- The inner loop of `Reset`, with the number of ways that are left.
unfoldable pub fill_set : (n way : ℕ) → Directory → (set_id : ℕ) → DirectorySet
fill_set zero way d set_id = record { blocks = []; lru_queue = [] }
fill_set (suc n) way d set_id =
    let rest = fill_set n (suc way) d set_id in
    record { blocks = new_block d set_id way ∷ rest.blocks; lru_queue = way ∷ rest.lru_queue }

unfoldable pub fill_sets : (n set_id : ℕ) → Directory → List DirectorySet
fill_sets zero set_id d = []
fill_sets (suc n) set_id d = fill_set (d.num_ways) 0 d set_id ∷ fill_sets n (suc set_id) d

unfoldable pub reset_directory : Directory → Directory
reset_directory d = record d { sets = fill_sets (d.num_sets) 0 d }

unfoldable pub new_directory : (set way block_size : ℕ) → Directory
new_directory set way block_size =
    reset_directory (record { num_sets = set; num_ways = way; block_size = block_size; sets = [] })
