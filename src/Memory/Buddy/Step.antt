-- ===== src/Memory/Buddy/Step.antt =====
-- One level of splitting a block, and of merging it again, by the bits that they change.
use sampled_mgpu_sim.Prelude.{
  ℕ, suc, ◌+◌, ◌-◌, ◌/◌, ◌%◌, ◌^◌, ◌≤◌, ◌<◌, ◌≡◌, ap, Bool, false, Option, some, arith, ltb, ◌==◌,
  if◌then◌else◌, ◌>>=◌,
}
use native.Mathlib.Nat.{mod-eq_of_lt, zero-div, one-le-pow}
use sampled_mgpu_sim.Prelude.{◌∙◌}
use sampled_mgpu_sim.Prelude.{modify}
use sampled_mgpu_sim.Prelude.Words.{sub_word}
use sampled_mgpu_sim.Prelude.Bits.Field.{pow-lt-pow}
use sampled_mgpu_sim.Memory.Buddy.Field.{BitField, update_bit, check_bit}
use sampled_mgpu_sim.Memory.Buddy.{
  BuddyState, size_of_level, index_in_level_of, index_of_block, buddy_of, update_split,
  update_merge, split_block, push_back, remove_by_value, block_or_buddy_is_allocated, merge_block,
}

pub update_split_lem :
    (s : BuddyState) (block level index : ℕ) (bits : BitField)
    → index_of_block s block level ≡ some index
    → update_bit (s.bf_block_split) index ≡ some bits
    → update_split s block level ≡ some (record s { bf_block_split = bits })
unfolding update_split
update_split_lem s block level index bits e1 e2 =
    ap
      (λ o. o >>= (λ i.
        update_bit (s.bf_block_split) i >>= (λ b. some (record s { bf_block_split = b }))))
      e1
    ∙ ap (λ o. o >>= (λ b. some (record s { bf_block_split = b }))) e2

pub update_merge_lem :
    (s : BuddyState) (block level index : ℕ) (bits : BitField)
    → index_of_block s block level ≡ some index
    → update_bit (s.bf_merge_list) index ≡ some bits
    → update_merge s block level ≡ some (record s { bf_merge_list = bits })
unfolding update_merge
update_merge_lem s block level index bits e1 e2 =
    ap
      (λ o.
        o
        >>= (λ i. update_bit (s.bf_merge_list) i >>= (λ b. some (record s { bf_merge_list = b }))))
      e1
    ∙ ap (λ o. o >>= (λ b. some (record s { bf_merge_list = b }))) e2

-- A level is split by toggling both bits of the block and putting its other half on the free list.
pub split_block-step :
    (n level block index other : ℕ) (s : BuddyState) (splits merges : BitField)
    → index_of_block s block level ≡ some index
    → update_bit (s.bf_block_split) index ≡ some splits
    → update_bit (s.bf_merge_list) index ≡ some merges
    → buddy_of s block (suc level) ≡ some other
    → split_block (suc n) level block s
      ≡ split_block n (suc level) block (record s {
        bf_block_split = splits;
        bf_merge_list = merges;
        free_list = push_back (s.free_list) (suc level) other;
      })
unfolding split_block index_of_block index_in_level_of size_of_level buddy_of
split_block-step n level block index other s splits merges e1 e2 e3 e4 =
    let first : BuddyState = record s { bf_block_split = splits } in
    let second : BuddyState = record first { bf_merge_list = merges } in
    let finish : BuddyState → Option BuddyState = λ s2. buddy_of s2 block (suc level) >>= (λ other.
      split_block n (suc level) block
        (record s2 { free_list = push_back (s2.free_list) (suc level) other })) in
    ap (λ o. o >>= (λ s1. update_merge s1 block level >>= finish))
      (update_split_lem s block level index splits e1 e2)
    ∙ ap (λ o. o >>= finish) (update_merge_lem first block level index merges e1 e3)
    ∙ ap
        (λ o. o >>= (λ other.
          split_block n (suc level) block
            (record second { free_list = push_back (second.free_list) (suc level) other })))
        e4

block_or_buddy_is_allocated_lem :
    (s : BuddyState) (addr level index : ℕ) (b : Bool)
    → index_of_block s addr level ≡ some index
    → check_bit (s.bf_merge_list) index ≡ some b
    → block_or_buddy_is_allocated s addr (suc level) ≡ some b
unfolding block_or_buddy_is_allocated
block_or_buddy_is_allocated_lem s addr level index b e1 e2 =
    ap (λ l. index_of_block s addr l >>= (λ i. check_bit (s.bf_merge_list) i)) below
    ∙ ap (λ o. o >>= (λ i. check_bit (s.bf_merge_list) i)) e1
    ∙ e2
  where
    below : suc level - 1 ≡ level
    below = omega arith

-- A level is merged when the bit that the block toggles is then not set: its other half leaves the
-- free list, and the block goes on.
pub merge_block-step :
    (level addr index other : ℕ) (s : BuddyState) (splits merges : BitField)
    → index_of_block s addr level ≡ some index
    → update_bit (s.bf_block_split) index ≡ some splits
    → update_bit (s.bf_merge_list) index ≡ some merges
    → check_bit merges index ≡ some false
    → buddy_of s addr (suc level) ≡ some other
    → ltb other addr ≡ false
    → merge_block (suc level) addr s
      ≡ merge_block level addr (record s {
        bf_block_split = splits;
        bf_merge_list = merges;
        free_list = modify (s.free_list) (suc level) (λ xs. remove_by_value xs other);
      })
unfolding merge_block index_of_block index_in_level_of size_of_level buddy_of
merge_block-step level addr index other s splits merges e1 e2 e3 e4 e5 e6 =
    ap (λ o. o >>= branch) (update_merge_lem s addr level index merges e1 e3)
    ∙ ap (λ o. o >>= decide first)
        (block_or_buddy_is_allocated_lem first addr level index false e1 e4)
    ∙ ap (λ o. o >>= finish) (update_split_lem first addr level index splits e1 e2)
    ∙ ap (λ o. o >>= last second) e5
    ∙ ap
        (λ b. merge_block level (if b then other else addr) (record second {
          free_list = modify (second.free_list) (suc level) (λ xs. remove_by_value xs other);
        }))
        e6
  where
    first : BuddyState
    first = record s { bf_merge_list = merges }

    second : BuddyState
    second = record first { bf_block_split = splits }

    last : BuddyState → ℕ → Option BuddyState
    last s2 other = merge_block level (if ltb other addr then other else addr) (record s2 {
      free_list = modify (s2.free_list) (suc level) (λ xs. remove_by_value xs other);
    })

    finish : BuddyState → Option BuddyState
    finish s2 = buddy_of s2 addr (suc level) >>= last s2

    decide : BuddyState → Bool → Option BuddyState
    decide s1 allocated =
        if allocated
        then some (record s1 { free_list = push_back (s1.free_list) (suc level) addr })
        else (update_split s1 addr level >>= finish)

    branch : BuddyState → Option BuddyState
    branch s1 = block_or_buddy_is_allocated s1 addr (suc level) >>= decide s1

-- The block at the initial address is the first of its level, and its other half is after it.
index_in_level_of-first :
    (s : BuddyState) (level : ℕ)
    → s.initial_address < 2 ^ 64
    → 1 ≤ size_of_level s level
    → index_in_level_of s (s.initial_address) level ≡ some 0
unfolding index_in_level_of
index_in_level_of-first s level fits pos =
    rw positive
      (ap some (ap (λ d. d / size_of_level s level) distance ∙ zero-div (size_of_level s level)))
  where
    positive : (size_of_level s level == 0) ≡ false
    positive = ground arith

    distance : sub_word 64 (s.initial_address) (s.initial_address) ≡ 0
    distance = omega arith

pub index_of_block-first :
    (s : BuddyState) (level : ℕ)
    → level < 64
    → s.initial_address < 2 ^ 64
    → 1 ≤ size_of_level s level
    → index_of_block s (s.initial_address) level ≡ some (2 ^ level - 1)
unfolding index_of_block
index_of_block-first s level bound fits pos =
    ap (λ o. o >>= (λ index. some (sub_word 64 ((2 ^ level + index) % 2 ^ 64) 1)))
      (index_in_level_of-first s level fits pos)
    ∙ ap some node
  where
    node : sub_word 64 ((2 ^ level + 0) % 2 ^ 64) 1 ≡ 2 ^ level - 1
    node = omega (arith, pow-lt-pow level 64 bound, one-le-pow level 2 (omega arith))

pub buddy_of-first :
    (s : BuddyState) (level : ℕ)
    → s.initial_address + size_of_level s level < 2 ^ 64
    → 1 ≤ size_of_level s level
    → buddy_of s (s.initial_address) level ≡ some (s.initial_address + size_of_level s level)
unfolding buddy_of
buddy_of-first s level fits pos =
    ap
      (λ o. o >>= (λ index. some (
        if index % 2 == 0
        then (s.initial_address + size_of_level s level) % 2 ^ 64
        else sub_word 64 (s.initial_address) (size_of_level s level))))
      (index_in_level_of-first s level (omega arith) pos)
    ∙ ap some (mod-eq_of_lt fits)
