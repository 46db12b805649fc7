-- ===== src/Memory/Buddy/Freed.antt =====
-- Freeing the block that was split from the first one: its level is found by the bits of the splits,
-- and merging it gives the first block back.
use sampled_mgpu_sim.Prelude.{
  ◌==◌, ℕ, zero, suc, ◌+◌, ◌-◌, ◌*◌, ◌^◌, ◌≤◌, ◌<◌, ◌≡◌, sym, ap, inl, inr, false, not, ◌&&◌,
  Option, none, some, List, [], ◌∷◌, arith, ltb, leb, if◌then◌else◌, Bool-cases, ◌>>=◌, length,
}
use native.Mathlib.Nat.{one-le-pow}
use sampled_mgpu_sim.Prelude.{◌∙◌}
use sampled_mgpu_sim.Prelude.{replicate}
use sampled_mgpu_sim.Prelude.Elements.{element}
use sampled_mgpu_sim.Memory.Buddy.Field.{check_bit, is_set, capacity}
use sampled_mgpu_sim.Memory.Buddy.{
  BlockTracker, BuddyState, index_of_block, size_of_level, block_has_been_split, level_of_block,
  merge_block, free_block, push_back,
}
use sampled_mgpu_sim.Memory.Buddy.Step.{index_of_block-first}
use sampled_mgpu_sim.Memory.Buddy.Level.{retrack, IsSplit, pos-size_of_level, pow-le}

-- A memory of 2 ^ k pages, k < 51, whose one free block is all of it.
pub record IsFresh (s : BuddyState) (k : ℕ) : Type 0 where
  pub small : k < 51
  pub whole : s.storage_size ≡ 2 ^ k * 4096
  pub fits : s.initial_address + s.storage_size < 2 ^ 64
  pub one_block : s.free_list ≡ (s.initial_address ∷ []) ∷ replicate k []
  pub split_room : 2 ^ k ≤ capacity (s.bf_block_split)
  pub merge_room : 2 ^ k ≤ capacity (s.bf_merge_list)
  pub no_split : (l : ℕ) → l < k → is_set (s.bf_block_split) (2 ^ l - 1) ≡ false
  pub no_merge : (l : ℕ) → l < k → check_bit (s.bf_merge_list) (2 ^ l - 1) ≡ some false
  pub unused : element (s.fresh) (s.trackers) ≡ none

module _ (s t : BuddyState) (k top : ℕ) (f : IsFresh s k) (high : top ≤ k) (lists : List (List ℕ))
    (h : IsSplit (record s { free_list = lists }) t 0 top) (tracking : ℕ → Option ℕ)
    (trackers : List (ℕ × BlockTracker)) (fresh : ℕ) where
  now : BuddyState
  now = retrack t tracking trackers fresh

  block_has_been_split-first :
      (l : ℕ) → l < k → block_has_been_split now (s.initial_address) l ≡ some (ltb l top)
  unfolding block_has_been_split now
  block_has_been_split-first l below =
      ap (λ o. o >>= (λ index. check_bit (t.bf_block_split) index)) node
      ∙ h.split_bits l (omega (arith, f.split_room, pow-le l k (omega arith)))
      ∙ ap some toggled
    where
      positive : 1 ≤ size_of_level (retrack t tracking trackers fresh) l
      positive =
          pos-size_of_level (retrack t tracking trackers fresh) l k (omega arith)
            (omega (arith, h.same_size, f.whole, one-le-pow k 2 (omega arith)))

      node :
          index_of_block (retrack t tracking trackers fresh) (s.initial_address) l
          ≡ some (2 ^ l - 1)
      node =
          ap (λ a. index_of_block (retrack t tracking trackers fresh) a l) (sym (h.same_address))
          ∙ index_of_block-first (retrack t tracking trackers fresh) l (omega (arith, f.small))
              (omega (arith, h.same_address, f.fits)) positive

      toggled :
          (if leb 0 l && ltb l top
            then not (is_set (s.bf_block_split) (2 ^ l - 1))
            else is_set (s.bf_block_split) (2 ^ l - 1))
          ≡ ltb l top
      toggled = rw (f.no_split l below) (ground arith)

  level_of_block-first :
      (j : ℕ) → top ≤ j → j ≤ k → level_of_block j now (s.initial_address) ≡ some top
  unfolding level_of_block
  level_of_block-first zero low below = ap some (omega arith)
  level_of_block-first (suc j) low below = elim (Bool-cases (ltb j top)) [
    | inl e ↦
        ap (λ o. o >>= (λ b. if b then some (suc j) else level_of_block j now (s.initial_address)))
          (block_has_been_split-first j below ∙ ap some e)
        ∙ ap some (ground (arith, e))
    | inr e ↦
        ap (λ o. o >>= (λ b. if b then some (suc j) else level_of_block j now (s.initial_address)))
          (block_has_been_split-first j below ∙ ap some e)
        ∙ level_of_block-first j (ground (arith, e)) (omega arith)
  ]

  pub free_block-first :
      length (t.free_list) ≡ suc k
      → free_block (retrack t tracking trackers fresh) (s.initial_address)
        ≡ some (record (retrack s tracking trackers fresh) {
          free_list = push_back lists 0 (s.initial_address);
        })
  unfolding free_block now merge_block
  free_block-first levels =
      ap
        (λ b.
          if b
          then none
          else (level_of_block (length (t.free_list) - 1) now (s.initial_address)
              >>= (λ level. merge_block level (s.initial_address) now)))
        not_empty
      ∙ ap
          (λ o. o >>= (λ level.
            merge_block level (s.initial_address) (retrack t tracking trackers fresh)))
          (level_of_block-first (length (t.free_list) - 1) (omega arith) (omega arith))
      ∙ h.merges tracking trackers fresh
    where
      not_empty : (length (t.free_list) == 0) ≡ false
      not_empty = ground (arith, levels)
