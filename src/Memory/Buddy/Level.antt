-- ===== src/Memory/Buddy/Level.antt =====
-- Splitting the first block at one level, and merging it back.
use sampled_mgpu_sim.Prelude.{
  ℕ, zero, suc, ◌+◌, ◌-◌, ◌^◌, ◌≤◌, ◌<◌, ◌≡◌, refl, sym, ap, subst, ◌≢◌, inl, inr, false, not, ◌&&◌,
  Option, none, some, List, [], ◌∷◌, ◌++◌, arith, ltb, leb, ◌==◌, if◌then◌else◌, Bool-cases, ltb→lt,
  ==_iff, ==_refl, length, get_elem?,
}
use native.Mathlib.Nat.{one-le-pow, le-div_iff_mul-le, div-le_self}
use sampled_mgpu_sim.Prelude.{◌∙◌}
use sampled_mgpu_sim.Prelude.{modify}
use sampled_mgpu_sim.Prelude.Bits.Field.{pow-lt-pow}
use sampled_mgpu_sim.Memory.Buddy.Field.{
  BitField, update_bit, check_bit, is_set, capacity, IsToggled, update_bit-twice,
}
use sampled_mgpu_sim.Memory.Buddy.{
  BlockTracker, BuddyState, size_of_level, index_of_block, index_in_level_of, buddy_of, split_block,
  push_back, remove_by_value, merge_block,
}
use sampled_mgpu_sim.Memory.Buddy.Step.{
  split_block-step, merge_block-step, index_of_block-first, buddy_of-first,
}

module _ {ℓ} {A : Type ℓ} where
  modify-undo :
      (xs : List A) (i : ℕ) (f g : A → A) {a : A}
      → get_elem? xs i ≡ some a
      → g (f a) ≡ a
      → modify (modify xs i f) i g ≡ xs
  modify-undo [] i f g e h = refl
  modify-undo (x ∷ xs) zero f g e h = ground (arith, h)
  modify-undo (x ∷ xs) (suc i) f g e h = ap (λ ys. x ∷ ys) (modify-undo xs i f g e h)

  get_elem?-modify_ne :
      (xs : List A) (i j : ℕ) (f : A → A) → i ≢ j → get_elem? (modify xs i f) j ≡ get_elem? xs j
  get_elem?-modify_ne [] i j f h = refl
  get_elem?-modify_ne (x ∷ xs) zero zero f h = absurd (h refl)
  get_elem?-modify_ne (x ∷ xs) zero (suc j) f h = refl
  get_elem?-modify_ne (x ∷ xs) (suc i) zero f h = refl
  get_elem?-modify_ne (x ∷ xs) (suc i) (suc j) f h =
      get_elem?-modify_ne xs i j f (λ e. h (ap suc e))

remove_by_value-only : (x : ℕ) → remove_by_value (x ∷ []) x ≡ []
unfolding remove_by_value
remove_by_value-only x = rw (==_refl x) refl

-- The first block can be split from level `i` to level `top`: there are bytes, bits and addresses for
-- it, no bit of its merges on the way is set, and nothing is free on the levels below `i`.
pub record IsClear (s : BuddyState) (i top : ℕ) : Type 0 where
  pub small : top < 63
  pub room : 2 ^ top ≤ s.storage_size
  pub fits : s.initial_address + s.storage_size < 2 ^ 64
  pub split_room : 2 ^ top ≤ capacity (s.bf_block_split)
  pub merge_room : 2 ^ top ≤ capacity (s.bf_merge_list)
  pub unset : (l : ℕ) → i ≤ l → l < top → check_bit (s.bf_merge_list) (2 ^ l - 1) ≡ some false
  pub empty : (l : ℕ) → i < l → l ≤ top → get_elem? (s.free_list) l ≡ some []

-- The same memory with other pages in use.
abbrev pub retrack : BuddyState → (ℕ → Option ℕ) → List (ℕ × BlockTracker) → ℕ → BuddyState
retrack s tracking trackers fresh = record s {
  block_tracking = tracking;
  trackers = trackers;
  fresh = fresh;
}

-- What splitting from level `i` to level `top` gives: merging the block from there does what merging
-- it from level `i` would have done before, whatever pages are in use.
pub record IsSplit (s t : BuddyState) (i top : ℕ) : Type 0 where
  pub same_address : t.initial_address ≡ s.initial_address
  pub same_size : t.storage_size ≡ s.storage_size
  pub same_tracking : t.block_tracking ≡ s.block_tracking
  pub same_trackers : t.trackers ≡ s.trackers
  pub same_fresh : t.fresh ≡ s.fresh
  pub same_levels : length (t.free_list) ≡ length (s.free_list)
  pub split_bits :
      (l : ℕ)
      → 2 ^ l ≤ capacity (s.bf_block_split)
      → check_bit (t.bf_block_split) (2 ^ l - 1)
        ≡ some (
            if leb i l && ltb l top
            then not (is_set (s.bf_block_split) (2 ^ l - 1))
            else is_set (s.bf_block_split) (2 ^ l - 1))
  pub merges :
      (tracking : ℕ → Option ℕ) (trackers : List (ℕ × BlockTracker)) (fresh : ℕ)
      → merge_block top (s.initial_address) (retrack t tracking trackers fresh)
        ≡ merge_block i (s.initial_address) (retrack s tracking trackers fresh)

pub pow-le : (i top : ℕ) → i ≤ top → 2 ^ i ≤ 2 ^ top
pow-le i top h = elim (Bool-cases (i == top)) [
  | inl e ↦ subst (λ t. 2 ^ i ≤ 2 ^ t) ((==_iff i top).0 e) (omega arith)
  | inr e ↦ omega (arith, pow-lt-pow i top (ground (arith, e)))
]

pub pos-size_of_level :
    (s : BuddyState) (l top : ℕ) → l ≤ top → 2 ^ top ≤ s.storage_size → 1 ≤ size_of_level s l
unfolding size_of_level
pos-size_of_level s l top h room =
    (le-div_iff_mul-le {k = 2 ^ l} {x = 1} {y = s.storage_size} (one-le-pow l 2 (omega arith))).1
      (omega (arith, pow-le l top h))

size_of_level-le : (s : BuddyState) (l : ℕ) → size_of_level s l ≤ s.storage_size
unfolding size_of_level
size_of_level-le s l = div-le_self (s.storage_size) (2 ^ l)

-- Indices of the first blocks of two levels.
pub node-ne : (l i : ℕ) → i < l → 2 ^ l - 1 ≢ 2 ^ i - 1
node-ne l i h e = omega (arith, pow-lt-pow i l h, one-le-pow i 2 (omega arith))

pub node-apart : (l i : ℕ) → l ≢ i → 2 ^ l - 1 ≢ 2 ^ i - 1
node-apart l i h = elim (Bool-cases (ltb i l)) [
  | inl e ↦ node-ne l i (ltb→lt i l e)
  | inr e ↦ λ q. node-ne i l (ground (arith, e)) (sym q)
]

module _ (s : BuddyState) (i top : ℕ) (c : IsClear s i top) (below : i < top) where
  abbrev pub first : ℕ
  first = s.initial_address

  abbrev pub other : ℕ
  other = first + size_of_level s (suc i)

  pos : (l : ℕ) → l ≤ top → 1 ≤ size_of_level s l
  pos l h = pos-size_of_level s l top h (c.room)

  index : index_of_block s first i ≡ some (2 ^ i - 1)
  index =
      index_of_block-first s i (omega (arith, c.small)) (omega (arith, c.fits))
        (pos i (omega arith))

  half : buddy_of s first (suc i) ≡ some other
  half =
      buddy_of-first s (suc i) (omega (arith, c.fits, size_of_level-le s (suc i)))
        (pos (suc i) (omega arith))

  pub in_splits : 2 ^ i - 1 < capacity (s.bf_block_split)
  in_splits = omega (arith, pow-lt-pow i top below, c.split_room)

  pub in_merges : 2 ^ i - 1 < capacity (s.bf_merge_list)
  in_merges = omega (arith, pow-lt-pow i top below, c.merge_room)

  module _ (splits merges : BitField) (e1 : update_bit (s.bf_block_split) (2 ^ i - 1) ≡ some splits)
      (e2 : update_bit (s.bf_merge_list) (2 ^ i - 1) ≡ some merges)
      (t1 : IsToggled (s.bf_block_split) splits (2 ^ i - 1))
      (t2 : IsToggled (s.bf_merge_list) merges (2 ^ i - 1)) where
    -- The memory after the block is split once.
    unfoldable pub next_level : BuddyState
    next_level = record s {
      bf_block_split = splits;
      bf_merge_list = merges;
      free_list = push_back (s.free_list) (suc i) other;
    }

    pub split_one : (n : ℕ) → split_block (suc n) i first s ≡ split_block n (suc i) first next_level
    unfolding next_level
    split_one n = split_block-step n i first (2 ^ i - 1) other s splits merges index e1 e2 half

    pub next_level-IsClear : IsClear next_level (suc i) top
    unfolding next_level
    next_level-IsClear = record {
      small = c.small;
      room = c.room;
      fits = c.fits;
      split_room = omega (arith, t1.same_capacity, c.split_room);
      merge_room = omega (arith, t2.same_capacity, c.merge_room);
      unset = λ l low high.
          let apart : (2 ^ l - 1 == 2 ^ i - 1) ≡ false =
            ground (arith, node-ne l i (omega arith)) in
          let within : 2 ^ l - 1 < capacity (s.bf_merge_list) =
            omega (arith, pow-lt-pow l top high, c.merge_room) in
          t2.bits (2 ^ l - 1) within
          ∙ ap
              (λ b. some (
                if b
                then not (is_set (s.bf_merge_list) (2 ^ l - 1))
                else is_set (s.bf_merge_list) (2 ^ l - 1)))
              apart
          ∙ ap (λ o. some (elim o [ none ↦ false | some b ↦ b ])) (c.unset l (omega arith) high);
      empty = λ l low high.
          get_elem?-modify_ne (s.free_list) (suc i) l (λ xs. xs ++ (other ∷ [])) (omega arith)
          ∙ c.empty l (omega arith) high;
    }

    pub merge_one :
        (tracking : ℕ → Option ℕ) (trackers : List (ℕ × BlockTracker)) (fresh : ℕ)
        → merge_block (suc i) first (retrack next_level tracking trackers fresh)
          ≡ merge_block i first (retrack s tracking trackers fresh)
    unfolding next_level index_of_block index_in_level_of buddy_of size_of_level
    merge_one tracking trackers fresh =
        merge_block-step i first (2 ^ i - 1) other (retrack next_level tracking trackers fresh)
          (s.bf_block_split) (s.bf_merge_list) index
          (update_bit-twice (s.bf_block_split) splits (2 ^ i - 1) e1)
          (update_bit-twice (s.bf_merge_list) merges (2 ^ i - 1) e2) (c.unset i (omega arith) below)
          half after
        ∙ ap
            (λ lists.
              merge_block i first
                (record (retrack s tracking trackers fresh) { free_list = lists }))
            (modify-undo (s.free_list) (suc i) (λ xs. xs ++ (other ∷ []))
              (λ xs. remove_by_value xs other) (c.empty (suc i) (omega arith) (omega arith))
              removed)
      where
        after : ltb other first ≡ false
        after = ground arith

        removed : remove_by_value ([] ++ (other ∷ [])) other ≡ []
        removed = remove_by_value-only other
