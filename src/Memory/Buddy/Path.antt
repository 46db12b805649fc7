-- ===== src/Memory/Buddy/Path.antt =====
-- Splitting the first block level after level, and merging it back.
use sampled_mgpu_sim.Prelude.{
  ℕ, zero, suc, ◌+◌, ◌-◌, ◌^◌, ◌≤◌, ◌<◌, ◌≡◌, refl, sym, ap, inl, inr, Bool, true, false, not, ◌&&◌,
  none, some, [], ◌∷◌, ◌++◌, arith, ltb, leb, ◌==◌, if◌then◌else◌, Bool-cases, ==_iff,
}
use native.Mathlib.Nat.{one-le-pow}
use sampled_mgpu_sim.Prelude.{◌∙◌}
use sampled_mgpu_sim.Prelude.{length-modify}
use sampled_mgpu_sim.Memory.Buddy.Field.{
  BitField, update_bit, check_bit-within, is_set, capacity, IsToggled, update_bit-IsToggled,
}
use sampled_mgpu_sim.Memory.Buddy.{BuddyState, split_block, merge_block}
use sampled_mgpu_sim.Memory.Buddy.Level.{
  IsClear, IsSplit, retrack, node-apart, in_splits, in_merges, next_level, split_one,
  next_level-IsClear, merge_one, other,
}

module _ (s : BuddyState) (i top : ℕ) (c : IsClear s i top) (below : i < top) where
  module _ (splits merges : BitField) (e1 : update_bit (s.bf_block_split) (2 ^ i - 1) ≡ some splits)
      (e2 : update_bit (s.bf_merge_list) (2 ^ i - 1) ≡ some merges)
      (t1 : IsToggled (s.bf_block_split) splits (2 ^ i - 1))
      (t2 : IsToggled (s.bf_merge_list) merges (2 ^ i - 1)) where
    abbrev inner : BuddyState
    inner = next_level s i top c below splits merges e1 e2 t1 t2

    IsSplit-one : (t : BuddyState) → IsSplit inner t (suc i) top → IsSplit s t i top
    unfolding next_level
    IsSplit-one t h = record {
      same_address = h.same_address;
      same_size = h.same_size;
      same_tracking = h.same_tracking;
      same_trackers = h.same_trackers;
      same_fresh = h.same_fresh;
      same_levels =
          h.same_levels
          ∙ length-modify (s.free_list) (suc i) (λ xs. xs ++ (other s i top c below ∷ []));
      split_bits = λ l room.
          h.split_bits l (omega (arith, t1.same_capacity, room)) ∙ ap some (toggled_at l room);
      merges = λ tracking trackers fresh.
          h.merges tracking trackers fresh
          ∙ merge_one s i top c below splits merges e1 e2 t1 t2 tracking trackers fresh;
    }
      where
        bit_of : ℕ → Bool
        bit_of l = is_set (s.bf_block_split) (2 ^ l - 1)

        at_level :
            (l : ℕ)
            → 2 ^ l ≤ capacity (s.bf_block_split)
            → is_set splits (2 ^ l - 1)
              ≡ (if 2 ^ l - 1 == 2 ^ i - 1 then not (bit_of l) else bit_of l)
        at_level l room =
            ap (λ o. elim o [ none ↦ false | some b ↦ b ])
              (t1.bits (2 ^ l - 1) (omega (arith, room, one-le-pow l 2 (omega arith))))

        toggled_at :
            (l : ℕ)
            → 2 ^ l ≤ capacity (s.bf_block_split)
            → (if leb (suc i) l && ltb l top
                then not (is_set splits (2 ^ l - 1))
                else is_set splits (2 ^ l - 1))
              ≡ (if leb i l && ltb l top then not (bit_of l) else bit_of l)
        toggled_at l room = elim (Bool-cases (l == i)) [
          | inl e ↦
              let at_i : l ≡ i = (==_iff l i).0 e in
              let here : (2 ^ l - 1 == 2 ^ i - 1) ≡ true =
                (==_iff (2 ^ l - 1) (2 ^ i - 1)).1 (ap (λ k. 2 ^ k - 1) at_i) in
              let outer : (leb i l && ltb l top) ≡ true = ground (arith, at_i) in
              let inner : (leb (suc i) l && ltb l top) ≡ false = ground (arith, at_i) in
              rw (outer, inner)
                (at_level l room ∙ ap (λ c. if c then not (bit_of l) else bit_of l) here)
          | inr e ↦
              let apart : (2 ^ l - 1 == 2 ^ i - 1) ≡ false =
                ground (arith, e, node-apart l i (λ q. cc ((==_iff l i).1 q, e))) in
              let same : (leb (suc i) l && ltb l top) ≡ (leb i l && ltb l top) =
                ground (arith, e) in
              rw same (
                ap (λ b. if leb i l && ltb l top then not b else b)
                  (at_level l room ∙ ap (λ c. if c then not (bit_of l) else bit_of l) apart))
        ]

pub split_block-IsSplit :
    (n i top : ℕ) (s : BuddyState)
    → i + n ≡ top
    → IsClear s i top
    → (t : BuddyState) × (split_block n i (s.initial_address) s ≡ some t) × IsSplit s t i top
unfolding split_block next_level
split_block-IsSplit zero i top s e c = (
  s,
  refl,
  record {
    same_address = refl;
    same_size = refl;
    same_tracking = refl;
    same_trackers = refl;
    same_fresh = refl;
    same_levels = refl;
    split_bits = λ l room.
        let outside : (leb i l && ltb l top) ≡ false = ground arith in
        check_bit-within (s.bf_block_split) (2 ^ l - 1)
          (omega (arith, room, one-le-pow l 2 (omega arith)))
        ∙ ap
            (λ b. some (
              if b
              then not (is_set (s.bf_block_split) (2 ^ l - 1))
              else is_set (s.bf_block_split) (2 ^ l - 1)))
            (sym outside);
    merges = λ tracking trackers fresh.
        ap (λ k. merge_block k (s.initial_address) (retrack s tracking trackers fresh)) (sym here);
  },
)
  where
    here : i ≡ top
    here = omega arith
split_block-IsSplit (suc n) i top s e c =
    let below : i < top = omega arith in
    let (splits, e1, t1) =
      update_bit-IsToggled (s.bf_block_split) (2 ^ i - 1) (in_splits s i top c below) in
    let (merges, e2, t2) =
      update_bit-IsToggled (s.bf_merge_list) (2 ^ i - 1) (in_merges s i top c below) in
    let inner : BuddyState = next_level s i top c below splits merges e1 e2 t1 t2 in
    let (t, rest, split) =
      split_block-IsSplit n (suc i) top inner (omega arith)
        (next_level-IsClear s i top c below splits merges e1 e2 t1 t2) in
    (
      t,
      split_one s i top c below splits merges e1 e2 t1 t2 n ∙ rest,
      IsSplit-one s i top c below splits merges e1 e2 t1 t2 t split,
    )
