-- ===== src/Memory/Buddy/Field.antt =====
-- The bit field of the buddy allocator (driver/internal/buddystructures.go).
use sampled_mgpu_sim.Prelude.{
  ℕ, ◌+◌, ◌*◌, ◌/◌, ◌%◌, ◌^◌, ◌<◌, ◌≡◌, refl, sym, ap, subst, ◌≢◌, inl, inr, Bool, false, not,
  Option, none, some, List, arith, ◌==◌, if◌then◌else◌, Bool-cases, ==_iff, ◌>>=◌, length,
  get_elem?, set,
}
use sampled_mgpu_sim.Prelude.{
  ◌∙◌, length-set, set-set_self, set-get_elem?, >>=-eq-some, get_elem?-lt, get_elem?-some,
  get_elem?-set_self, get_elem?-set_ne,
}
use native.Mathlib.Nat.{one-le-pow, zero-mul}
use sampled_mgpu_sim.Prelude.Bits.{
  bit, bit_and, bit_xor, bit_and-pow, bit-bit_xor_sum, bit-pow_self, bit-pow_ne, bit-lt,
  bit_xor-twice,
}
use sampled_mgpu_sim.Prelude.{replicate}

pub record BitField : Type 0 where
  pub field : List ℕ
  pub size : ℕ

unfoldable pub new_bit_field : ℕ → BitField
new_bit_field size = record { field = replicate (size / 64 + 1) 0; size = size }

-- An index past the words panics.
unfoldable pub update_bit : BitField → ℕ → Option BitField
update_bit bf index = do
  bits ← get_elem? (bf.field) (index / 64)
  some (record bf { field = set (bf.field) (index / 64) (bit_xor bits (2 ^ (index % 64))) })

unfoldable pub check_bit : BitField → ℕ → Option Bool
check_bit bf index = do
  bits ← get_elem? (bf.field) (index / 64)
  some (not (bit_and bits (2 ^ (index % 64)) == 0))

-- Whether an index is in; one past the words is not.
abbrev pub is_set : BitField → ℕ → Bool
is_set bf index = elim (check_bit bf index) [ none ↦ false | some b ↦ b ]

abbrev pub capacity : BitField → ℕ
capacity bf = 64 * length (bf.field)

abbrev has_bit : ℕ → ℕ → Bool
has_bit n k = not (bit_and n (2 ^ k) == 0)

has_bit-bit : (n k : ℕ) → has_bit n k ≡ not (bit n k == 0)
has_bit-bit n k = rw (bit_and-pow n k) (elim (Bool-cases (bit n k == 0)) [
  | inl h ↦
      let zero_bit : bit n k ≡ 0 = (==_iff (bit n k) 0).0 h in
      rw zero_bit (rw (zero-mul (2 ^ k)) refl)
  | inr h ↦
      let one_bit : bit n k ≡ 1 = ground (arith, bit-lt n k, h) in
      rw one_bit (ground (arith, one-le-pow k 2 (omega arith)))
])

-- A toggled bit changes, and the others do not.
has_bit-xor_self : (n k : ℕ) → has_bit (bit_xor n (2 ^ k)) k ≡ not (has_bit n k)
has_bit-xor_self n k = has_bit-bit (bit_xor n (2 ^ k)) k ∙ toggled ∙ ap not (sym (has_bit-bit n k))
  where
    toggled : not (bit (bit_xor n (2 ^ k)) k == 0) ≡ not (not (bit n k == 0))
    toggled = ground (arith, bit-bit_xor_sum n (2 ^ k) k, bit-pow_self k, bit-lt n k)

has_bit-xor_ne : (n k l : ℕ) → l ≢ k → has_bit (bit_xor n (2 ^ k)) l ≡ has_bit n l
has_bit-xor_ne n k l h =
    has_bit-bit (bit_xor n (2 ^ k)) l ∙ ap (λ b. not (b == 0)) kept ∙ sym (has_bit-bit n l)
  where
    kept : bit (bit_xor n (2 ^ k)) l ≡ bit n l
    kept = omega (arith, bit-bit_xor_sum n (2 ^ k) l, bit-pow_ne k l (λ e. h (sym e)), bit-lt n l)

check_bit-word :
    (bf : BitField) (j word : ℕ)
    → get_elem? (bf.field) (j / 64) ≡ some word
    → check_bit bf j ≡ some (has_bit word (j % 64))
unfolding check_bit
check_bit-word bf j word h = ap (λ o. o >>= (λ w. some (has_bit w (j % 64)))) h

abbrev or_false : Option Bool → Bool
or_false o = elim o [ none ↦ false | some b ↦ b ]

pub check_bit-within :
    (bf : BitField) (j : ℕ) → j < capacity bf → check_bit bf j ≡ some (is_set bf j)
check_bit-within bf j within =
    let (w, h) = get_elem?-some (bf.field) (j / 64) (omega arith) in
    check_bit-word bf j w h ∙ ap (λ o. some (or_false o)) (sym (check_bit-word bf j w h))

-- What toggling `index` gives: each bit within the words changes at that index only.
pub record IsToggled (bf new : BitField) (index : ℕ) : Type 0 where
  pub same_capacity : capacity new ≡ capacity bf
  pub same_size : new.size ≡ bf.size
  pub bits :
      (j : ℕ)
      → j < capacity bf
      → check_bit new j ≡ some (if j == index then not (is_set bf j) else is_set bf j)

module _ (bf : BitField) (index word : ℕ) (h : get_elem? (bf.field) (index / 64) ≡ some word) where
  toggled : BitField
  toggled = record bf { field = set (bf.field) (index / 64) (bit_xor word (2 ^ (index % 64))) }

  opened :
      some (record bf { field = set (bf.field) (index / 64) (bit_xor word (2 ^ (index % 64))) })
      ≡ some toggled
  unfolding toggled
  opened = refl

  kept : capacity toggled ≡ capacity bf
  unfolding toggled
  kept = ap (λ n. 64 * n) (length-set (bf.field) (index / 64) (bit_xor word (2 ^ (index % 64))))

  size_kept : toggled.size ≡ bf.size
  unfolding toggled
  size_kept = refl

  toggled-within : index / 64 < length (bf.field)
  toggled-within = get_elem?-lt (bf.field) (index / 64) h

  check_bit-same_word :
      (j : ℕ)
      → j / 64 ≡ index / 64
      → check_bit toggled j ≡ some (if j == index then not (is_set bf j) else is_set bf j)
  unfolding toggled
  check_bit-same_word j same =
      check_bit-word toggled j (bit_xor word (2 ^ (index % 64))) now
      ∙ ap some (elim (Bool-cases (j == index)) [
        | inl e ↦
            let at_index : j ≡ index = (==_iff j index).0 e in
            rw e (
              ap (λ k. has_bit (bit_xor word (2 ^ (index % 64))) (k % 64)) at_index
              ∙ has_bit-xor_self word (index % 64)
              ∙ ap (λ k. not (has_bit word (k % 64))) (sym at_index)
              ∙ ap not (sym before))
        | inr e ↦
            let apart : j % 64 ≢ index % 64 = λ q. cc ((==_iff j index).1 (same_number q), e) in
            rw e (has_bit-xor_ne word (index % 64) (j % 64) apart ∙ sym before)
      ])
    where
      old : get_elem? (bf.field) (j / 64) ≡ some word
      old = ap (λ k. get_elem? (bf.field) k) same ∙ h

      now :
          get_elem? (set (bf.field) (index / 64) (bit_xor word (2 ^ (index % 64)))) (j / 64)
          ≡ some (bit_xor word (2 ^ (index % 64)))
      now =
          ap (λ k. get_elem? (set (bf.field) (index / 64) (bit_xor word (2 ^ (index % 64)))) k) same
          ∙ get_elem?-set_self (bf.field) (index / 64) (bit_xor word (2 ^ (index % 64)))
              toggled-within

      before : is_set bf j ≡ has_bit word (j % 64)
      before = ap or_false (check_bit-word bf j word old)

      same_number : j % 64 ≡ index % 64 → j ≡ index
      same_number q = omega (arith, q, same)

  check_bit-other_word :
      (j : ℕ)
      → j < capacity bf
      → j / 64 ≢ index / 64
      → check_bit toggled j ≡ some (if j == index then not (is_set bf j) else is_set bf j)
  unfolding toggled
  check_bit-other_word j within other =
      let (w, old) = get_elem?-some (bf.field) (j / 64) (omega arith) in
      let now : get_elem? (set (bf.field) (index / 64) (bit_xor word (2 ^ (index % 64)))) (j / 64)
          ≡ some w =
        get_elem?-set_ne (bf.field) (bit_xor word (2 ^ (index % 64))) (λ e. other (sym e)) ∙ old in
      let apart : (j == index) ≡ false = ground (arith, other) in
      rw apart
        (check_bit-word toggled j w now ∙ ap some (sym (ap or_false (check_bit-word bf j w old))))

-- For an index within the words, toggling it returns, and gives the field in which the bit of that
-- index has changed and every other bit within the words is as it was.
pub update_bit-IsToggled :
    (bf : BitField) (index : ℕ)
    → index < capacity bf
    → (new : BitField) × (update_bit bf index ≡ some new) × IsToggled bf new index
unfolding update_bit
update_bit-IsToggled bf index within =
    let (word, h) = get_elem?-some (bf.field) (index / 64) (omega arith) in
    (
      toggled bf index word h,
      ap
            (λ o. o >>= (λ bits. some (record bf {
              field = set (bf.field) (index / 64) (bit_xor bits (2 ^ (index % 64)));
            })))
            h
          ∙ opened bf index word h,
      record {
        same_capacity = kept bf index word h;
        same_size = size_kept bf index word h;
        bits = λ j below. elim (Bool-cases (j / 64 == index / 64)) [
          | inl e ↦ check_bit-same_word bf index word h j ((==_iff (j / 64) (index / 64)).0 e)
          | inr e ↦
              check_bit-other_word bf index word h j below
                (λ q. cc ((==_iff (j / 64) (index / 64)).1 q, e))
        ];
      },
    )

-- Toggling an index twice gives the field back.
pub update_bit-twice :
    (bf new : BitField) (index : ℕ)
    → update_bit bf index ≡ some new
    → update_bit new index ≡ some bf
unfolding update_bit
update_bit-twice bf new index e =
    let (word, h, last) =
      >>=-eq-some (get_elem? (bf.field) (index / 64))
        (λ bits.
          some
            (record bf { field = set (bf.field) (index / 64) (bit_xor bits (2 ^ (index % 64))) }))
        e in
    let once : List ℕ = set (bf.field) (index / 64) (bit_xor word (2 ^ (index % 64))) in
    let same : record bf { field = once } ≡ new = cc last in
    let stands : get_elem? once (index / 64) ≡ some (bit_xor word (2 ^ (index % 64))) =
      get_elem?-set_self (bf.field) (index / 64) (bit_xor word (2 ^ (index % 64)))
        (get_elem?-lt (bf.field) (index / 64) h) in
    subst (λ (t : BitField). update_bit t index ≡ some bf) same
      (ap
          (λ o. o >>= (λ bits.
            some (record bf { field = set once (index / 64) (bit_xor bits (2 ^ (index % 64))) })))
          stands
        ∙ ap (λ xs. some (record bf { field = xs }))
            (set-set_self (bf.field) (index / 64) (bit_xor word (2 ^ (index % 64)))
                (bit_xor (bit_xor word (2 ^ (index % 64))) (2 ^ (index % 64)))
              ∙ ap (λ w. set (bf.field) (index / 64) w) (bit_xor-twice word (2 ^ (index % 64)))
              ∙ set-get_elem? (bf.field) (index / 64) word h))
