-- ===== src/Memory/Register.antt =====
-- The frames that a registered device brings.
use sampled_mgpu_sim.Prelude.{◌∙◌}
use sampled_mgpu_sim.Prelude.{
  ℕ, zero, suc, ◌+◌, ◌-◌, ◌*◌, ◌%◌, ◌^◌, ◌≤◌, ◌<◌, ◌≡◌, sym, ap, subst, inl, inr, true, false, ◌&&◌,
  some, List, [], ◌∷◌, ◌++◌, arith, ltb, leb, ◌==◌, if◌then◌else◌, Bool-cases, ltb→lt, leb→le,
  ==_iff,
}
use mathlib.Core.List.{append_assoc, append-nil}
use native.Mathlib.Nat.{mod-eq_of_lt, add-mul-mod_self_right, zero-mod, one-le-pow, mul-le-mul_left}
use sampled_mgpu_sim.Prelude.Bits.Field.{pow-lt-pow}
use sampled_mgpu_sim.Memory.{
  RegularState, add_u64, bytes_of_page, add_pages, add_regular_p_addr, set_regular_address,
}
use sampled_mgpu_sim.Memory.Frames.{count}

-- `n` frames from `addr` on.
abbrev pub pages_at : (n addr page_size : ℕ) → List ℕ
pages_at zero addr page_size = []
pages_at (suc n) addr page_size = addr ∷ pages_at n (addr + page_size) page_size

-- One for a multiple of the page's size from `low` up to `high`, which is left out.
abbrev pub is_page : (page_size low high x : ℕ) → ℕ
is_page page_size low high x = if leb low x && ltb x high && (x % page_size == 0) then 1 else 0

single : (m p x : ℕ) → 1 ≤ p → x % p ≡ 0 → m * p ≤ x → x < m * p + p → x ≡ m * p
single m p x pos h low high = omega (arith, remainder)
  where
    split : (x - m * p) + m * p ≡ x
    split = omega arith

    remainder : x - m * p ≡ 0
    remainder =
        sym (mod-eq_of_lt (omega arith))
        ∙ sym (add-mul-mod_self_right (x - m * p) m p)
        ∙ ap (λ a. a % p) split
        ∙ h

multiple : (m p : ℕ) → m * p % p ≡ 0
multiple m p = ap (λ a. a % p) plain ∙ add-mul-mod_self_right 0 m p ∙ zero-mod p
  where
    plain : m * p ≡ 0 + m * p
    plain = omega arith

-- A multiple of the page's size at the low end stands for one more page.
is_page-first :
    (m p high x : ℕ)
    → 1 ≤ p
    → m * p + p ≤ high
    → is_page p (m * p) high x ≡ (if x == m * p then 1 else 0) + is_page p (m * p + p) high x
is_page-first m p high x pos room = elim (Bool-cases (x == m * p)) [
  | inl h ↦
      let same : x ≡ m * p = (==_iff x (m * p)).0 h in
      let exact : x % p ≡ 0 = ap (λ a. a % p) same ∙ multiple m p in ground (arith, h, same, exact)
  | inr h ↦ elim (Bool-cases (x % p == 0)) [
    | inr off ↦ ground (arith, h, off)
    | inl on ↦ elim (Bool-cases (ltb x (m * p + p))) [
      | inr high_enough ↦ ground (arith, h, on, high_enough)
      | inl below ↦ elim (Bool-cases (leb (m * p) x)) [
        | inr low ↦ ground (arith, h, on, below, low)
        | inl low ↦
            let same : x ≡ m * p =
              single m p x pos ((==_iff (x % p) 0).0 on) (leb→le (m * p) x low)
                (ltb→lt x (m * p + p) below) in
            cc ((==_iff x (m * p)).1 same, h)
      ]
    ]
  ]
]

pub count-pages_at :
    (n m p x : ℕ) → 1 ≤ p → count x (pages_at n (m * p) p) ≡ is_page p (m * p) (m * p + n * p) x
count-pages_at zero m p x pos = ground arith
count-pages_at (suc n) m p x pos = rw limit (
    rw (is_page-first m p (m * p + p + n * p) x pos (omega arith)) (
      ap (λ c. (if x == m * p then 1 else 0) + c)
        (subst (λ a. count x (pages_at n a p) ≡ is_page p a (a + n * p) x) next_page
          (count-pages_at n (suc m) p x pos))))
  where
    next_page : (suc m) * p ≡ m * p + p
    next_page = omega arith

    limit : m * p + suc n * p ≡ m * p + p + n * p
    limit = omega arith

add_pages_lem :
    (n fuel : ℕ) (s : RegularState) (addr p : ℕ)
    → 1 ≤ p
    → n < fuel
    → addr + n * p < 2 ^ 64
    → add_pages fuel s addr (addr + n * p) p
      ≡ some (record s { available_p_addrs = s.available_p_addrs ++ pages_at n addr p })
unfolding add_pages add_regular_p_addr
add_pages_lem n zero s addr p pos more fits = absurd (omega arith)
add_pages_lem zero (suc fuel) s addr p pos more fits =
    rw over (
      ap (λ xs. some (record s { available_p_addrs = xs }))
        (sym (append-nil (s.available_p_addrs))))
  where
    over : ltb addr (addr + 0 * p) ≡ false
    over = ground arith
add_pages_lem (suc n) (suc fuel) s addr p pos more fits =
    rw (under, step, over)
      (add_pages_lem n fuel (add_regular_p_addr s addr) (addr + p) p pos (omega arith) (omega arith)
        ∙ ap (λ xs. some (record s { available_p_addrs = xs }))
            (append_assoc (s.available_p_addrs) (addr ∷ []) (pages_at n (addr + p) p)))
  where
    under : ltb addr (addr + suc n * p) ≡ true
    under = ground arith

    step : add_u64 addr p ≡ addr + p
    step = mod-eq_of_lt (omega arith)

    over : addr + suc n * p ≡ addr + p + n * p
    over = omega arith

pub pos-bytes_of_page : (k : ℕ) → k < 64 → 1 ≤ bytes_of_page k
pos-bytes_of_page k h = subst (λ n. 1 ≤ n) (sym whole) (one-le-pow k 2 (omega arith))
  where
    plain : 1 * 2 ^ k ≡ 2 ^ k
    plain = omega arith

    whole : bytes_of_page k ≡ 2 ^ k
    whole = ap (λ n. n % 2 ^ 64) plain ∙ mod-eq_of_lt (pow-lt-pow k 64 h)

-- A device with an empty memory of `n` pages has them all free, from the total on.
pub set_regular_address_lem :
    (s : RegularState) (addr n : ℕ)
    → s.log2_page_size < 64
    → s.available_p_addrs ≡ []
    → s.storage_size ≡ n * bytes_of_page (s.log2_page_size)
    → addr + s.storage_size < 2 ^ 64
    → set_regular_address s addr
      ≡ some (record s {
        initial_address = addr;
        available_p_addrs = pages_at n addr (bytes_of_page (s.log2_page_size));
      })
unfolding set_regular_address
set_regular_address_lem s addr n bound none_yet size fits =
    subst (λ e. add_pages (suc (e - addr)) start addr e p ≡ some (filled ([] ++ pages_at n addr p)))
      (sym over)
      (add_pages_lem n (suc (addr + n * p - addr)) start addr p pos (omega (arith, enough)) within
        ∙ ap (λ xs. some (filled (xs ++ pages_at n addr p))) none_yet)
  where
    p : ℕ
    p = bytes_of_page (s.log2_page_size)

    start : RegularState
    start = record s { initial_address = addr }

    filled : List ℕ → RegularState
    filled xs = record s { initial_address = addr; available_p_addrs = xs }

    pos : 1 ≤ bytes_of_page (s.log2_page_size)
    pos = pos-bytes_of_page (s.log2_page_size) bound

    enough : n * 1 ≤ n * bytes_of_page (s.log2_page_size)
    enough = mul-le-mul_left n pos

    within : addr + n * bytes_of_page (s.log2_page_size) < 2 ^ 64
    within = subst (λ a. addr + a < 2 ^ 64) size fits

    over : add_u64 addr (s.storage_size) ≡ addr + n * bytes_of_page (s.log2_page_size)
    over = ap (λ a. add_u64 addr a) size ∙ mod-eq_of_lt within
