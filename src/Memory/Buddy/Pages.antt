-- ===== src/Memory/Buddy/Pages.antt =====
-- The pages of a block: which level they take, and giving them back one by one.
use sampled_mgpu_sim.Prelude.{
  ℕ, zero, suc, ◌+◌, ◌-◌, ◌*◌, ◌%◌, ◌^◌, ◌≤◌, ◌<◌, ◌≡◌, refl, sym, ap, subst, inl, inr, false,
  Option, none, some, List, [], ◌∷◌, arith, ltb, ◌==◌, if◌then◌else◌, Bool-cases, ◌>>=◌, get_elem?,
  All,
}
use native.Mathlib.Nat.{mod-eq_of_lt}
use sampled_mgpu_sim.Prelude.{◌∙◌}
use sampled_mgpu_sim.Prelude.{replicate}
use sampled_mgpu_sim.Prelude.Elements.{put, element, set_element, element-set_self}
use sampled_mgpu_sim.Memory.Buddy.{
  BlockTracker, BuddyState, order_of_pages, find_block, track_pages, remove_tracked_page,
  add_tracked_p_addr, add_buddy_p_addr, free_block,
}
use sampled_mgpu_sim.Memory.Buddy.Level.{retrack}

-- The least order that holds the pages is found, and is at most any that does.
pub order_of_pages_lem :
    (j fuel order n : ℕ)
    → j < fuel
    → n * 4096 ≤ 2 ^ (order + j)
    → (found : ℕ) × (order_of_pages fuel order n ≡ some found)
      × (order ≤ found)
      × (found ≤ order + j)
unfolding order_of_pages
order_of_pages_lem j zero order n h fits = absurd (omega arith)
order_of_pages_lem zero (suc fuel) order n h fits =
    let enough : ltb (2 ^ order) (n * 4096) ≡ false =
      ground (arith, fits, ap (λ k. 2 ^ k) (plus_zero order)) in
    (order, rw enough refl, omega arith, omega arith)
  where
    plus_zero : (a : ℕ) → a + 0 ≡ a
    plus_zero a = omega arith
order_of_pages_lem (suc j) (suc fuel) order n h fits =
    elim (Bool-cases (ltb (2 ^ order) (n * 4096))) [
      | inr enough ↦ (order, rw enough refl, omega arith, omega arith)
      | inl more ↦
          let (found, e, low, high) =
            order_of_pages_lem j fuel (suc order) n (omega arith)
              (subst (λ k. n * 4096 ≤ 2 ^ k) (omega arith) fits) in
          (found, rw more e, omega arith, omega arith)
    ]

get_elem?-replicate : {A : Type 0} (n i : ℕ) (a : A) → i < n → get_elem? (replicate n a) i ≡ some a
get_elem?-replicate zero i a h = absurd (omega arith)
get_elem?-replicate (suc n) zero a h = refl
get_elem?-replicate (suc n) (suc i) a h = get_elem?-replicate n i a (omega arith)

-- With the first block free and nothing else, it is the nearest one to every level.
pub find_block-first :
    (k level block : ℕ)
    → level ≤ k
    → find_block ((block ∷ []) ∷ replicate k []) level ≡ some (0, block, [])
unfolding find_block
find_block-first k zero block h = refl
find_block-first k (suc level) block h =
    ap
      (λ o. o >>= (λ (free : List ℕ). elim free [
        | [] ↦ find_block ((block ∷ []) ∷ replicate k []) level
        | b ∷ rest ↦ some (suc level, b, rest)
      ]))
      (get_elem?-replicate k level [] (omega arith))
    ∙ find_block-first k level block (omega arith)

-- The addresses of `n` pages from `block` on.
abbrev pub pages_from : (n block : ℕ) → List ℕ
pages_from zero block = []
pages_from (suc n) block = block ∷ pages_from n (block + 4096)

-- Giving pages back one after the other.
abbrev pub free_all : List ℕ → BuddyState → Option BuddyState
free_all [] s = some s
free_all (addr ∷ addrs) s = add_buddy_p_addr s addr >>= free_all addrs

-- The addresses of the pages, each under the tracker; what is before the block is as it was.
pub record IsTracked (n block tracker : ℕ) (old : ℕ → Option ℕ) (r : List ℕ × (ℕ → Option ℕ))
    : Type 0 where
  pub addrs : r.0 ≡ pages_from n block
  pub before : (x : ℕ) → x < block → r.1 x ≡ old x
  pub tracked : All (λ a. r.1 a ≡ some tracker) (pages_from n block)

pub track_pages-IsTracked :
    (n block tracker : ℕ) (old : ℕ → Option ℕ)
    → block + n * 4096 < 2 ^ 64
    → IsTracked n block tracker old (track_pages n block tracker old)
unfolding track_pages
track_pages-IsTracked zero block tracker old h = record {
  addrs = refl;
  before = λ x p. refl;
  tracked = tt;
}
track_pages-IsTracked (suc n) block tracker old h =
    let rest : IsTracked n (block + 4096) tracker (put old block (some tracker))
        (track_pages n (block + 4096) tracker (put old block (some tracker))) =
      track_pages-IsTracked n (block + 4096) tracker (put old block (some tracker)) (omega arith) in
    subst
      (λ b. IsTracked (suc n) block tracker old (
        block ∷ (track_pages n b tracker (put old block (some tracker))).0,
        (track_pages n b tracker (put old block (some tracker))).1,
      ))
      (sym step)
      (record {
        addrs = ap (λ xs. block ∷ xs) (rest.addrs);
        before = λ x p. rest.before x (omega arith) ∙ ground arith;
        tracked = (rest.before block (omega arith) ∙ ground arith, rest.tracked);
      })
  where
    step : (block + 4096) % 2 ^ 64 ≡ block + 4096
    step = mod-eq_of_lt (omega arith)

-- The pages of a tracker that are still tracked: giving them back one by one frees the block with the
-- last one, and changes nothing but what is tracked.
All-put_before :
    (n block x num : ℕ) (tracking : ℕ → Option ℕ)
    → x < block
    → All (λ a. tracking a ≡ some num) (pages_from n block)
    → All (λ a. put tracking x none a ≡ some num) (pages_from n block)
All-put_before zero block x num tracking h all = tt
All-put_before (suc n) block x num tracking h (first, rest) =
    (ground (arith, first), All-put_before n (block + 4096) x num tracking (omega arith) rest)

bind-some : {A : Type 0} (m : Option A) → (m >>= (λ a. some a)) ≡ m
bind-some none = refl
bind-some (some a) = refl

-- One page of the `n + 1` that are left.
abbrev without : BuddyState → (block num n start : ℕ) → BuddyState
without t block num n start =
    retrack t (put (t.block_tracking) block none)
      (set_element num (record { num_of_pages = n; initial_addr = start }) (t.trackers)) (t.fresh)

add_buddy_p_addr_lem :
    (n block num start : ℕ) (t : BuddyState)
    → element num (t.trackers) ≡ some (record { num_of_pages = suc n; initial_addr = start })
    → t.block_tracking block ≡ some num
    → add_buddy_p_addr t block ≡ (
        if suc n == 1
        then free_block (without t block num n start) start
        else some (without t block num n start))
unfolding add_buddy_p_addr add_tracked_p_addr remove_tracked_page
add_buddy_p_addr_lem n block num start t e first =
    ap (λ o. elim o [ none ↦ some t | some n ↦ add_tracked_p_addr t block n ]) first
    ∙ ap (λ o. o >>= removed) e
    ∙ ap
        (λ k.
          if suc n == 1
          then free_block (without t block num k start) start
          else some (without t block num k start))
        less
  where
    removed : BlockTracker → Option BuddyState
    removed bt =
        let s1 : BuddyState = record t {
          block_tracking = put (t.block_tracking) block none;
          trackers =
              set_element num (record bt { num_of_pages = bt.num_of_pages - 1 }) (t.trackers);
        } in
        if bt.num_of_pages == 1 then free_block s1 (bt.initial_addr) else some s1

    less : suc n - 1 ≡ n
    less = omega arith

pub free_all_lem :
    (n block num start : ℕ) (t : BuddyState)
    → element num (t.trackers) ≡ some (record { num_of_pages = suc n; initial_addr = start })
    → All (λ a. t.block_tracking a ≡ some num) (pages_from (suc n) block)
    → (tracking : ℕ → Option ℕ) × (trackers : List (ℕ × BlockTracker)) × (free_all
          (pages_from (suc n) block)
          t
        ≡ free_block (retrack t tracking trackers (t.fresh)) start)
free_all_lem zero block num start t e (first, rest) = (
  put (t.block_tracking) block none,
  set_element num (record { num_of_pages = 0; initial_addr = start }) (t.trackers),
  ap (λ o. o >>= (λ s. some s)) (add_buddy_p_addr_lem 0 block num start t e first)
      ∙ bind-some (free_block (without t block num 0 start) start),
)
free_all_lem (suc n) block num start t e (first, rest) =
    let last : (suc (suc n) == 1) ≡ false = ground arith in
    let (tracking, trackers, freed) =
      free_all_lem n (block + 4096) num start (without t block num (suc n) start)
        (element-set_self num (record { num_of_pages = suc n; initial_addr = start }) (t.trackers)
          e)
        (All-put_before (suc n) (block + 4096) block num (t.block_tracking) (omega arith) rest) in
    (
      tracking,
      trackers,
      ap (λ o. o >>= free_all (pages_from (suc n) (block + 4096)))
            (add_buddy_p_addr_lem (suc n) block num start t e first
              ∙ ap
                  (λ b.
                    if b
                    then free_block (without t block num (suc n) start) start
                    else some (without t block num (suc n) start))
                  last)
          ∙ freed,
    )
