-- ===== src/Distribute/Pages.antt =====
-- How many pages a range has, and how many each GPU gets.
use native.Mathlib.Decide.{dec_lt}
use native.Mathlib.Nat.{
  le-div_iff_mul-le, div-add-mod, mod-lt, mod-eq_of_lt, div-le_self, pow-le-pow_right,
}
use sampled_mgpu_sim.Prelude.{ℕ, ◌+◌, ◌-◌, ◌*◌, ◌/◌, ◌%◌, ◌^◌, ◌<◌, ◌≤◌, ◌≡◌, ap, ◌∙◌, arith}
use sampled_mgpu_sim.Distribute.{wrap, num_pages, num_gpus_to_use}

all_used : (pages gpus : ℕ) → 0 < pages / gpus → num_gpus_to_use pages gpus ≡ gpus
unfolding num_gpus_to_use
all_used pages gpus some_each = ground (arith, enough)
  where
    taken : gpus * (pages / gpus) ≤ pages
    taken = omega (arith, div-add-mod pages gpus)

    enough : gpus ≤ pages / (pages / gpus)
    enough = (le-div_iff_mul-le some_each).1 taken

none_used : (pages gpus : ℕ) → pages / gpus ≡ 0 → num_gpus_to_use pages gpus ≡ 0
unfolding num_gpus_to_use
none_used pages gpus none_each = ground arith

-- All GPUs share alike, or there are fewer pages than GPUs and none does.
pub shared_pages :
    (pages gpus : ℕ)
    → (num_gpus_to_use pages gpus ≤ gpus)
      × (pages / gpus * num_gpus_to_use pages gpus + pages % gpus ≡ pages)
shared_pages pages gpus = elim (dec_lt 0 (pages / gpus)) [
  | yes some_each ↦ with_all (all_used pages gpus some_each)
  | no none_each ↦ with_none (omega arith)
]
  where
    with_all :
        num_gpus_to_use pages gpus ≡ gpus
        → (num_gpus_to_use pages gpus ≤ gpus)
          × (pages / gpus * num_gpus_to_use pages gpus + pages % gpus ≡ pages)
    with_all e = rw e (omega arith, omega (arith, div-add-mod pages gpus))

    with_none :
        pages / gpus ≡ 0
        → (num_gpus_to_use pages gpus ≤ gpus)
          × (pages / gpus * num_gpus_to_use pages gpus + pages % gpus ≡ pages)
    with_none e =
        rw (none_used pages gpus e)
          (omega arith, (omega (arith, e, div-add-mod pages gpus, ap (λ q. gpus * q) e)))

pub rounded_up :
    (byte_size page : ℕ)
    → 0 < byte_size
    → byte_size < 2 ^ 64
    → 0 < page
    → (byte_size ≤ num_pages byte_size page * page)
      × (num_pages byte_size page * page < byte_size + page)
unfolding num_pages wrap
rounded_up byte_size page h k pos_page = (
  omega (arith, whole, pred, part, mod-lt (byte_size - 1) pos_page),
  omega (arith, whole, pred, part),
)
  where
    pred : (byte_size + 2 ^ 64 - 1) % 2 ^ 64 / page ≡ (byte_size - 1) / page
    pred = ap (λ n. n / page) (omega arith)

    no_wrap : ((byte_size + 2 ^ 64 - 1) % 2 ^ 64 / page + 1) % 2 ^ 64 ≡ (byte_size - 1) / page + 1
    no_wrap =
        ap (λ q. (q + 1) % 2 ^ 64) pred
        ∙ mod-eq_of_lt (omega (arith, div-le_self (byte_size - 1) page))

    whole :
        ((byte_size + 2 ^ 64 - 1) % 2 ^ 64 / page + 1) % 2 ^ 64 * page
        ≡ (byte_size - 1) / page * page + page
    whole = ap (λ q. q * page) no_wrap ∙ omega arith

    part : page * ((byte_size - 1) / page) + (byte_size - 1) % page ≡ byte_size - 1
    part = div-add-mod (byte_size - 1) page

pub page_bounds : (k : ℕ) → k < 64 → (0 < 2 ^ k) × (2 ^ k < 2 ^ 64)
page_bounds k h = (low, omega (arith, high))
  where
    two : 0 < 2
    two = omega arith

    least : 0 ≤ k
    least = omega arith

    most : k ≤ 63
    most = omega arith

    low : 2 ^ 0 ≤ 2 ^ k
    low = pow-le-pow_right two least

    high : 2 ^ k ≤ 2 ^ 63
    high = pow-le-pow_right two most
