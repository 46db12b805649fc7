-- ===== src/Distribute/Tiling.antt =====
-- The calls of `Remap` cover the range of pages, one after the other.
use native.Mathlib.Nat.{mod-eq_of_lt, add-mul, mul-le-mul_right}
use sampled_mgpu_sim.Prelude.{
  ℕ, zero, suc, ◌+◌, ◌*◌, ◌^◌, ◌<◌, ◌≤◌, ◌≡◌, refl, sym, ap, ◌∙◌, subst, Option, some, List, [],
  ◌∷◌, ◌++◌, length, get_elem?, set, replicate, arith, get_elem?-some, store-some, length-set,
}
use sampled_mgpu_sim.Distribute.{Remap, Progress, wrap, remap, share, give_rest}

-- The calls begin at one address, each where the one before it ended, and end at the other.
abbrev pub Tiles : ℕ → List Remap → ℕ → Type 0
Tiles from [] to = from ≡ to
Tiles from (c ∷ cs) to = (c.address ≡ from) × Tiles (from + c.byte_size) cs to

abbrev pub sum : List ℕ → ℕ
sum [] = 0
sum (x ∷ xs) = x + sum xs

Tiles-append :
    (from to : ℕ) (cs : List Remap) (c : Remap)
    → Tiles from cs to
    → c.address ≡ to
    → Tiles from (cs ++ c ∷ []) (to + c.byte_size)
Tiles-append from to [] c h e = (e ∙ sym h, ap (λ a. a + c.byte_size) h)
Tiles-append from to (d ∷ cs) c h e = (h.0, Tiles-append (from + d.byte_size) to cs c h.1 e)

sum-set :
    (xs : List ℕ) (i k : ℕ) {x : ℕ} → get_elem? xs i ≡ some x → sum (set xs i (x + k)) ≡ sum xs + k
sum-set [] i k e = ground arith
sum-set (y ∷ xs) zero k e = ground arith
sum-set (y ∷ xs) (suc i) k e = omega (arith, sum-set xs i k e)

sum-get_elem? : (xs : List ℕ) (i : ℕ) {x : ℕ} → get_elem? xs i ≡ some x → x ≤ sum xs
sum-get_elem? [] i e = ground arith
sum-get_elem? (y ∷ xs) zero e = ground arith
sum-get_elem? (y ∷ xs) (suc i) e = omega (arith, sum-get_elem? xs i e)

pub sum-replicate : (n : ℕ) → sum (replicate n 0) ≡ 0
sum-replicate zero = refl
sum-replicate (suc n) = omega (arith, sum-replicate n)

pub wrap-eq : (n : ℕ) → n < 2 ^ 64 → wrap n ≡ n
unfolding wrap
wrap-eq n h = mod-eq_of_lt h

next_share : (i per page : ℕ) → (i + 1) * per * page ≡ i * per * page + per * page
next_share i per page = ap (λ m. m * page) (omega arith) ∙ add-mul (i * per) per page

below_share : (i n per page : ℕ) → i + 1 ≤ n → i * per * page + per * page ≤ n * per * page
below_share i n per page h =
    omega (arith, next_share i per page, mul-le-mul_right page (mul-le-mul_right per h))

-- The first `done` bytes of the range are mapped, and accounted to the GPUs.
module _ (addr page : ℕ) (gpus : List ℕ) where
  pub record IsMapped (p : Progress) (done : ℕ) : Type 0 where
    pub tiles : Tiles addr p.calls (addr + done)
    pub accounted : sum p.bytes ≡ done
    pub one_each : length p.bytes ≡ length gpus

  abbrev pub Mapped : Option Progress → ℕ → Type 0
  Mapped r done = (p : Progress) × (r ≡ some p) × IsMapped p done

  remap-IsMapped :
      (done size i : ℕ) (p : Progress)
      → IsMapped p done
      → addr + done + size < 2 ^ 64
      → i < length gpus
      → Mapped (remap addr page gpus done size i p) (done + size)
  unfolding remap
  remap-IsMapped done size i p h bound hi =
      let (gpu, eg) = get_elem?-some gpus i hi in
      let (b, eb) = get_elem?-some p.bytes i (omega (arith, h.one_each)) in
      let no_wrap = wrap-eq (b + size) (omega (arith, sum-get_elem? p.bytes i eb, h.accounted)) in
      let c : Remap = record { address = wrap (addr + done); byte_size = size; gpu_id = gpu } in
      (
        record { bytes = set p.bytes i (b + size); calls = p.calls ++ c ∷ [] },
        rw eg (
            rw eb
              (rw no_wrap (rw (store-some p.bytes i (b + size) (omega (arith, h.one_each))) refl))),
        record {
          tiles = subst (Tiles addr (p.calls ++ c ∷ [])) (omega arith) (
              Tiles-append addr (addr + done) p.calls c h.tiles
                (wrap-eq (addr + done) (omega arith)));
          accounted = sum-set p.bytes i size eb ∙ ap (λ n. n + size) h.accounted;
          one_each = length-set p.bytes i (b + size) ∙ h.one_each;
        },
      )

  pub share-IsMapped :
      (left i per : ℕ) (p : Progress)
      → IsMapped p (i * per * page)
      → left + i ≤ length gpus
      → addr + (left + i) * per * page < 2 ^ 64
      → Mapped (share addr page gpus left i per p) ((left + i) * per * page)
  unfolding share
  share-IsMapped zero i per p h fits bound =
      (p, refl, subst (IsMapped p) (ap (λ m. m * per * page) (omega arith)) h)
  share-IsMapped (suc left) i per p h fits bound =
      let below = below_share i (suc left + i) per page (omega arith) in
      let (p', run, h') =
        remap-IsMapped (i * per * page) (per * page) i p h (omega arith) (omega arith) in
      let (p'', run', h'') =
        share-IsMapped left (i + 1) per p' (subst (IsMapped p') (sym (next_share i per page)) h')
          (omega arith) (subst (λ m. addr + m * per * page < 2 ^ 64) (omega arith) bound) in
      (
        p'',
        rw (wrap-eq (i * per * page) (omega arith))
            (rw (wrap-eq (per * page) (omega arith)) (rw (run, share) run')),
        subst (λ m. IsMapped p'' (m * per * page)) (omega arith) h'',
      )

  pub give_rest-IsMapped :
      (left i first last_gpu : ℕ) (p : Progress)
      → IsMapped p ((first + i) * page)
      → last_gpu < length gpus
      → addr + (left + i + first) * page < 2 ^ 64
      → Mapped (give_rest addr page gpus left i first last_gpu p) ((left + i + first) * page)
  unfolding give_rest
  give_rest-IsMapped zero i first last_gpu p h fits bound =
      (p, refl, subst (λ m. IsMapped p (m * page)) (omega arith) h)
  give_rest-IsMapped (suc left) i first last_gpu p h fits bound =
      let below = below_page (first + i) (suc left + i + first) (omega arith) in
      let (p', run, h') =
        remap-IsMapped ((first + i) * page) page last_gpu p h (omega arith) fits in
      let (p'', run', h'') =
        give_rest-IsMapped left (i + 1) first last_gpu p'
          (subst (IsMapped p') (next_page (first + i) (first + (i + 1)) (omega arith)) h') fits
          (subst (λ m. addr + m * page < 2 ^ 64) (omega arith) bound) in
      (
        p'',
        rw (wrap-eq ((first + i) * page) (omega arith)) (rw (run, give_rest) run'),
        subst (λ m. IsMapped p'' (m * page)) (omega arith) h'',
      )
    where
      next_page : (k m : ℕ) → k + 1 ≡ m → k * page + page ≡ m * page
      next_page k m e = omega (arith, ap (λ x. x * page) e)

      below_page : (k n : ℕ) → k + 1 ≤ n → k * page + page ≤ n * page
      below_page k n le = omega (arith, mul-le-mul_right page le)
