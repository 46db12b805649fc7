-- ===== src/Dispatch/Greedy.antt =====
-- timing/cp/internal/dispatching/greedy.go: the greedy algorithm, which begins each search at the
-- first compute unit. It shares `Ops` and `DispatchLocation` with the round-robin algorithm.
use native.Mathlib.Nat.{mod-eq_of_lt}
use sampled_mgpu_sim.Prelude.{
  ℕ, zero, suc, ◌+◌, ◌%◌, ◌<◌, ◌≡◌, refl, ap, ◌∙◌, Option, none, some, Bool, List, [], ◌∷◌, length,
  get_elem?, set, length-set, ◌>>=◌, ltb, arith, Option-cases, inl, inr,
}
use sampled_mgpu_sim.Dispatch.{
  Ops, DispatchLocation, RoundRobin, dispatched, search_cu, fetch, next,
}

pub record Greedy (Cu Wg Builder : Type 0) : Type 0 where
  pub grid_builder : Builder
  pub cus : List Cu
  pub curr_wg : Option Wg
  pub num_dispatched_wgs : ℕ

module _ {Cu Wg Loc Builder Port : Type 0} (ops : Ops Cu Wg Loc Builder Port) where
  unfoldable pub greedy_has_next : Greedy Cu Wg Builder → Bool
  greedy_has_next a = ltb a.num_dispatched_wgs (ops.num_wg a.grid_builder)

  unfoldable pub greedy_start : Greedy Cu Wg Builder → Builder → Greedy Cu Wg Builder
  greedy_start a builder = record a { num_dispatched_wgs = 0; grid_builder = builder }

  unfoldable pub greedy_fetch : Greedy Cu Wg Builder → Option (Greedy Cu Wg Builder)
  greedy_fetch a = elim a.curr_wg [
    | some wg ↦ some a
    | none ↦ ops.next_wg a.grid_builder >>= λ found.
        some (record a { curr_wg = found.0; grid_builder = found.1 })
  ]

  unfoldable pub greedy_light_next : Greedy Cu Wg Builder → Option (Greedy Cu Wg Builder)
  greedy_light_next a = greedy_fetch a >>= λ b. elim b.cus [
    | [] ↦ some b
    | _ ∷ _ ↦ some (record b { curr_wg = none; num_dispatched_wgs = b.num_dispatched_wgs + 1 })
  ]

  -- The loop of `Next`, with the number of rounds that are left and the counter `i`.
  unfoldable pub search_greedy :
      ℕ
      → ℕ
      → Greedy Cu Wg Builder
      → Option (Option (DispatchLocation Wg Loc Port) × Greedy Cu Wg Builder)
  search_greedy zero i a = some (none, a)
  search_greedy (suc left) i a = get_elem? a.cus i >>= λ cu. a.curr_wg >>= λ wg.
      ops.reserve_resource_for_wg cu wg >>= λ answer. elim answer.0 [
        | none ↦ search_greedy left (i + 1) (record a { cus = set a.cus i answer.1 })
        | some locations ↦ some (
          some (record { cu = ops.dispatching_port cu; cu_id = i; wg = wg; locations = locations }),
          record a {
            cus = set a.cus i answer.1;
            curr_wg = none;
            num_dispatched_wgs = a.num_dispatched_wgs + 1;
          },
        )
      ]

  unfoldable pub greedy_next :
      Greedy Cu Wg Builder → Option (Option (DispatchLocation Wg Loc Port) × Greedy Cu Wg Builder)
  greedy_next a = greedy_fetch a >>= λ b. search_greedy (length b.cus) 0 b

  unfoldable pub greedy_free :
      Greedy Cu Wg Builder → DispatchLocation Wg Loc Port → Option (Greedy Cu Wg Builder)
  greedy_free a location = get_elem? a.cus location.cu_id >>= λ cu.
      ops.free_resources_for_wg cu location.wg >>= λ cu'.
      some (record a { cus = set a.cus location.cu_id cu' })

module _ {Cu Wg Builder : Type 0} where
  -- The same state with the round-robin algorithm, and back.
  abbrev pub rotating : ℕ → Greedy Cu Wg Builder → RoundRobin Cu Wg Builder
  rotating cu_id a = record {
    grid_builder = a.grid_builder;
    cus = a.cus;
    curr_wg = a.curr_wg;
    next_cu = cu_id;
    num_dispatched_wgs = a.num_dispatched_wgs;
  }

  abbrev pub resting : RoundRobin Cu Wg Builder → Greedy Cu Wg Builder
  resting a = record {
    grid_builder = a.grid_builder;
    cus = a.cus;
    curr_wg = a.curr_wg;
    num_dispatched_wgs = a.num_dispatched_wgs;
  }

  abbrev pub resting_result :
      {Loc Port : Type 0}
      → Option (Option (DispatchLocation Wg Loc Port) × RoundRobin Cu Wg Builder)
      → Option (Option (DispatchLocation Wg Loc Port) × Greedy Cu Wg Builder)
  resting_result none = none
  resting_result (some r) = some (r.0, resting r.1)

module _ {Cu Wg Loc Builder Port : Type 0} (ops : Ops Cu Wg Loc Builder Port) where
  search-resting :
      (left i : ℕ) (a : Greedy Cu Wg Builder)
      → left + i ≡ length a.cus
      → search_greedy ops left i a ≡ resting_result (search_cu ops left i (rotating 0 a))
  unfolding search_greedy search_cu dispatched
  search-resting zero i a h = refl
  search-resting (suc left) i a h =
      rw (at_i (omega arith)) (elim (Option-cases (get_elem? a.cus i)) [
        | inl e ↦ rw e refl
        | inr (cu, e) ↦ rw e (elim (Option-cases a.curr_wg) [
          | inl k ↦ rw k refl
          | inr (wg, k) ↦ rw k (elim (Option-cases (ops.reserve_resource_for_wg cu wg)) [
            | inl r ↦ rw r refl
            | inr ((none, cu'), r) ↦ rw r (
                rw (at_i (omega arith)) (
                  search-resting left (i + 1) (record a { cus = set a.cus i cu' })
                    (omega (arith, length-set a.cus i cu'))))
            | inr ((some locations, cu'), r) ↦ rw r (rw (at_i (omega arith)) refl)
          ])
        ])
      ])
    where
      at_i : i < length a.cus → (0 + i) % length a.cus ≡ i
      at_i lt = ap (λ n. n % length a.cus) (omega arith) ∙ mod-eq_of_lt lt

  -- `Next` of the greedy algorithm does what the round-robin algorithm does in the same state with
  -- `nextCU` at 0: the same panics, the same location, the same compute units and work-group after
  -- it. Only the place where the search begins next time is forgotten.
  pub greedy-next :
      (a : Greedy Cu Wg Builder) → greedy_next ops a ≡ resting_result (next ops (rotating 0 a))
  unfolding greedy_next greedy_fetch next fetch
  greedy-next a = elim (Option-cases a.curr_wg) [
    | inr (wg, k) ↦
        rw k (search-resting (length a.cus) 0 (record a { curr_wg = some wg }) (omega arith))
    | inl k ↦ rw k (elim (Option-cases (ops.next_wg a.grid_builder)) [
      | inl e ↦ rw e refl
      | inr (found, e) ↦ rw e (
          search-resting (length a.cus) 0 (record a { curr_wg = found.0; grid_builder = found.1 })
            (omega arith))
    ])
  ]
