-- ===== src/Dispatch/Search.antt =====
-- Which compute unit the round-robin algorithm chooses, and when it chooses none.
use native.Mathlib.Decide.{dec_lt}
use sampled_mgpu_sim.Prelude.{
  ℕ, zero, suc, ◌+◌, ◌%◌, ◌<◌, ◌≤◌, ◌≡◌, All, map, refl, sym, ap, ap₂, ◌∙◌, subst, Option, none,
  some, List, length, get_elem?, set, ◌>>=◌, arith, get_elem?-some, get_elem?-set_ne, length-set,
  All-set, All-get_elem?, map-set, get_elem?-map, set-get_elem?,
}
use sampled_mgpu_sim.Dispatch.{
  Ops, DispatchLocation, RoundRobin, fetch, dispatched, search_cu, next,
}
use sampled_mgpu_sim.Dispatch.Spot.{spot-lt, spot-ne, spot-cover}
use sampled_mgpu_sim.Dispatch.Laws.{Laws}

module _ {Cu Wg Loc Builder Port : Type 0} (ops : Ops Cu Wg Loc Builder Port) (laws : Laws ops)
    (a : RoundRobin Cu Wg Builder) (wg : Wg) where
  abbrev pub Refuses : ℕ → Type 0
  Refuses k =
      (cu : Cu) × (cu' : Cu) × (get_elem? a.cus k ≡ some cu)
      × (ops.reserve_resource_for_wg cu wg ≡ some (none, cu'))

  -- The algorithm with a work-group to place, and these compute units.
  abbrev pub waiting : List Cu → RoundRobin Cu Wg Builder
  waiting cus = record a { cus = cus; curr_wg = some wg }

  -- The result where the round `i` of `n` places the work-group.
  abbrev pub placed :
      ℕ
      → ℕ
      → List Cu
      → Cu
      → List Loc
      → Option (DispatchLocation Wg Loc Port) × RoundRobin Cu Wg Builder
  placed n i cus cu locations = (
    some (record {
      cu = ops.dispatching_port cu;
      cu_id = (a.next_cu + i) % n;
      wg = wg;
      locations = locations;
    }),
    record a {
      cus = cus;
      curr_wg = none;
      next_cu = ((a.next_cu + i) % n + 1) % n;
      num_dispatched_wgs = a.num_dispatched_wgs + 1;
    },
  )

  -- How `Next` ends, on compute units with the views that they had when it began: the first one from
  -- `nextCU` on that accepts takes the work-group, or every one refuses and the work-group is kept.
  pub data Result : Option (DispatchLocation Wg Loc Port) × RoundRobin Cu Wg Builder → Type 0 where
    taken :
        (i : ℕ) (cu cu' : Cu) (locations : List Loc) (cus : List Cu)
        → i < length a.cus
        → ((j : ℕ) → j < i → Refuses ((a.next_cu + j) % length a.cus))
        → get_elem? a.cus ((a.next_cu + i) % length a.cus) ≡ some cu
        → ops.reserve_resource_for_wg cu wg ≡ some (some locations, cu')
        → map laws.view_of cus
          ≡ set (map laws.view_of a.cus) ((a.next_cu + i) % length a.cus) (laws.view_of cu')
        → Result (placed (length a.cus) i cus cu locations)
    kept :
        (cus : List Cu)
        → ((k : ℕ) → k < length a.cus → Refuses k)
        → map laws.view_of cus ≡ map laws.view_of a.cus
        → Result (none, waiting cus)

  module _ (left i : ℕ) (cus : List Cu) (n : ℕ) (same : length cus ≡ n) {cu cu' : Cu}
      (here : get_elem? cus ((a.next_cu + i) % n) ≡ some cu) where
    search-refuses :
        ops.reserve_resource_for_wg cu wg ≡ some (none, cu')
        → search_cu ops (suc left) i (waiting cus)
          ≡ search_cu ops left (i + 1) (waiting (set cus ((a.next_cu + i) % n) cu'))
    unfolding search_cu
    search-refuses r =
        subst
          (λ m.
            get_elem? cus ((a.next_cu + i) % m) ≡ some cu
            → search_cu ops (suc left) i (waiting cus)
              ≡ search_cu ops left (i + 1) (waiting (set cus ((a.next_cu + i) % m) cu')))
          same (λ e. rw (e, search_cu) (rw (r, search_cu) refl)) here

    search-takes :
        {locations : List Loc}
        → ops.reserve_resource_for_wg cu wg ≡ some (some locations, cu')
        → search_cu ops (suc left) i (waiting cus)
          ≡ some (placed n i (set cus ((a.next_cu + i) % n) cu') cu locations)
    unfolding search_cu dispatched
    search-takes {locations} r =
        subst
          (λ m.
            get_elem? cus ((a.next_cu + i) % m) ≡ some cu
            → search_cu ops (suc left) i (waiting cus)
              ≡ some (placed m i (set cus ((a.next_cu + i) % m) cu') cu locations))
          same (λ e. rw (e, search_cu) (rw (r, search_cu) refl)) here

  -- The compute units in round `i`: those met have refused, the others are untouched.
  record InRound (i : ℕ) (cus : List Cu) : Type 0 where
    in_range : a.next_cu < length a.cus
    sound_before : All laws.IsSound a.cus
    fresh : All (λ cu. laws.IsNew cu wg) a.cus
    sound : All laws.IsSound cus
    same_length : length cus ≡ length a.cus
    views : map laws.view_of cus ≡ map laws.view_of a.cus
    ahead :
        (j : ℕ)
        → i ≤ j
        → j < length a.cus
        → get_elem? cus ((a.next_cu + j) % length a.cus)
          ≡ get_elem? a.cus ((a.next_cu + j) % length a.cus)
    behind : (j : ℕ) → j < i → Refuses ((a.next_cu + j) % length a.cus)

  all_refuse :
      {i : ℕ} {cus : List Cu}
      → InRound i cus
      → length a.cus ≤ i
      → (k : ℕ) → k < length a.cus
      → Refuses k
  all_refuse {i} h end k hk =
      let (j, hj, e) = spot-cover a.next_cu k (length a.cus) h.in_range hk in
      subst Refuses e (h.behind j (omega arith))

  next_round :
      {i : ℕ} {cus : List Cu}
      → InRound i cus
      → i < length a.cus
      → {cu cu' : Cu} → get_elem? a.cus ((a.next_cu + i) % length a.cus) ≡ some cu
      → ops.reserve_resource_for_wg cu wg ≡ some (none, cu')
      → laws.IsSound cu'
      → InRound (i + 1) (set cus ((a.next_cu + i) % length a.cus) cu')
  next_round {i} {cus} h hi {cu} {cu'} here r ok = record {
    in_range = h.in_range;
    sound_before = h.sound_before;
    fresh = h.fresh;
    sound = All-set laws.IsSound cus spot_i cu' ok h.sound;
    same_length = length-set cus spot_i cu' ∙ h.same_length;
    views =
        map-set laws.view_of cus spot_i cu'
        ∙ ap₂ (λ vs v. set vs spot_i v) h.views
            (laws.refusal cu wg cu' (All-get_elem? laws.IsSound a.cus spot_i h.sound_before here) r)
        ∙ set-get_elem? (map laws.view_of a.cus) spot_i (laws.view_of cu)
            (get_elem?-map laws.view_of a.cus spot_i here);
    ahead = λ j le lt.
        get_elem?-set_ne cus cu' (spot-ne a.next_cu i j (length a.cus) h.in_range (omega arith) lt)
        ∙ h.ahead j (omega arith) lt;
    behind = λ j lt. elim (dec_lt j i) [
      | yes earlier ↦ h.behind j earlier
      | no now ↦
          subst (λ m. Refuses ((a.next_cu + m) % length a.cus)) (here_now j lt now)
            (cu, cu', here, r)
    ];
  }
    where
      spot_i : ℕ
      spot_i = (a.next_cu + i) % length a.cus

      here_now : (j : ℕ) → j < i + 1 → ¬ (j < i) → i ≡ j
      here_now j lt now = omega arith

  abbrev pub Ends : ℕ → ℕ → List Cu → Type 0
  Ends left i cus =
      (r : Option (DispatchLocation Wg Loc Port) × RoundRobin Cu Wg Builder) × (search_cu ops left i
          (waiting cus)
        ≡ some r)
      × Result r
      × All laws.IsSound r.1.cus

  search-Ends :
      (left i : ℕ) (cus : List Cu) → left + i ≡ length a.cus → InRound i cus → Ends left i cus
  unfolding search_cu
  search-Ends zero i cus e h =
      ((none, waiting cus), refl, kept cus (all_refuse h (omega arith)) h.views, h.sound)
  search-Ends (suc left) i cus e h = go (search-Ends left (i + 1)) (
      laws.total cu wg (All-get_elem? laws.IsSound a.cus spot_i h.sound_before here.1)
        (All-get_elem? (λ c. laws.IsNew c wg) a.cus spot_i h.fresh here.1))
    where
      hi : i < length a.cus
      hi = omega arith

      spot_i : ℕ
      spot_i = (a.next_cu + i) % length a.cus

      here : (cu : Cu) × (get_elem? a.cus spot_i ≡ some cu)
      here = get_elem?-some a.cus spot_i (spot-lt a.next_cu i (length a.cus) h.in_range hi)

      cu : Cu
      cu = here.0

      here' : get_elem? cus spot_i ≡ some cu
      here' = h.ahead i (omega arith) hi ∙ here.1

      go :
          ((cus' : List Cu)
            → left + (i + 1) ≡ length a.cus
            → InRound (i + 1) cus'
            → Ends left (i + 1) cus')
          → ((answer : Option (List Loc)) × (cu' : Cu) × (ops.reserve_resource_for_wg cu wg
                ≡ some (answer, cu'))
              × laws.IsSound cu')
          → Ends (suc left) i cus
      go rest (none, cu', r, ok) =
          let (end, run, result, sound) =
            rest (set cus spot_i cu') (omega arith) (next_round h hi here.1 r ok) in
          (end, search-refuses left i cus (length a.cus) h.same_length here' r ∙ run, result, sound)
      go rest (some locations, cu', r, ok) = (
        placed (length a.cus) i (set cus spot_i cu') cu locations,
        search-takes left i cus (length a.cus) h.same_length here' r,
        taken i cu cu' locations (set cus spot_i cu') hi h.behind here.1 r (
            map-set laws.view_of cus spot_i cu'
            ∙ ap (λ vs. set vs spot_i (laws.view_of cu')) h.views),
        All-set laws.IsSound cus spot_i cu' ok h.sound,
      )

-- Let `b` be the algorithm after `Next` has fetched a work-group, or still has the one it kept, with
-- sound compute units, none of which holds the work-group. Then `Next` ends without a panic. Either it
-- places the work-group on the first compute unit from `nextCU` on that accepts it, each one before
-- having refused; what it counts as placed is one more, it has no work-group to place any more, and
-- the next search begins one further. Or every compute unit refuses; it returns a location that is
-- not valid and is `b` but for the compute units. The views of the compute units that refused or
-- were not asked, which are their masks, counts and reservations without the `nextSIMD`, are as
-- they were in `b`.
pub next-Ends :
    {Cu Wg Loc Builder Port : Type 0} (ops : Ops Cu Wg Loc Builder Port) (laws : Laws ops)
    (a : RoundRobin Cu Wg Builder) (b : RoundRobin Cu Wg Builder) (wg : Wg)
    → fetch ops a ≡ some b
    → b.curr_wg ≡ some wg
    → b.next_cu < length b.cus
    → All laws.IsSound b.cus
    → All (λ cu. laws.IsNew cu wg) b.cus
    → (r : Option (DispatchLocation Wg Loc Port) × RoundRobin Cu Wg Builder) × (next ops a ≡ some r)
      × Result ops laws b wg r
      × All laws.IsSound r.1.cus
unfolding next
next-Ends ops laws a b wg fetched curr in_range sound fresh =
    let (r, run, result, sound') =
      search-Ends ops laws b wg (length b.cus) 0 b.cus (omega arith) start in
    (
      r,
      ap (λ m. m >>= λ c. search_cu ops (length c.cus) 0 c) (fetched ∙ ap some (sym held)) ∙ run,
      result,
      sound',
    )
  where
    held : waiting ops laws b wg b.cus ≡ b
    held = λ i. record b { curr_wg = sym curr i }

    start : InRound ops laws b wg 0 b.cus
    start = record {
      in_range = in_range;
      sound_before = sound;
      fresh = fresh;
      sound = sound;
      same_length = refl;
      views = refl;
      ahead = λ j le lt. refl;
      behind = λ j lt. absurd (omega arith);
    }
