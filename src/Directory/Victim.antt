-- ===== src/Directory/Victim.antt =====
-- The victim of a set by the last visits of its blocks.
use sampled_mgpu_sim.Prelude.{
  ℕ, ◌/◌, ◌%◌, ◌≤◌, ◌<◌, ◌≡◌, sym, ap, subst, inl, inr, true, ◌||◌, Option, none, some, List, [],
  ◌∷◌, ◌++◌, arith, ◌==◌, if◌then◌else◌, Bool-cases, ==_iff, ◌>>=◌, length, get_elem?, set, All,
}
use sampled_mgpu_sim.Prelude.{◌∙◌}
use sampled_mgpu_sim.Prelude.{
  >>=-eq-some, length-append, get_elem?-set_self, get_elem?-lt, set-set_self, set-get_elem?,
}
use sampled_mgpu_sim.Directory.{
  DirectorySet, Directory, get_set, find_lru_victim, find_victim, visit, visit_queue,
}
use sampled_mgpu_sim.Directory.Recency.{
  has, IsDistinct, visit_all, unvisited, last_visits, visit_all-recency,
}
use sampled_mgpu_sim.Directory.First.{IsVictim, find_lru_victim-IsVictim}

-- Visits to blocks of one set, one after the other.
abbrev pub visits : (ways : List ℕ) → Directory → (set_id : ℕ) → Option Directory
visits [] d set_id = some d
visits (way ∷ ways) d set_id = visit d set_id way >>= λ d1. visits ways d1 set_id

-- The directory with another queue in one set.
abbrev requeued : Directory → ℕ → DirectorySet → List ℕ → Directory
requeued d set_id stored queue = record d {
  sets = set (d.sets) set_id (record stored { lru_queue = queue });
}

visits-requeued :
    (ways : List ℕ) (d : Directory) (set_id : ℕ) (stored : DirectorySet)
    → get_elem? (d.sets) set_id ≡ some stored
    → visits ways d set_id ≡ some (requeued d set_id stored (visit_all ways (stored.lru_queue)))
unfolding visit
visits-requeued [] d set_id stored e =
    ap (λ sets. some (record d { sets = sets })) (sym (set-get_elem? (d.sets) set_id stored e))
visits-requeued (way ∷ ways) d set_id stored e =
    let once : Directory = requeued d set_id stored (visit_queue way (stored.lru_queue)) in
    ap
      (λ o.
        (o >>= (λ (t : DirectorySet). some (requeued d set_id t (visit_queue way (t.lru_queue)))))
        >>= (λ d1. visits ways d1 set_id))
      e
    ∙ visits-requeued ways once set_id
        (record stored { lru_queue = visit_queue way (stored.lru_queue) })
        (get_elem?-set_self (d.sets) set_id
          (record stored { lru_queue = visit_queue way (stored.lru_queue) })
          (get_elem?-lt (d.sets) set_id e))
    ∙ ap (λ sets. some (record d { sets = sets }))
        (set-set_self (d.sets) set_id
          (record stored { lru_queue = visit_queue way (stored.lru_queue) })
          (record stored { lru_queue = visit_all (way ∷ ways) (stored.lru_queue) }))

-- The set of an address is the one that stands under its number.
get_set-stored :
    (convert : ℕ → ℕ) (d : Directory) (addr : ℕ) (stored : DirectorySet) (set_id : ℕ)
    → get_set convert d addr ≡ some (stored, set_id)
    → (get_elem? (d.sets) set_id ≡ some stored)
      × ((queue : List ℕ)
          → get_set convert (requeued d set_id stored queue) addr
            ≡ some (record stored { lru_queue = queue }, set_id))
unfolding get_set
get_set-stored convert d addr stored set_id e =
    elim (Bool-cases (d.block_size == 0 || d.num_sets == 0)) [
      | inl h ↦ cc (e, h)
      | inr h ↦
          let looked_up : (get_elem? (d.sets) number >>= at_number) ≡ some (stored, set_id) =
            subst
              (λ b.
                (if b then none else (get_elem? (d.sets) number >>= at_number))
                ≡ some (stored, set_id))
              h e in
          let (t, found, last) = >>=-eq-some (get_elem? (d.sets) number) at_number looked_up in
          let it : t ≡ stored = cc last in
          let there : number ≡ set_id = cc last in
          let stands : get_elem? (d.sets) set_id ≡ some stored =
            sym (ap (λ k. get_elem? (d.sets) k) there) ∙ found ∙ ap some it in
          (
            stands,
            λ queue.
                ap
                  (λ b.
                    if b
                    then none
                    else (get_elem? (set (d.sets) set_id (record stored { lru_queue = queue }))
                          number
                        >>= at_number))
                  h
                ∙ ap
                    (λ k.
                      get_elem? (set (d.sets) set_id (record stored { lru_queue = queue })) k
                      >>= (λ (t : DirectorySet). some (t, k)))
                    there
                ∙ ap (λ o. o >>= (λ (t : DirectorySet). some (t, set_id)))
                    (get_elem?-set_self (d.sets) set_id (record stored { lru_queue = queue })
                      (get_elem?-lt (d.sets) set_id stands)),
          )
    ]
  where
    number : ℕ
    number = convert addr / d.block_size % d.num_sets

    at_number : DirectorySet → Option (DirectorySet × ℕ)
    at_number t = some (t, number)

All-unvisited : (P : ℕ → Type 0) (ways queue : List ℕ) → All P queue → All P (unvisited ways queue)
All-unvisited P ways [] all = tt
All-unvisited P ways (x ∷ xs) (first, rest) = elim (Bool-cases (has x ways)) [
  | inl e ↦ rw e (All-unvisited P ways xs rest)
  | inr e ↦ rw e (first, All-unvisited P ways xs rest)
]

All-last_visits : (P : ℕ → Type 0) (ways : List ℕ) → All P ways → All P (last_visits ways)
All-last_visits P [] all = tt
All-last_visits P (x ∷ xs) (first, rest) = elim (Bool-cases (has x xs)) [
  | inl e ↦ rw e (All-last_visits P xs rest)
  | inr e ↦ rw e (first, All-last_visits P xs rest)
]

All-append : (P : ℕ → Type 0) (xs ys : List ℕ) → All P xs → All P ys → All P (xs ++ ys)
All-append P [] ys all more = more
All-append P (x ∷ xs) ys (first, rest) more = (first, All-append P xs ys rest more)

All-has : (P : ℕ → Type 0) (way : ℕ) (queue : List ℕ) → All P queue → has way queue ≡ true → P way
All-has P way [] all h = ground arith
All-has P way (x ∷ xs) (first, rest) h = elim (Bool-cases (x == way)) [
  | inl e ↦ subst P ((==_iff x way).0 e) first
  | inr e ↦ All-has P way xs rest (ground (arith, e, h))
]

All-ways :
    (P : ℕ → Type 0) (ways queue : List ℕ)
    → All P queue
    → All (λ way. has way queue ≡ true) ways
    → All P ways
All-ways P [] queue all h = tt
All-ways P (way ∷ ways) queue all (first, rest) =
    (All-has P way queue all first, All-ways P ways queue all rest)

last_visits-some : (way : ℕ) (ways : List ℕ) → has way ways ≡ true → 1 ≤ length (last_visits ways)
last_visits-some way [] h = ground arith
last_visits-some way (x ∷ xs) h = elim (Bool-cases (has x xs)) [
  | inl e ↦ rw e (last_visits-some x xs e)
  | inr e ↦ rw e (omega arith)
]

order-some :
    (ways queue : List ℕ) → 1 ≤ length queue → 1 ≤ length (unvisited ways queue ++ last_visits ways)
order-some ways [] h = absurd (omega arith)
order-some ways (x ∷ xs) h = elim (Bool-cases (has x ways)) [
  | inl e ↦ rw e (
      omega
        (arith, length-append (unvisited ways xs) (last_visits ways), last_visits-some x ways e))
  | inr e ↦ rw e (omega arith)
]

-- For an address whose set is `stored`, where the queue has some ways, each once and each with a
-- block: after visits to blocks of the queue, the victim for the address is found, and with the ways
-- in the order of their last visits, those without a visit first as they stood, it is the first block
-- that is neither valid nor locked; where there is none, the first that is not locked; and where all
-- are locked, the first.
pub find_victim-IsVictim :
    (convert : ℕ → ℕ) (d : Directory) (addr set_id : ℕ) (stored : DirectorySet) (ways : List ℕ)
    → get_set convert d addr ≡ some (stored, set_id)
    → IsDistinct (stored.lru_queue)
    → All (λ way. way < length (stored.blocks)) (stored.lru_queue)
    → 1 ≤ length (stored.lru_queue)
    → All (λ way. has way (stored.lru_queue) ≡ true) ways
    → (visited : Directory) × (visits ways d set_id ≡ some visited)
      × (way : ℕ) × (find_victim convert visited addr ≡ some way)
      × IsVictim (stored.blocks) (unvisited ways (stored.lru_queue) ++ last_visits ways) way
unfolding find_victim
find_victim-IsVictim convert d addr set_id stored ways e distinct within some_way known =
    let (stands, again) = get_set-stored convert d addr stored set_id e in
    let order : List ℕ = unvisited ways (stored.lru_queue) ++ last_visits ways in
    let recent : visit_all ways (stored.lru_queue) ≡ order =
      visit_all-recency ways (stored.lru_queue) distinct known in
    let (way, found, victim) =
      find_lru_victim-IsVictim (record stored { lru_queue = order })
        (All-append (λ way. way < length (stored.blocks)) (unvisited ways (stored.lru_queue))
          (last_visits ways)
          (All-unvisited (λ way. way < length (stored.blocks)) ways (stored.lru_queue) within)
          (All-last_visits (λ way. way < length (stored.blocks)) ways
            (All-ways (λ way. way < length (stored.blocks)) ways (stored.lru_queue) within known)))
        (order-some ways (stored.lru_queue) some_way) in
    (
      requeued d set_id stored order,
      visits-requeued ways d set_id stored stands
          ∙ ap (λ queue. some (requeued d set_id stored queue)) recent,
      way,
      ap (λ o. o >>= (λ (t : DirectorySet × ℕ). find_lru_victim (t.0))) (again order) ∙ found,
      victim,
    )
