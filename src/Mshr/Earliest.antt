-- ===== src/Mshr/Earliest.antt =====
-- The available time is the earliest of the expected times, and an entry is there once.
use mathlib.Core.Option.{some-injective}
use sampled_mgpu_sim.Prelude.{
  ℕ, ◌+◌, ◌≤◌, ◌<◌, ◌≡◌, ◌⊎◌, inl, inr, refl, sym, ap, ◌∙◌, Option, none, some, List, [], ◌∷◌, ◌++◌,
  true, false, length, length-append, arith, leb, if◌then◌else◌, Bool-cases,
}
use sampled_mgpu_sim.Mshr.{
  Times, MshrEntry, Mshr, matches, query_entries, query, remove_entry, is_full, add, earliest_from,
  remove,
}

-- What the code relies on in the operations on times.
pub record IsTimes {T : Type 0} (times : Times T) : Type 0 where
  pub min_comm : (a b : T) → times.min_time a b ≡ times.min_time b a
  pub min_assoc :
      (a b c : T) → times.min_time (times.min_time a b) c ≡ times.min_time a (times.min_time b c)
  pub min_max : (a : T) → times.min_time a times.max_time ≡ a
  pub min_or : (a b : T) → (times.min_time a b ≡ a) ⊎ (times.min_time a b ≡ b)
  pub same_refl : (a : T) → times.same_time a a ≡ true

module _ {T : Type 0} (pid addr : ℕ) where
  query_hit :
      (x : MshrEntry T) (es : List (MshrEntry T)) {r : Option (MshrEntry T)}
      → matches pid addr x ≡ true
      → query_entries pid addr (x ∷ es) ≡ r
      → some x ≡ r
  unfolding query_entries
  query_hit x es hit h = sym (rw hit refl) ∙ h

  query_miss :
      (x : MshrEntry T) (es : List (MshrEntry T)) {r : Option (MshrEntry T)}
      → matches pid addr x ≡ false
      → query_entries pid addr (x ∷ es) ≡ r
      → query_entries pid addr es ≡ r
  unfolding query_entries
  query_miss x es miss h = sym (rw miss refl) ∙ h

  query-append :
      (es : List (MshrEntry T)) (e : MshrEntry T)
      → query_entries pid addr es ≡ none
      → matches pid addr e ≡ true
      → query_entries pid addr (es ++ e ∷ []) ≡ some e
  unfolding query_entries
  query-append [] e h hit = rw hit refl
  query-append (x ∷ es) e h hit =
      let rest = query-append es e in
      elim (Bool-cases (matches pid addr x)) [
        | inl yes_ ↦ cc (query_hit x es yes_ h)
        | inr no_ ↦ rw no_ (rest (query_miss x es no_ h) hit)
      ]

  remove-append :
      (es : List (MshrEntry T)) (e : MshrEntry T)
      → query_entries pid addr es ≡ none
      → matches pid addr e ≡ true
      → remove_entry pid addr (es ++ e ∷ []) ≡ es
  unfolding remove_entry
  remove-append [] e h hit = rw hit refl
  remove-append (x ∷ es) e h hit =
      let rest = remove-append es e in
      elim (Bool-cases (matches pid addr x)) [
        | inl yes_ ↦ cc (query_hit x es yes_ h)
        | inr no_ ↦ rw no_ (ap (λ ys. x ∷ ys) (rest (query_miss x es no_ h) hit))
      ]

  length-remove :
      (es : List (MshrEntry T)) {e : MshrEntry T}
      → query_entries pid addr es ≡ some e
      → length (remove_entry pid addr es) + 1 ≡ length es
  unfolding remove_entry query_entries
  length-remove [] h = ground arith
  length-remove (x ∷ es) {e} h = elim (Bool-cases (matches pid addr x)) [
    | inl yes_ ↦ rw yes_ (omega arith)
    | inr no_ ↦ rw no_ (omega (arith, length-remove es {e = e} (query_miss x es no_ h)))
  ]

module _ {T : Type 0} (times : Times T) where
  abbrev pub earliest : List (MshrEntry T) → T
  earliest [] = times.max_time
  earliest (e ∷ es) = times.min_time e.expected_time (earliest es)

  module _ (laws : IsTimes times) where
    earliest_from-min :
        (t : T) (es : List (MshrEntry T))
        → earliest_from times t es ≡ times.min_time t (earliest es)
    unfolding earliest_from
    earliest_from-min t [] = sym (laws.min_max t)
    earliest_from-min t (e ∷ es) =
        earliest_from-min (times.min_time e.expected_time t) es
        ∙ ap (λ u. times.min_time u (earliest es)) (laws.min_comm e.expected_time t)
        ∙ laws.min_assoc t e.expected_time (earliest es)

    earliest-append :
        (es : List (MshrEntry T)) (e : MshrEntry T)
        → earliest (es ++ e ∷ []) ≡ times.min_time (earliest es) e.expected_time
    earliest-append [] e =
        laws.min_max e.expected_time
        ∙ sym (laws.min_max e.expected_time)
        ∙ laws.min_comm e.expected_time times.max_time
    earliest-append (x ∷ es) e =
        ap (times.min_time x.expected_time) (earliest-append es e)
        ∙ sym (laws.min_assoc x.expected_time (earliest es) e.expected_time)

    earliest-remove :
        (pid addr : ℕ) (es : List (MshrEntry T)) {e : MshrEntry T}
        → query_entries pid addr es ≡ some e
        → earliest es ≡ times.min_time e.expected_time (earliest (remove_entry pid addr es))
    unfolding query_entries remove_entry
    earliest-remove pid addr [] h = ground arith
    earliest-remove pid addr (x ∷ es) {e} h =
        let rest = earliest-remove pid addr es in
        elim (Bool-cases (matches pid addr x)) [
          | inl hit ↦ rw hit (
              ap (λ y. times.min_time y.expected_time (earliest es))
                (some-injective x e (query_hit pid addr x es hit h)))
          | inr miss ↦ rw miss (
              ap (times.min_time x.expected_time) (rest (query_miss pid addr x es miss h))
              ∙ sym (
                  laws.min_assoc x.expected_time e.expected_time
                    (earliest (remove_entry pid addr es)))
              ∙ ap (λ t. times.min_time t (earliest (remove_entry pid addr es)))
                  (laws.min_comm x.expected_time e.expected_time)
              ∙ laws.min_assoc e.expected_time x.expected_time
                  (earliest (remove_entry pid addr es)))
        ]

    -- Whether the removed entry was the earliest or not, the time left is that of the others.
    time_left :
        (e : MshrEntry T) (left : List (MshrEntry T)) (available : T)
        → available ≡ times.min_time e.expected_time (earliest left)
        → (if times.same_time e.expected_time available
            then earliest_from times times.max_time left
            else available)
          ≡ earliest left
    time_left e left available h = elim (Bool-cases (times.same_time e.expected_time available)) [
      | inl was ↦ rw was (
          earliest_from-min times.max_time left
          ∙ laws.min_comm times.max_time (earliest left)
          ∙ laws.min_max (earliest left))
      | inr other ↦ rw other (elim (laws.min_or e.expected_time (earliest left)) [
        | inl k ↦ cc (laws.same_refl e.expected_time, h, k, other)
        | inr k ↦ h ∙ k
      ])
    ]

    -- The available time is the earliest, and there are no more entries than the capacity.
    pub record IsSound (m : Mshr T) : Type 0 where
      pub available : m.available_time ≡ earliest m.entries
      pub room : length m.entries ≤ m.capacity

    remove-run :
        (m : Mshr T) (pid addr : ℕ) {e : MshrEntry T} {left : List (MshrEntry T)}
        → query m pid addr ≡ some e
        → remove_entry pid addr m.entries ≡ left
        → m.available_time ≡ times.min_time e.expected_time (earliest left)
        → remove times m pid addr
          ≡ some (e, record m { entries = left; available_time = earliest left })
    unfolding remove
    remove-run m pid addr {e} {left} found rest h =
        rw found (rw rest (rw (time_left e left m.available_time h) refl))

    -- Removing an entry that is there does not panic and returns it. One entry fewer is left, and the
    -- available time is again the earliest expected time of those that are left.
    pub remove-IsSound :
        (m : Mshr T) (pid addr : ℕ) {e : MshrEntry T}
        → IsSound m
        → query m pid addr ≡ some e
        → (m' : Mshr T) × (remove times m pid addr ≡ some (e, m'))
          × IsSound m'
          × (length m'.entries + 1 ≡ length m.entries)
    unfolding query
    remove-IsSound m pid addr {e} sound found =
        let left = remove_entry pid addr m.entries in
        let fewer = length-remove pid addr m.entries found in
        (
          record m { entries = left; available_time = earliest left },
          remove-run m pid addr found refl
              (sound.available ∙ earliest-remove pid addr m.entries found),
          record { available = refl; room = omega (arith, fewer, sound.room) },
          fewer,
        )

    -- Adding an entry that is not there, with room for it, does not panic. The registers are sound
    -- after it, the entry is found, and removing it gives back the registers as they were.
    pub remove-add :
        (m : Mshr T) (pid addr : ℕ) (issue expected : T)
        → IsSound m
        → query m pid addr ≡ none
        → length m.entries < m.capacity
        → (e : MshrEntry T) × (m' : Mshr T) × (add times m pid addr issue expected ≡ some (e, m'))
          × IsSound m'
          × (query m' pid addr ≡ some e)
          × (remove times m' pid addr ≡ some (e, m))
    unfolding add query is_full matches
    remove-add m pid addr issue expected sound absent room =
        let e : MshrEntry T = record {
          pid = pid;
          address = addr;
          expected_time = expected;
          issue_time = issue;
        } in
        let m' : Mshr T = record m {
          entries = m.entries ++ e ∷ [];
          available_time = times.min_time m.available_time expected;
        } in
        let hit : matches pid addr e ≡ true = ground arith in
        let now = query-append pid addr m.entries e absent hit in
        let not_full : leb m.capacity (length m.entries) ≡ false = ground arith in
        (
          e,
          m',
          rw (absent, add) (rw not_full refl),
          record {
            available =
                ap (λ t. times.min_time t expected) sound.available
                ∙ sym (earliest-append m.entries e);
            room = omega (arith, room, length-append m.entries (e ∷ []));
          },
          now,
          remove-run m' pid addr now (remove-append pid addr m.entries e absent hit) (
                ap (λ t. times.min_time t expected) sound.available
                ∙ laws.min_comm (earliest m.entries) expected)
              ∙ ap (λ t. some (e, record m { available_time = t })) (sym sound.available),
        )
