-- ===== src/Directory/Recency.antt =====
-- The queue of a set after visits has the ways by the last visit of each.
use sampled_mgpu_sim.Prelude.{
  ℕ, ◌≡◌, refl, sym, ap, ap₂, subst, ◌≢◌, inl, inr, Bool, true, false, ◌||◌, none, some, List, [],
  ◌∷◌, ◌++◌, arith, ◌==◌, if◌then◌else◌, Bool-cases, ==_iff, ◌>>=◌, All,
}
use mathlib.Core.List.{append_assoc, append-nil}
use sampled_mgpu_sim.Prelude.{◌∙◌}
use sampled_mgpu_sim.Directory.{remove_way, visit_queue}

abbrev pub has : ℕ → List ℕ → Bool
has way [] = false
has way (x ∷ xs) = x == way || has way xs

abbrev pub IsDistinct : List ℕ → Type 0
IsDistinct [] = Unit
IsDistinct (x ∷ xs) = (has x xs ≡ false) × IsDistinct xs

abbrev without : ℕ → List ℕ → List ℕ
without way [] = []
without way (x ∷ xs) = if x == way then without way xs else x ∷ without way xs

-- The visits one after the other.
abbrev pub visit_all : (ways queue : List ℕ) → List ℕ
visit_all [] queue = queue
visit_all (way ∷ ways) queue = visit_all ways (visit_queue way queue)

-- The ways of the queue that no visit is to, and the visited ones, each where its last visit is.
abbrev pub unvisited : (ways queue : List ℕ) → List ℕ
unvisited ways [] = []
unvisited ways (x ∷ xs) = if has x ways then unvisited ways xs else x ∷ unvisited ways xs

abbrev pub last_visits : List ℕ → List ℕ
last_visits [] = []
last_visits (way ∷ ways) = if has way ways then last_visits ways else way ∷ last_visits ways

without-absent : (way : ℕ) (xs : List ℕ) → has way xs ≡ false → without way xs ≡ xs
without-absent way [] h = refl
without-absent way (x ∷ xs) h = ground (arith, without-absent way xs)

remove_way-without :
    (way : ℕ) (xs : List ℕ)
    → IsDistinct xs
    → has way xs ≡ true
    → remove_way way xs ≡ some (without way xs)
unfolding remove_way
remove_way-without way [] d h = ground arith
remove_way-without way (x ∷ xs) (new, d) h = elim (Bool-cases (x == way)) [
  | inl e ↦
      let it : x ≡ way = (==_iff x way).0 e in
      rw e (ap some (sym (without-absent way xs (subst (λ w. has w xs ≡ false) it new))))
  | inr e ↦
      rw e
        (ap (λ o. o >>= (λ ys. some (x ∷ ys))) (remove_way-without way xs d (ground (arith, e, h))))
]

visit_queue-without :
    (way : ℕ) (xs : List ℕ)
    → IsDistinct xs
    → has way xs ≡ true
    → visit_queue way xs ≡ without way xs ++ (way ∷ [])
unfolding visit_queue
visit_queue-without way xs d h =
    ap (λ o. elim o [ none ↦ xs | some rest ↦ rest ++ (way ∷ []) ]) (remove_way-without way xs d h)

has-append : (w way : ℕ) (xs : List ℕ) → has w (xs ++ (way ∷ [])) ≡ (has w xs || way == w)
has-append w way [] = ground arith
has-append w way (x ∷ xs) = ground (arith, has-append w way xs)

has-without : (w way : ℕ) (xs : List ℕ) → w ≢ way → has w (without way xs) ≡ has w xs
has-without w way [] h = refl
has-without w way (x ∷ xs) h = ground (arith, has-without w way xs h)

has-without_self : (way : ℕ) (xs : List ℕ) → has way (without way xs) ≡ false
has-without_self way [] = refl
has-without_self way (x ∷ xs) = ground (arith, has-without_self way xs)

-- A visit keeps the ways of the queue, each once.
has-visited :
    (w way : ℕ) (xs : List ℕ) → has way xs ≡ true → has w (without way xs ++ (way ∷ [])) ≡ has w xs
has-visited w way xs h = elim (Bool-cases (way == w)) [
  | inl e ↦
      let it : way ≡ w = (==_iff way w).0 e in
      has-append w way (without way xs) ∙ ground (arith, e, subst (λ v. has v xs ≡ true) it h)
  | inr e ↦
      has-append w way (without way xs)
      ∙ ground (arith, e, has-without w way xs (λ q. ground (arith, e)))
]

IsDistinct-append :
    (way : ℕ) (xs : List ℕ) → IsDistinct xs → has way xs ≡ false → IsDistinct (xs ++ (way ∷ []))
IsDistinct-append way [] d h = (refl, tt)
IsDistinct-append way (x ∷ xs) (new, d) h =
    (has-append x way xs ∙ ground (arith, new), IsDistinct-append way xs d (ground (arith, h)))

IsDistinct-without : (way : ℕ) (xs : List ℕ) → IsDistinct xs → IsDistinct (without way xs)
IsDistinct-without way [] d = tt
IsDistinct-without way (x ∷ xs) (new, d) = elim (Bool-cases (x == way)) [
  | inl e ↦ rw e (IsDistinct-without way xs d)
  | inr e ↦ rw e (has-without x way xs (λ q. ground (arith, e)) ∙ new, IsDistinct-without way xs d)
]

unvisited-append :
    (ways xs ys : List ℕ) → unvisited ways (xs ++ ys) ≡ unvisited ways xs ++ unvisited ways ys
unvisited-append ways [] ys = refl
unvisited-append ways (x ∷ xs) ys = elim (Bool-cases (has x ways)) [
  | inl e ↦ rw e (unvisited-append ways xs ys)
  | inr e ↦ rw e (ap (λ zs. x ∷ zs) (unvisited-append ways xs ys))
]

unvisited-without :
    (way : ℕ) (ways xs : List ℕ) → unvisited ways (without way xs) ≡ unvisited (way ∷ ways) xs
unvisited-without way ways [] = refl
unvisited-without way ways (x ∷ xs) = elim (Bool-cases (x == way)) [
  | inl e ↦
      let back : (way == x) ≡ true = ground (arith, e) in
      rw (e, back) (unvisited-without way ways xs)
  | inr e ↦
      let back : (way == x) ≡ false = ground (arith, e) in
      rw (e, back) (ap (λ zs. if has x ways then zs else x ∷ zs) (unvisited-without way ways xs))
]

unvisited-nil : (xs : List ℕ) → unvisited [] xs ≡ xs
unvisited-nil [] = refl
unvisited-nil (x ∷ xs) = ap (λ ys. x ∷ ys) (unvisited-nil xs)

All-visited :
    (way : ℕ) (xs ways : List ℕ)
    → has way xs ≡ true
    → All (λ w. has w xs ≡ true) ways
    → All (λ w. has w (without way xs ++ (way ∷ [])) ≡ true) ways
All-visited way xs [] h all = tt
All-visited way xs (w ∷ ways) h (first, rest) =
    (has-visited w way xs h ∙ first, All-visited way xs ways h rest)

-- A visited way stands last, unless a later visit moves it.
last_visits-first :
    (way : ℕ) (ways : List ℕ)
    → unvisited ways (way ∷ []) ++ last_visits ways ≡ last_visits (way ∷ ways)
last_visits-first way ways = elim (Bool-cases (has way ways)) [
  | inl e ↦ rw e refl
  | inr e ↦ rw e refl
]

-- For a queue in which no way stands twice, and visits to ways of it: the queue after the visits has
-- first the ways without a visit, in their order, and then the visited ones by their last visits.
pub visit_all-recency :
    (ways queue : List ℕ)
    → IsDistinct queue
    → All (λ way. has way queue ≡ true) ways
    → visit_all ways queue ≡ unvisited ways queue ++ last_visits ways
visit_all-recency [] queue d all = sym (append-nil (unvisited [] queue) ∙ unvisited-nil queue)
visit_all-recency (way ∷ ways) queue d (first, rest) =
    ap (visit_all ways) (visit_queue-without way queue d first)
    ∙ visit_all-recency ways (without way queue ++ (way ∷ []))
        (IsDistinct-append way (without way queue) (IsDistinct-without way queue d)
          (has-without_self way queue))
        (All-visited way queue ways first rest)
    ∙ ap (λ xs. xs ++ last_visits ways) (unvisited-append ways (without way queue) (way ∷ []))
    ∙ append_assoc (unvisited ways (without way queue)) (unvisited ways (way ∷ []))
        (last_visits ways)
    ∙ ap₂ (λ xs ys. xs ++ ys) (unvisited-without way ways queue) (last_visits-first way ways)
