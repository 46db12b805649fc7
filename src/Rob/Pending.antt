-- ===== src/Rob/Pending.antt =====
-- A response from below finds the transaction that it answers, where the identifiers of the built
-- requests are new.
use sampled_mgpu_sim.Prelude.{
  ℕ, ◌≡◌, sym, ap, ◌≢◌, inl, inr, Option, none, some, List, [], ◌∷◌, ◌++◌, arith, ◌==◌, Bool-cases,
  ==_iff, All,
}
use sampled_mgpu_sim.Prelude.{◌∙◌}
use sampled_mgpu_sim.Prelude.Elements.{put, element, set_element}
use sampled_mgpu_sim.Rob.{Transaction, Rob, req_id}

-- The table names each transaction under the identifier of its request to the bottom.
abbrev pub AreNamed : (ℕ → Option ℕ) → List (ℕ × Transaction) → Type 0
AreNamed table = All (λ e. table (req_id (e.1.req_to_bottom)) ≡ some (e.0))

abbrev pub AreOther : ℕ → List (ℕ × Transaction) → Type 0
AreOther n = All (λ e. e.0 ≢ n)

abbrev pub AreDistinct : List (ℕ × Transaction) → Type 0
AreDistinct [] = Unit
AreDistinct ((n, t) ∷ xs) = AreOther n xs × AreDistinct xs

pub record IsListed (b : Rob) : Type 0 where
  pub named : AreNamed (b.table) (b.transactions)
  pub distinct : AreDistinct (b.transactions)

pub AreNamed-put_new :
    (table : ℕ → Option ℕ) (id n : ℕ) (xs : List (ℕ × Transaction))
    → table id ≡ none
    → AreNamed table xs
    → AreNamed (put table id (some n)) xs
AreNamed-put_new table id n [] h all = tt
AreNamed-put_new table id n ((m, t) ∷ xs) h (first, rest) = (
  elim (Bool-cases (req_id (t.req_to_bottom) == id)) [
    | inl e ↦ cc (first, h, (==_iff (req_id (t.req_to_bottom)) id).0 e)
    | inr e ↦ rw e first
  ],
  AreNamed-put_new table id n xs h rest,
)

pub AreNamed-append :
    (table : ℕ → Option ℕ) (n : ℕ) (t : Transaction) (xs : List (ℕ × Transaction))
    → table (req_id (t.req_to_bottom)) ≡ some n
    → AreNamed table xs
    → AreNamed table (xs ++ ((n, t) ∷ []))
AreNamed-append table n t [] h all = (h, tt)
AreNamed-append table n t ((m, u) ∷ xs) h (first, rest) =
    (first, AreNamed-append table n t xs h rest)

AreOther-append :
    (m n : ℕ) (t : Transaction) (xs : List (ℕ × Transaction))
    → n ≢ m
    → AreOther m xs
    → AreOther m (xs ++ ((n, t) ∷ []))
AreOther-append m n t [] h all = (h, tt)
AreOther-append m n t ((k, u) ∷ xs) h (first, rest) = (first, AreOther-append m n t xs h rest)

pub AreDistinct-append :
    (n : ℕ) (t : Transaction) (xs : List (ℕ × Transaction))
    → element n xs ≡ none
    → AreDistinct xs
    → AreDistinct (xs ++ ((n, t) ∷ []))
unfolding element
AreDistinct-append n t [] h all = (tt, tt)
AreDistinct-append n t ((k, u) ∷ xs) h (first, rest) = elim (Bool-cases (n == k)) [
  | inl e ↦ cc (h, e)
  | inr e ↦ (
    AreOther-append k n t xs (λ q. ground (arith, e)) first,
    AreDistinct-append n t xs (cc (h, e)) rest,
  )
]

AreOther-set :
    (m elem : ℕ) (t : Transaction) (xs : List (ℕ × Transaction))
    → AreOther m xs
    → AreOther m (set_element elem t xs)
unfolding set_element
AreOther-set m elem t [] all = tt
AreOther-set m elem t ((k, u) ∷ xs) (first, rest) = elim (Bool-cases (elem == k)) [
  | inl e ↦ rw e (first, rest)
  | inr e ↦ rw e (first, AreOther-set m elem t xs rest)
]

pub AreDistinct-set :
    (elem : ℕ) (t : Transaction) (xs : List (ℕ × Transaction))
    → AreDistinct xs
    → AreDistinct (set_element elem t xs)
unfolding set_element
AreDistinct-set elem t [] all = tt
AreDistinct-set elem t ((k, u) ∷ xs) (first, rest) = elim (Bool-cases (elem == k)) [
  | inl e ↦ rw e (first, rest)
  | inr e ↦ rw e (AreOther-set k elem t xs first, AreDistinct-set elem t xs rest)
]

pub AreNamed-set :
    (table : ℕ → Option ℕ) (elem : ℕ) (old new : Transaction) (xs : List (ℕ × Transaction))
    → element elem xs ≡ some old
    → new.req_to_bottom ≡ old.req_to_bottom
    → AreNamed table xs
    → AreNamed table (set_element elem new xs)
unfolding element set_element
AreNamed-set table elem old new [] h same all = tt
AreNamed-set table elem old new ((k, u) ∷ xs) h same (first, rest) = elim (Bool-cases (elem == k)) [
  | inl e ↦
      let it : u ≡ old = cc (h, e) in
      let ids : req_id (new.req_to_bottom) ≡ req_id (u.req_to_bottom) =
        ap req_id same ∙ ap (λ (t : Transaction). req_id (t.req_to_bottom)) (sym it) in
      rw e (ap table ids ∙ first, rest)
  | inr e ↦ rw e (first, AreNamed-set table elem old new xs (cc (h, e)) same rest)
]

pub AreNamed-delete :
    (table : ℕ → Option ℕ) (elem id : ℕ) (xs : List (ℕ × Transaction))
    → table id ≡ some elem
    → AreOther elem xs
    → AreNamed table xs
    → AreNamed (put table id none) xs
AreNamed-delete table elem id [] h others all = tt
AreNamed-delete table elem id ((k, t) ∷ xs) h (other, others) (first, rest) = (
  elim (Bool-cases (req_id (t.req_to_bottom) == id)) [
    | inl e ↦
        let same : k ≡ elem = cc (first, h, (==_iff (req_id (t.req_to_bottom)) id).0 e) in
        absurd (other same)
    | inr e ↦ rw e first
  ],
  AreNamed-delete table elem id xs h others rest,
)
