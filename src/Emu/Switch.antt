-- ===== src/Emu/Switch.antt =====
-- Go's `switch inst.Opcode` over the handlers of an instruction format: a table in the order of
-- the cases, where no case (`log.Panicf`) is `none`.
use sampled_mgpu_sim.Prelude.{
  ℕ, zero, suc, ◌≤◌, ◌<◌, ◌≡◌, refl, sym, subst, ◌⊎◌, inl, inr, Bool, true, false, not, ◌&&◌,
  Option, none, some, List, [], ◌∷◌, arith, ltb, ◌==◌, if◌then◌else◌, Bool-cases, Option-cases,
  ltb→lt, ltb-false, ==_iff, ◌>>=◌, All,
}

module _ {ℓ} {A : Type ℓ} where
  abbrev pub switch : ℕ → List (ℕ × A) → Option A
  switch opcode [] = none
  switch opcode ((c, f) ∷ cases) = if opcode == c then some f else switch opcode cases

  -- What holds for each case holds for the one that is taken.
  pub switch-All {κ} :
      (P : ℕ → A → Type κ) (cases : List (ℕ × A)) (opcode : ℕ) {f : A}
      → All (λ c. P (c.0) (c.1)) cases
      → switch opcode cases ≡ some f
      → P opcode f
  switch-All P ((c, g) ∷ cases) opcode {f} (p, ps) e = elim (Bool-cases (opcode == c)) [
    | inl h ↦
        subst (P opcode) (cc (e, h)) (subst (λ m. P m g) (omega (arith, (==_iff opcode c).0 h)) p)
    | inr h ↦ switch-All P cases opcode ps (cc (e, h))
  ]
  switch-All P [] opcode ps e = ground arith

  abbrev pub is_case : ℕ → List (ℕ × A) → Bool
  is_case opcode cases = elim (switch opcode cases) [ some f ↦ true | none ↦ false ]

  abbrev pub all_under : ℕ → List (ℕ × A) → Bool
  all_under n [] = true
  all_under n ((c, f) ∷ cases) = ltb c n && all_under n cases

-- A test of the numbers below `n`, by evaluation.
abbrev pub all_opcodes : ℕ → (ℕ → Bool) → Bool
all_opcodes zero p = true
all_opcodes (suc n) p = p n && all_opcodes n p

pub all_opcodes-holds :
    (n : ℕ) (p : ℕ → Bool) (opcode : ℕ) → all_opcodes n p ≡ true → opcode < n → p opcode ≡ true
all_opcodes-holds zero p opcode h l = absurd (omega arith)
all_opcodes-holds (suc n) p opcode h l = elim (Bool-cases (opcode == n)) [
  | inl e ↦ rw ((==_iff opcode n).0 e) (ground arith)
  | inr e ↦ all_opcodes-holds n p opcode (ground arith) (ground arith)
]

abbrev pub same_bool : Bool → Bool → Bool
same_bool true b = b
same_bool false b = not b

-- A test that says of the opcodes below `n` which ones are cases, and of no other one that it is,
-- says it of them all, where the cases are below `n`.
module _ {ℓ} {A : Type ℓ} (cases : List (ℕ × A)) (implements : ℕ → Bool) (n : ℕ) where
  is_case-above :
      (cs : List (ℕ × A)) (opcode : ℕ)
      → all_under n cs ≡ true
      → n ≤ opcode
      → is_case opcode cs ≡ false
  is_case-above [] opcode small h = refl
  is_case-above ((c, f) ∷ cs) opcode small h =
      ground (arith, is_case-above cs opcode (ground arith) h)

  pub is_case-implements :
      all_opcodes n (λ o. same_bool (is_case o cases) (implements o)) ≡ true
      → all_under n cases ≡ true
      → ((opcode : ℕ) → n ≤ opcode → implements opcode ≡ false)
      → (opcode : ℕ) → is_case opcode cases ≡ implements opcode
  is_case-implements table small none_above opcode = elim (Bool-cases (ltb opcode n)) [
    | inl lt ↦ same_bool-eq (all_opcodes-holds n _ opcode table (ltb→lt opcode n lt))
    | inr ge ↦
        rw
          (
            is_case-above cases opcode small (ltb-false opcode n ge),
            none_above opcode (ltb-false opcode n ge),
          )
          refl
  ]
    where
      same_bool-eq : {a b : Bool} → same_bool a b ≡ true → a ≡ b
      same_bool-eq {a = true} {b} h = sym h
      same_bool-eq {a = false} {b = true} h = ground arith
      same_bool-eq {a = false} {b = false} h = refl

-- What a format does with an opcode: it refuses one that it does not implement, and gives a result
-- that is as `R` says on each other one.
abbrev pub Outcome : {L : Type 0} → Bool → (L → Type 0) → Option L → Type 0
Outcome {L} implements R result =
    ((implements ≡ false) × (result ≡ none))
    ⊎ ((implements ≡ true) × (after : L) × (result ≡ some after) × R after)

pub run-Outcome :
    {L : Type 0} (R : ℕ → L → Type 0) (cases : List (ℕ × (L → L))) (implements : ℕ → Bool) (sp : L)
    → ((opcode : ℕ) → is_case opcode cases ≡ implements opcode)
    → All (λ c. R (c.0) (c.1 sp)) cases
    → (opcode : ℕ)
    → Outcome (implements opcode) (R opcode) (switch opcode cases >>= λ handler. some (handler sp))
run-Outcome R cases implements sp covered all opcode = elim (Option-cases (switch opcode cases)) [
  | inl none_eq ↦ inl (cc (covered opcode, none_eq), cc none_eq)
  | inr (handler, found) ↦ inr (
    cc (covered opcode, found),
    handler sp,
    cc found,
    switch-All (λ c f. R c (f sp)) cases opcode all found,
  )
]
