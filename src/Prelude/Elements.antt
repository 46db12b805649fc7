-- ===== src/Prelude/Elements.antt =====
-- The elements of a `container/list`, each under the number that stands for its address, and looking
-- one up after each change of the list.
use Prim.Native.Nat.{ℕ}
use mathlib.Core.Path.{◌≡◌, refl}
use mathlib.Core.Logic.{◌≢◌, ◌⊎◌, inl, inr}
use mathlib.Core.List.{List, [], ◌∷◌, ◌++◌}
use mathlib.Core.Option.{Option, none, some}
use native.Mathlib.Omega.{arith}
use sampled_mgpu_sim.Prelude.Tests.{◌==◌, if◌then◌else◌, Bool-cases, ==_refl, ==_iff}

-- Writing a key of a Go map, or deleting it.
abbrev pub put {ℓ} : {A : Type ℓ} → (ℕ → A) → ℕ → A → ℕ → A
put m key value k = if k == key then value else m k

-- What a written map gives.
pub put-cases {ℓ} :
    {A : Type ℓ} (m : ℕ → A) (key : ℕ) (value : A) (k : ℕ) {x : A}
    → put m key value k ≡ x
    → ((k ≡ key) × (value ≡ x)) ⊎ ((k ≢ key) × (m k ≡ x))
put-cases m key value k e = elim (Bool-cases (k == key)) [
  | inl h ↦ inl ((==_iff k key).0 h, cc (e, h))
  | inr h ↦ inr ((λ q. ground arith), cc (e, h))
]

module _ {ℓ} {A : Type ℓ} where
  -- `elem.Value`, `elem.Value = value` and `list.Remove(elem)`.
  unfoldable pub element : ℕ → List (ℕ × A) → Option A
  element id [] = none
  element id ((n, value) ∷ entries) = if id == n then some value else element id entries

  unfoldable pub set_element : ℕ → A → List (ℕ × A) → List (ℕ × A)
  set_element id value [] = []
  set_element id value ((n, old) ∷ entries) =
      let rest = set_element id value entries in
      if id == n then (n, value) ∷ entries else (n, old) ∷ rest

  unfoldable pub remove_element : ℕ → List (ℕ × A) → List (ℕ × A)
  remove_element id [] = []
  remove_element id ((n, value) ∷ entries) =
      let rest = remove_element id entries in if id == n then entries else (n, value) ∷ rest

  pub element-append_new :
      (n : ℕ) (value : A) (entries : List (ℕ × A))
      → element n entries ≡ none
      → element n (entries ++ ((n, value) ∷ [])) ≡ some value
  unfolding element
  element-append_new n value [] e = rw (==_refl n) refl
  element-append_new n value ((m, old) ∷ entries) e = elim (Bool-cases (n == m)) [
    | inl h ↦ ground (arith, h)
    | inr h ↦ rw h (element-append_new n value entries (cc (e, h)))
  ]

  pub element-append_ne :
      (id n : ℕ) (value : A) (entries : List (ℕ × A))
      → id ≢ n
      → element id (entries ++ ((n, value) ∷ [])) ≡ element id entries
  unfolding element
  element-append_ne id n value [] h = ground arith
  element-append_ne id n value ((m, old) ∷ entries) h =
      ground (arith, element-append_ne id n value entries h)

  pub element-set_self :
      (id : ℕ) (value : A) (entries : List (ℕ × A)) {old : A}
      → element id entries ≡ some old
      → element id (set_element id value entries) ≡ some value
  unfolding element set_element
  element-set_self id value [] e = ground arith
  element-set_self id value ((m, last) ∷ entries) {old} e = elim (Bool-cases (id == m)) [
    | inl h ↦ rw h (rw h refl)
    | inr h ↦ rw h (rw h (element-set_self id value entries {old = old} (cc (e, h))))
  ]

  pub element-set_ne :
      (other id : ℕ) (value : A) (entries : List (ℕ × A))
      → other ≢ id
      → element other (set_element id value entries) ≡ element other entries
  unfolding element set_element
  element-set_ne other id value [] h = refl
  element-set_ne other id value ((m, last) ∷ entries) h =
      ground (arith, element-set_ne other id value entries h)

  pub element-remove_ne :
      (other id : ℕ) (entries : List (ℕ × A))
      → other ≢ id
      → element other (remove_element id entries) ≡ element other entries
  unfolding element remove_element
  element-remove_ne other id [] h = refl
  element-remove_ne other id ((m, last) ∷ entries) h =
      ground (arith, element-remove_ne other id entries h)
