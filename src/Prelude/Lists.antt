-- ===== src/Prelude/Lists.antt =====
-- Go slices as lists with native indices, under the library's names.
use Prim.Native.Nat.{ℕ, zero, suc, ◌+◌, ◌<◌}
use mathlib.Core.Path.{◌≡◌, refl, sym, ap, subst}
use mathlib.Core.Logic.{◌≢◌}
use mathlib.Core.List.{List, [], ◌∷◌, ◌++◌, map}
use mathlib.Core.Option.{Option, none, some}
use native.Mathlib.Omega.{arith}

module _ {ℓ} {A : Type ℓ} where
  abbrev pub length : List A → ℕ
  length [] = 0
  length (x ∷ xs) = suc (length xs)

  abbrev pub get_elem? : List A → ℕ → Option A
  get_elem? [] i = none
  get_elem? (x ∷ xs) zero = some x
  get_elem? (x ∷ xs) (suc i) = get_elem? xs i

  -- A write out of bounds changes nothing; a caller that must panic there tests the index.
  abbrev pub set : List A → ℕ → A → List A
  set [] i v = []
  set (x ∷ xs) zero v = v ∷ xs
  set (x ∷ xs) (suc i) v = x ∷ set xs i v

  abbrev pub take : ℕ → List A → List A
  take zero xs = []
  take (suc n) [] = []
  take (suc n) (x ∷ xs) = x ∷ take n xs

  abbrev pub drop : ℕ → List A → List A
  drop zero xs = xs
  drop (suc n) [] = []
  drop (suc n) (x ∷ xs) = drop n xs

  abbrev pub replicate : ℕ → A → List A
  replicate zero a = []
  replicate (suc n) a = a ∷ replicate n a

  pub length-append : (xs ys : List A) → length (xs ++ ys) ≡ length xs + length ys
  length-append [] ys = omega arith
  length-append (x ∷ xs) ys = omega (arith, length-append xs ys)

  pub length-set : (xs : List A) (i : ℕ) (v : A) → length (set xs i v) ≡ length xs
  length-set [] i v = refl
  length-set (x ∷ xs) zero v = refl
  length-set (x ∷ xs) (suc i) v = ap suc (length-set xs i v)

  pub length-replicate : (n : ℕ) (a : A) → length (replicate n a) ≡ n
  length-replicate zero a = refl
  length-replicate (suc n) a = ap suc (length-replicate n a)

  pub get_elem?-lt : (xs : List A) (i : ℕ) {a : A} → get_elem? xs i ≡ some a → i < length xs
  get_elem?-lt [] i e = ground arith
  get_elem?-lt (x ∷ xs) zero e = omega arith
  get_elem?-lt (x ∷ xs) (suc i) e = omega (arith, get_elem?-lt xs i e)

  pub get_elem?-some : (xs : List A) (i : ℕ) → i < length xs → (a : A) × (get_elem? xs i ≡ some a)
  get_elem?-some [] i h = absurd (omega arith)
  get_elem?-some (x ∷ xs) zero h = (x, refl)
  get_elem?-some (x ∷ xs) (suc i) h = get_elem?-some xs i (omega arith)

  pub get_elem?-set_self :
      (xs : List A) (i : ℕ) (v : A) → i < length xs → get_elem? (set xs i v) i ≡ some v
  get_elem?-set_self [] i v h = absurd (omega arith)
  get_elem?-set_self (x ∷ xs) zero v h = refl
  get_elem?-set_self (x ∷ xs) (suc i) v h = get_elem?-set_self xs i v (omega arith)

  pub get_elem?-set_ne :
      (xs : List A) {i j : ℕ} (v : A) → i ≢ j → get_elem? (set xs i v) j ≡ get_elem? xs j
  get_elem?-set_ne [] v h = refl
  get_elem?-set_ne (x ∷ xs) {i = zero} {j = zero} v h = absurd (h refl)
  get_elem?-set_ne (x ∷ xs) {i = zero} {j = suc j} v h = refl
  get_elem?-set_ne (x ∷ xs) {i = suc i} {j = zero} v h = refl
  get_elem?-set_ne (x ∷ xs) {i = suc i} {j = suc j} v h = get_elem?-set_ne xs v (λ e. h (ap suc e))

  pub set-set_self : (xs : List A) (i : ℕ) (v w : A) → set (set xs i v) i w ≡ set xs i w
  set-set_self [] i v w = refl
  set-set_self (x ∷ xs) zero v w = refl
  set-set_self (x ∷ xs) (suc i) v w = ap (λ ys. x ∷ ys) (set-set_self xs i v w)

  pub set-set_comm :
      (xs : List A) (i j : ℕ) (v w : A) → i ≢ j → set (set xs i v) j w ≡ set (set xs j w) i v
  set-set_comm [] i j v w h = refl
  set-set_comm (x ∷ xs) zero zero v w h = absurd (h refl)
  set-set_comm (x ∷ xs) zero (suc j) v w h = refl
  set-set_comm (x ∷ xs) (suc i) zero v w h = refl
  set-set_comm (x ∷ xs) (suc i) (suc j) v w h =
      ap (λ ys. x ∷ ys) (set-set_comm xs i j v w (λ e. h (ap suc e)))

  pub set-get_elem? : (xs : List A) (i : ℕ) (v : A) → get_elem? xs i ≡ some v → set xs i v ≡ xs
  set-get_elem? [] i v e = refl
  set-get_elem? (x ∷ xs) zero v e = ground arith
  set-get_elem? (x ∷ xs) (suc i) v e = ap (λ ys. x ∷ ys) (set-get_elem? xs i v e)

  pub drop-length : (xs ys : List A) → drop (length xs) (xs ++ ys) ≡ ys
  drop-length [] ys = refl
  drop-length (x ∷ xs) ys = drop-length xs ys

module _ {ℓ} {A : Type ℓ} where
  abbrev pub modify : List A → ℕ → (A → A) → List A
  modify [] i f = []
  modify (x ∷ xs) zero f = f x ∷ xs
  modify (x ∷ xs) (suc i) f = x ∷ modify xs i f

  pub modify-set :
      (xs : List A) (i : ℕ) (f : A → A) {a : A}
      → get_elem? xs i ≡ some a
      → set xs i (f a) ≡ modify xs i f
  modify-set [] i f e = refl
  modify-set (x ∷ xs) zero f e = ground arith
  modify-set (x ∷ xs) (suc i) f e = ap (λ ys. x ∷ ys) (modify-set xs i f e)

  pub modify_comm :
      (xs : List A) (i j : ℕ) (f g : A → A)
      → ((a : A) → f (g a) ≡ g (f a))
      → modify (modify xs i f) j g ≡ modify (modify xs j g) i f
  modify_comm [] i j f g h = refl
  modify_comm (x ∷ xs) zero zero f g h = ap (λ y. y ∷ xs) (sym (h x))
  modify_comm (x ∷ xs) zero (suc j) f g h = refl
  modify_comm (x ∷ xs) (suc i) zero f g h = refl
  modify_comm (x ∷ xs) (suc i) (suc j) f g h = ap (λ ys. x ∷ ys) (modify_comm xs i j f g h)

  pub modify_cancel :
      (xs : List A) (i : ℕ) (f g : A → A)
      → ((a : A) → g (f a) ≡ a)
      → modify (modify xs i f) i g ≡ xs
  modify_cancel [] i f g h = refl
  modify_cancel (x ∷ xs) zero f g h = ap (λ y. y ∷ xs) (h x)
  modify_cancel (x ∷ xs) (suc i) f g h = ap (λ ys. x ∷ ys) (modify_cancel xs i f g h)

  pub length-modify : (xs : List A) (i : ℕ) (f : A → A) → length (modify xs i f) ≡ length xs
  length-modify [] i f = refl
  length-modify (x ∷ xs) zero f = refl
  length-modify (x ∷ xs) (suc i) f = ap suc (length-modify xs i f)

  -- A predicate by recursion, which the tactics read and build.
  abbrev pub All {κ} : (A → Type κ) → List A → Type κ
  All P [] = Unit
  All P (x ∷ xs) = P x × All P xs

pub length-map {ℓ κ} :
    {A : Type ℓ} {B : Type κ} (f : A → B) (xs : List A) → length (map f xs) ≡ length xs
length-map f [] = refl
length-map f (x ∷ xs) = ap suc (length-map f xs)

pub map-set {ℓ κ} :
    {A : Type ℓ} {B : Type κ} (f : A → B) (xs : List A) (i : ℕ) (v : A)
    → map f (set xs i v) ≡ set (map f xs) i (f v)
map-set f [] i v = refl
map-set f (x ∷ xs) zero v = refl
map-set f (x ∷ xs) (suc i) v = ap (λ ys. f x ∷ ys) (map-set f xs i v)

pub get_elem?-map {ℓ κ} :
    {A : Type ℓ} {B : Type κ} (f : A → B) (xs : List A) (i : ℕ) {a : A}
    → get_elem? xs i ≡ some a
    → get_elem? (map f xs) i ≡ some (f a)
get_elem?-map f [] i e = ground arith
get_elem?-map f (x ∷ xs) zero e = ground arith
get_elem?-map f (x ∷ xs) (suc i) e = get_elem?-map f xs i e

pub All-set {ℓ κ} :
    {A : Type ℓ} (P : A → Type κ) (xs : List A) (i : ℕ) (v : A)
    → P v
    → All P xs
    → All P (set xs i v)
All-set P [] i v p all = all
All-set P (x ∷ xs) zero v p all = (p, all.1)
All-set P (x ∷ xs) (suc i) v p all = (all.0, All-set P xs i v p all.1)

pub All-get_elem? {ℓ κ} :
    {A : Type ℓ} (P : A → Type κ) (xs : List A) (i : ℕ) {a : A}
    → All P xs
    → get_elem? xs i ≡ some a
    → P a
All-get_elem? P [] i all e = ground arith
All-get_elem? P (x ∷ xs) zero all e = subst P (ground arith) all.0
All-get_elem? P (x ∷ xs) (suc i) all e = All-get_elem? P xs i all.1 e
