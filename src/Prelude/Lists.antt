-- ===== src/Prelude/Lists.antt =====
-- Lists measured and indexed by native numbers, under the library's names.
use Prim.Native.Nat.{ℕ, zero, suc, ◌+◌, ◌≤◌, ◌<◌}
use mathlib.Core.Logic.{◌≢◌}
use mathlib.Core.Path.{◌≡◌, refl, ap}
use mathlib.Core.Bool.{Bool, false, ◌||◌}
use mathlib.Core.List.{List, [], ◌∷◌, ◌++◌, map}
use mathlib.Core.Option.{Option, none, some}
use native.Mathlib.Omega.{arith}
use rra_module.Prelude.Tests.{if◌then◌else◌}

module _ {ℓ} {A : Type ℓ} where
  abbrev pub length : List A → ℕ
  length [] = 0
  length (x ∷ xs) = suc (length xs)

  abbrev pub get_elem? : List A → ℕ → Option A
  get_elem? [] i = none
  get_elem? (x ∷ xs) zero = some x
  get_elem? (x ∷ xs) (suc i) = get_elem? xs i

  -- A write out of bounds changes nothing.
  abbrev pub set : List A → ℕ → A → List A
  set [] i v = []
  set (x ∷ xs) zero v = v ∷ xs
  set (x ∷ xs) (suc i) v = x ∷ set xs i v

  abbrev pub take : ℕ → List A → List A
  take zero xs = []
  take (suc n) [] = []
  take (suc n) (x ∷ xs) = x ∷ take n xs

  abbrev pub drop : ℕ → List A → List A
  drop zero xs = xs
  drop (suc n) [] = []
  drop (suc n) (x ∷ xs) = drop n xs

  abbrev pub any : (A → Bool) → List A → Bool
  any p [] = false
  any p (x ∷ xs) = p x || any p xs

  -- Python's `[x for x in xs if p(x)]`.
  abbrev pub select : (A → Bool) → List A → List A
  select p [] = []
  select p (x ∷ xs) = if p x then x ∷ select p xs else select p xs

  pub length-append : (xs ys : List A) → length (xs ++ ys) ≡ length xs + length ys
  length-append [] ys = omega arith
  length-append (x ∷ xs) ys = omega (arith, length-append xs ys)

  pub get_elem?-lt : (xs : List A) (i : ℕ) {v : A} → get_elem? xs i ≡ some v → i < length xs
  get_elem?-lt [] i h = cc
  get_elem?-lt (x ∷ xs) zero h = omega arith
  get_elem?-lt (x ∷ xs) (suc i) h = omega (arith, get_elem?-lt xs i h)

  pub le-get_elem?-none : (xs : List A) (i : ℕ) → get_elem? xs i ≡ none → length xs ≤ i
  le-get_elem?-none [] i h = omega arith
  le-get_elem?-none (x ∷ xs) zero h = cc
  le-get_elem?-none (x ∷ xs) (suc i) h = omega (arith, le-get_elem?-none xs i h)

-- A predicate of every element, by recursion, so that it computes to a tuple.
abbrev pub Each {ℓ κ} : {A : Type ℓ} → (A → Type κ) → List A → Type κ
Each P [] = Unit
Each P (x ∷ xs) = P x × Each P xs

pub Each-map {ℓ κ μ} :
    {A : Type ℓ} (P : A → Type κ) (Q : A → Type μ) (xs : List A)
    → ((x : A) → P x → Q x)
    → Each P xs
    → Each Q xs
Each-map P Q [] f h = tt
Each-map P Q (x ∷ xs) f h = (f x h.0, Each-map P Q xs f h.1)

module _ {ℓ κ} {A : Type ℓ} (P : A → Type κ) where
  pub Each-append : (xs ys : List A) → Each P xs → Each P ys → Each P (xs ++ ys)
  Each-append [] ys front back = back
  Each-append (x ∷ xs) ys front back = (front.0, Each-append xs ys front.1 back)

  pub Each-middle : (xs ys : List A) (v : A) → Each P (xs ++ v ∷ ys) → P v
  Each-middle [] ys v h = h.0
  Each-middle (x ∷ xs) ys v h = Each-middle xs ys v h.1

  pub Each-set : (xs : List A) (i : ℕ) (v : A) → Each P xs → P v → Each P (set xs i v)
  Each-set [] i v h p = h
  Each-set (x ∷ xs) zero v h p = (p, h.1)
  Each-set (x ∷ xs) (suc i) v h p = (h.0, Each-set xs i v h.1 p)

  pub Each-get_elem? : (xs : List A) (i : ℕ) {v : A} → Each P xs → get_elem? xs i ≡ some v → P v
  Each-get_elem? [] i h e = cc
  Each-get_elem? (x ∷ xs) zero h e = ground (arith, h.0)
  Each-get_elem? (x ∷ xs) (suc i) h e = Each-get_elem? xs i h.1 e

pub length-map {ℓ κ} :
    {A : Type ℓ} {B : Type κ} (f : A → B) (xs : List A) → length (map f xs) ≡ length xs
length-map f [] = refl
length-map f (x ∷ xs) = ap suc (length-map f xs)

-- The number is none of the list's.
abbrev pub Absent : ℕ → List ℕ → Type 0
Absent t [] = Unit
Absent t (x ∷ xs) = (x ≢ t) × Absent t xs

-- No number stands twice.
abbrev pub AreDistinct : List ℕ → Type 0
AreDistinct [] = Unit
AreDistinct (x ∷ xs) = Absent x xs × AreDistinct xs

module _ {ℓ κ} {A : Type ℓ} where
  pub Each-take : (P : A → Type κ) (n : ℕ) (xs : List A) → Each P xs → Each P (take n xs)
  Each-take P zero xs h = tt
  Each-take P (suc n) [] h = tt
  Each-take P (suc n) (x ∷ xs) h = (h.0, Each-take P n xs h.1)

pub map-take {ℓ κ} :
    {A : Type ℓ} {B : Type κ} (f : A → B) (n : ℕ) (xs : List A)
    → map f (take n xs) ≡ take n (map f xs)
map-take f zero xs = refl
map-take f (suc n) [] = refl
map-take f (suc n) (x ∷ xs) = ap (λ t. f x ∷ t) (map-take f n xs)

pub take-length {ℓ} : {A : Type ℓ} (n : ℕ) (xs : List A) → n ≤ length xs → length (take n xs) ≡ n
take-length zero xs h = refl
take-length (suc n) [] h = absurd (omega arith)
take-length (suc n) (x ∷ xs) h = ap suc (take-length n xs (omega arith))

Absent-take : (t n : ℕ) (xs : List ℕ) → Absent t xs → Absent t (take n xs)
Absent-take t zero xs h = tt
Absent-take t (suc n) [] h = tt
Absent-take t (suc n) (x ∷ xs) h = (h.0, Absent-take t n xs h.1)

pub AreDistinct-take : (n : ℕ) (xs : List ℕ) → AreDistinct xs → AreDistinct (take n xs)
AreDistinct-take zero xs h = tt
AreDistinct-take (suc n) [] h = tt
AreDistinct-take (suc n) (x ∷ xs) h = (Absent-take x n xs h.0, AreDistinct-take n xs h.1)
