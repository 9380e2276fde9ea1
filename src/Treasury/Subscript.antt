-- ===== src/Treasury/Subscript.antt =====
-- What a successful subscript of Python's lists says.
use rra_module.Prelude.{
  ℕ, zero, suc, ◌-◌, ◌≡◌, refl, ap, some, List, [], ◌∷◌, arith, get_elem?, set, length,
  Option-cases, inl, inr,
}
use rra_module.Prelude.Int.{ℤ, pos, negsuc}
use rra_module.Treasury.Voting.{subscript, at_position}

at_position-eq_some {ℓ} :
    {A : Type ℓ} (k : ℕ) (xs : List A) {i : ℕ} {x : A}
    → at_position k xs ≡ some (i, x)
    → get_elem? xs i ≡ some x
at_position-eq_some k xs h = elim (Option-cases (get_elem? xs k)) [
  | inl e ↦ ground arith
  | inr (y, e) ↦ ground arith
]

-- The item is the one at the position.
pub subscript-eq_some {ℓ} :
    {A : Type ℓ} (xs : List A) (k : ℤ) {i : ℕ} {x : A}
    → subscript xs k ≡ some (i, x)
    → get_elem? xs i ≡ some x
subscript-eq_some xs (pos k) h = at_position-eq_some k xs h
subscript-eq_some xs (negsuc k) h = ground (arith, at_position-eq_some (length xs - suc k) xs)

get_elem?-set_self {ℓ} :
    {A : Type ℓ} (xs : List A) (i : ℕ) {x : A} (v : A)
    → get_elem? xs i ≡ some x
    → get_elem? (set xs i v) i ≡ some v
get_elem?-set_self [] i v h = cc
get_elem?-set_self (x ∷ xs) zero v h = refl
get_elem?-set_self (x ∷ xs) (suc i) v h = get_elem?-set_self xs i v h

length-set {ℓ} : {A : Type ℓ} (xs : List A) (i : ℕ) (v : A) → length (set xs i v) ≡ length xs
length-set [] i v = refl
length-set (x ∷ xs) zero v = refl
length-set (x ∷ xs) (suc i) v = ap suc (length-set xs i v)

at_position-set {ℓ} :
    {A : Type ℓ} (k : ℕ) (xs : List A) {i : ℕ} {x : A} (v : A)
    → at_position k xs ≡ some (i, x)
    → at_position k (set xs i v) ≡ some (i, v)
at_position-set k xs v h = elim (Option-cases (get_elem? xs k)) [
  | inl e ↦ ground arith
  | inr (y, e) ↦ ground (arith, get_elem?-set_self xs k v e)
]

-- After a write at the position, the same subscript finds what was written.
pub subscript-set {ℓ} :
    {A : Type ℓ} (xs : List A) (k : ℤ) {i : ℕ} {x : A} (v : A)
    → subscript xs k ≡ some (i, x)
    → subscript (set xs i v) k ≡ some (i, v)
subscript-set xs (pos k) v h = at_position-set k xs v h
subscript-set xs (negsuc k) {i} {x} v h =
    ground (arith, length-set xs i v, at_position-set (length xs - suc k) xs {i = i} {x = x} v)
