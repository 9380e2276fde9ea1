-- ===== src/Sharing/Arithmetic.antt =====
-- The arithmetic of `ShamirSecretSharing` in src/rra/crypto/shamir.py, modulo a positive number.
use rra_module.Prelude.{
  ℕ, suc, ◌+◌, ◌-◌, ◌*◌, ◌%◌, ◌^◌, true, false, List, [], ◌∷◌, map, same_number,
}
use rra_module.Prelude.Int.{pos, ◌-ℤ◌, ◌*ℤ◌, mod_ℤ}

-- `_evaluate_polynomial`; the loop over the reversed coefficients is a recursion on them.
unfoldable pub evaluate_polynomial : ℕ → List ℕ → ℕ → ℕ
evaluate_polynomial p [] x = 0
evaluate_polynomial p (c ∷ cs) x = (evaluate_polynomial p cs x * x + c) % p

-- `pow(a, n, p)`
unfoldable pub pow : ℕ → ℕ → ℕ → ℕ
pow a n p = a ^ n % p

-- `prefix[n - 1]`, where the product so far is `first`.
unfoldable pub last_prefix : ℕ → ℕ → List ℕ → ℕ
last_prefix p first [] = first
last_prefix p first (v ∷ vs) = last_prefix p ((first * v) % p) vs

-- Step 3 of `_batch_modular_inverse`, from the last value to the second; `first` is the prefix
-- before the list. It gives the inverses found, and `inv_all` after the loop.
unfoldable pub walk_back : ℕ → ℕ → List ℕ → ℕ → ℕ × List ℕ
walk_back p first [] inv_all = (inv_all, [])
walk_back p first (v ∷ vs) inv_all =
    let (inv, inverses) = walk_back p ((first * v) % p) vs inv_all in
    ((inv * v) % p, (inv * first) % p ∷ inverses)

-- `_batch_modular_inverse`
unfoldable pub batch_modular_inverse : ℕ → List ℕ → List ℕ
unfolding pow last_prefix walk_back
batch_modular_inverse p [] = []
batch_modular_inverse p (v ∷ []) = pow v (p - 2) p ∷ []
batch_modular_inverse p (v ∷ w ∷ vs) =
    let (inv, inverses) = walk_back p v (w ∷ vs) (pow (last_prefix p v (w ∷ vs)) (p - 2) p) in
    inv ∷ inverses

-- The inner loop of `_lagrange_interpolate`, at j.
unfoldable pub product_row : ℕ → ℕ → ℕ → ℕ → ℕ → List (ℕ × ℕ) → ℕ × ℕ → ℕ × ℕ
unfolding ◌-ℤ◌ ◌*ℤ◌ mod_ℤ
product_row p x i x_i j [] (numerator, denominator) = (numerator, denominator)
product_row p x i x_i j ((x_j, y_j) ∷ points) (numerator, denominator) = elim (same_number i j) [
  | true ↦ product_row p x i x_i (suc j) points (numerator, denominator)
  | false ↦ product_row p x i x_i (suc j) points (
    mod_ℤ (pos numerator *ℤ (pos x -ℤ pos x_j)) p,
    mod_ℤ (pos denominator *ℤ (pos x_i -ℤ pos x_j)) p,
  )
]

-- The outer loop, from i on: each point's numerator and denominator.
unfoldable pub product_rows : ℕ → ℕ → List (ℕ × ℕ) → ℕ → List (ℕ × ℕ) → List (ℕ × ℕ)
unfolding product_row
product_rows p x points i [] = []
product_rows p x points i ((x_i, y_i) ∷ rest) =
    product_row p x i x_i 0 points (1, 1) ∷ product_rows p x points (suc i) rest

-- The last loop, over lists of the same length.
unfoldable pub combine : ℕ → List (ℕ × ℕ) → List ℕ → List ℕ → ℕ → ℕ
combine p ((x_i, y_i) ∷ points) (numerator ∷ numerators) (inverse ∷ inverses) result =
    combine p points numerators inverses ((result + (y_i * numerator * inverse) % p) % p)
combine p _ _ _ result = result

-- `_lagrange_interpolate`
unfoldable pub lagrange_interpolate : ℕ → ℕ → List (ℕ × ℕ) → ℕ
unfolding product_rows batch_modular_inverse combine
lagrange_interpolate p x points =
    let rows = product_rows p x points 0 points in
    combine p points (map (λ (r : ℕ × ℕ). r.0) rows)
      (batch_modular_inverse p (map (λ (r : ℕ × ℕ). r.1) rows)) 0
