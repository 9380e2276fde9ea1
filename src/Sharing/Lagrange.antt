-- ===== src/Sharing/Lagrange.antt =====
-- `_lagrange_interpolate` of shamir.py gives the constant of a polynomial from enough of its points.
use native.Mathlib.Nat.{mod-lt, mod-eq_of_lt, zero-mod}
use native.Mathlib.Nat
use mathlib.Core.List.{append_assoc}
use rra_module.Prelude.{
  ℕ, suc, ◌+◌, ◌*◌, ◌%◌, ◌≤◌, ◌<◌, ◌≡◌, ◌≢◌, refl, sym, ◌∙◌, ap, List, [], ◌∷◌, ◌++◌, Each,
  Each-map, map, length, length-append, length-map, arith, Absent, AreDistinct,
}
use rra_module.Sharing.Ring.{Ring, eq_of_difference}
use rra_module.Sharing.Interpolation.{
  AreApart, IsUnit, product, horner, constant, lagrange, lagrange-horner,
}
use rra_module.Sharing.Modular.{
  Residue-eq, residue, residue-mod, residue-add, residue-mul, residues,
}
use rra_module.Sharing.Inverses.{
  IsFermat, power, power-IsUnit, mul-ne_zero, batch_modular_inverse-powers,
}
use rra_module.Sharing.Products.{nodes, row-others, combine-lagrange}
use rra_module.Sharing.Arithmetic.{
  evaluate_polynomial, product_rows, combine, batch_modular_inverse, lagrange_interpolate,
}

module _ (p : ℕ) (large : 1 < p) where
  abbrev R : Ring
  R = residues p large

  open R use {K, ◌⊕◌, ◌⊗◌, neg, nil, one, add_comm, nil_add, mul_comm, one_mul}

  infixl 65 ◌⊕◌
  infixl 70 ◌⊗◌
  IsUnit-ne_zero : (a : K) → IsUnit R (power p large) a → a.0 ≢ 0
  IsUnit-ne_zero a h e =
      let none : (a.0 * (power p large a).0) % p ≡ 0 =
        ap (λ t. (t * (power p large a).0) % p) e
        ∙ ap (λ t. t % p) (Nat.zero-mul (power p large a).0)
        ∙ zero-mod p in
      let both : 1 ≡ 0 = sym (ap (λ t. t.0) h ∙ mod-eq_of_lt large) ∙ none in
      absurd (omega (arith, both))

  pub evaluate_polynomial-horner :
      (cs : List ℕ) (x : ℕ)
      → residue p large (evaluate_polynomial p cs x)
        ≡ horner R (power p large) (map (residue p large) cs) (residue p large x)
  unfolding evaluate_polynomial horner
  evaluate_polynomial-horner [] x = refl
  evaluate_polynomial-horner (c ∷ cs) x =
      let r = residue p large in
      let e = evaluate_polynomial p cs x in
      residue-mod p large (e * x + c)
      ∙ residue-add p large (e * x) c
      ∙ add_comm (r (e * x)) (r c)
      ∙ ap (λ t. r c ⊕ t)
          (residue-mul p large e x
            ∙ mul_comm (r e) (r x)
            ∙ ap (λ t. r x ⊗ t) (evaluate_polynomial-horner cs x))

  combine-lt :
      (points : List (ℕ × ℕ)) (ns vs : List ℕ) (result : ℕ)
      → result < p
      → combine p points ns vs result < p
  unfolding combine
  combine-lt [] ns vs result h = h
  combine-lt ((x, y) ∷ points) [] vs result h = h
  combine-lt ((x, y) ∷ points) (n ∷ ns) [] result h = h
  combine-lt ((x, y) ∷ points) (n ∷ ns) (v ∷ vs) result h =
      combine-lt points ns vs ((result + (y * n * v) % p) % p)
        (mod-lt (result + (y * n * v) % p) (omega arith))

  pub lagrange_interpolate-lt : (points : List (ℕ × ℕ)) → lagrange_interpolate p 0 points < p
  unfolding lagrange_interpolate
  lagrange_interpolate-lt points = combine-lt points _ _ 0 (omega arith)

  module _ (fermat : IsFermat p) where
    product-ne_zero :
        (a : K) (xs : List K)
        → Each (λ x. IsUnit R (power p large) (a ⊕ neg x)) xs
        → (product R (power p large) a xs).0 ≢ 0
    unfolding product
    product-ne_zero a [] h = λ e. absurd (omega (arith, sym (mod-eq_of_lt large) ∙ e))
    product-ne_zero a (x ∷ xs) h =
        let d = a ⊕ neg x in
        let q = product R (power p large) a xs in
        mul-ne_zero p large fermat d.0 q.0 (λ e. IsUnit-ne_zero d h.0 (sym (mod-eq_of_lt d.1) ∙ e))
          (λ e. product-ne_zero a xs h.1 (sym (mod-eq_of_lt q.1) ∙ e))

    -- No denominator is a multiple of the modulus.
    pub denominators-ne_zero :
        (all done todo : List (ℕ × ℕ)) (i : ℕ)
        → all ≡ done ++ todo
        → i ≡ length done
        → AreApart R (power p large) (nodes p large all)
        → Each (λ v. v % p ≢ 0) (map (λ (r : ℕ × ℕ). r.1) (product_rows p 0 all i todo))
    unfolding product_rows
    denominators-ne_zero all done [] i whole at apart = tt
    denominators-ne_zero all done ((x, y) ∷ todo) i whole at apart =
        let (en, den, units) = row-others p large done todo all x y i whole at apart in
        (
          λ e.
              product-ne_zero (residue p large x) (nodes p large done ++ nodes p large todo) units (
                sym (
                  ap (λ t. t.0)
                    (den
                      ∙ one_mul (
                          product R (power p large) (residue p large x)
                            (nodes p large done ++ nodes p large todo))))
                ∙ e),
          denominators-ne_zero all (done ++ (x, y) ∷ []) todo (suc i)
              (whole ∙ sym (append_assoc done ((x, y) ∷ []) todo))
              (omega (arith, length-append done ((x, y) ∷ []))) apart,
        )

    -- Numbers below the modulus, all distinct, have invertible differences.
    difference-IsUnit :
        (x y : ℕ)
        → x < p
        → y < p
        → x ≢ y
        → IsUnit R (power p large) (residue p large x ⊕ neg (residue p large y))
    difference-IsUnit x y hx hy ne =
        power-IsUnit p large fermat (residue p large x ⊕ neg (residue p large y)) (λ e. ne (
          sym (mod-eq_of_lt hx)
          ∙ ap (λ t. t.0)
              (eq_of_difference R (residue p large x) (residue p large y)
                (Residue-eq p large (e ∙ sym (zero-mod p))))
          ∙ mod-eq_of_lt hy))

    abbrev pub firsts : List (ℕ × ℕ) → List ℕ
    firsts points = map (λ (t : ℕ × ℕ). t.0) points

    pub nodes-AreApart :
        (points : List (ℕ × ℕ))
        → AreDistinct (firsts points)
        → Each (λ x. x < p) (firsts points)
        → AreApart R (power p large) (nodes p large points)
    nodes-AreApart [] distinct low = tt
    nodes-AreApart ((x, y) ∷ points) distinct low =
        (from_first points distinct.0 low.1, nodes-AreApart points distinct.1 low.1)
      where
        from_first :
            (rest : List (ℕ × ℕ))
            → Absent x (firsts rest)
            → Each (λ x. x < p) (firsts rest)
            → Each
                (λ a.
                  IsUnit R (power p large) (a ⊕ neg (residue p large x))
                  × IsUnit R (power p large) (residue p large x ⊕ neg a))
                (nodes p large rest)
        from_first [] h l = tt
        from_first ((z, w) ∷ rest) h l = (
          (difference-IsUnit z x l.0 low.0 h.0, difference-IsUnit x z low.0 l.0 (λ e. h.0 (sym e))),
          from_first rest h.1 l.1,
        )

    -- At least as many points of a polynomial as it has coefficients.
    pub lagrange_interpolate-constant :
        (cs : List ℕ) (points : List (ℕ × ℕ))
        → Each (λ (t : ℕ × ℕ). t.1 ≡ evaluate_polynomial p cs t.0) points
        → AreDistinct (firsts points)
        → Each (λ x. x < p) (firsts points)
        → length cs ≤ length points
        → residue p large (lagrange_interpolate p 0 points)
          ≡ constant R (power p large) (map (residue p large) cs)
    unfolding lagrange_interpolate
    lagrange_interpolate-constant cs points on_curve distinct low enough =
        let r = residue p large in
        let f = horner R (power p large) (map r cs) in
        let apart = nodes-AreApart points distinct low in
        let rows = product_rows p 0 points 0 points in
        let dens = map (λ (t : ℕ × ℕ). t.1) rows in
        combine-lagrange p large f points [] points 0 [] (batch_modular_inverse p dens) 0 refl refl
          refl
          (batch_modular_inverse-powers p large fermat dens
            (denominators-ne_zero points [] points 0 refl refl apart)).1
          (Each-map _ _ points (λ t e. sym (ap r e ∙ evaluate_polynomial-horner cs t.0)) on_curve)
          apart
        ∙ nil_add (lagrange R (power p large) f [] (nodes p large points))
        ∙ lagrange-horner R (power p large) (map r cs) (nodes p large points) apart
            (omega (arith, length-map r cs, length-map (λ (t : ℕ × ℕ). r t.0) points))

    -- The number itself.
    pub lagrange_interpolate-secret :
        (c : ℕ) (cs : List ℕ) (points : List (ℕ × ℕ))
        → Each (λ (t : ℕ × ℕ). t.1 ≡ evaluate_polynomial p (c ∷ cs) t.0) points
        → AreDistinct (firsts points)
        → Each (λ x. x < p) (firsts points)
        → length (c ∷ cs) ≤ length points
        → lagrange_interpolate p 0 points ≡ c % p
    unfolding constant
    lagrange_interpolate-secret c cs points on_curve distinct low enough =
        sym (mod-eq_of_lt (lagrange_interpolate-lt points))
        ∙ ap (λ t. t.0) (lagrange_interpolate-constant (c ∷ cs) points on_curve distinct low enough)
