-- ===== src/Sharing/Products.antt =====
-- The products of `_lagrange_interpolate` in shamir.py, in the ring of the numbers below the modulus.
use native.Mathlib.Nat.{mod-eq_of_lt, add-mul-mod_self_left}
use mathlib.Core.List.{append_assoc}
use rra_module.Prelude.{
  ℕ, suc, ◌+◌, ◌*◌, ◌%◌, ◌<◌, ◌≡◌, refl, sym, ◌∙◌, ap, subst, List, [], ◌∷◌, ◌++◌, Each, map,
  length, length-append, arith, same_number, true, false,
}
use rra_module.Prelude.Int.{pos, ◌-ℤ◌, ◌*ℤ◌, mod_ℤ, mod_ℤ-split, *ℤ_parts, -ℤ_parts}
use rra_module.Sharing.Ring.{Ring, add_left_comm, add_nil, mul_one, add_cancel}
use rra_module.Sharing.Interpolation.{
  AreApart, AreApart-at, IsUnit, product, weight, weight-product, lagrange,
}
use rra_module.Sharing.Modular.{
  Residue-eq, residue, residue-mod, residue-add, residue-mul, residues, mul, add, negate,
}
use rra_module.Sharing.Inverses.{power, AreInverse}
use rra_module.Sharing.Arithmetic.{product_row, product_rows, combine}

module _ (p : ℕ) (large : 1 < p) where
  abbrev R : Ring
  R = residues p large

  open R use {
    K, ◌⊕◌, ◌⊗◌, neg, nil, one, add_neg, add_assoc, nil_add, mul_assoc, mul_comm, mul_add, one_mul,
  }

  infixl 65 ◌⊕◌
  infixl 70 ◌⊗◌
  -- A multiple of the modulus makes no difference.
  residue-multiples : (a b k j : ℕ) → a + p * k ≡ b + p * j → residue p large a ≡ residue p large b
  residue-multiples a b k j e =
      Residue-eq p large
        (sym (add-mul-mod_self_left a p k) ∙ ap (λ t. t % p) e ∙ add-mul-mod_self_left b p j)

  -- A difference times a number, as the code computes it.
  residue-difference :
      (a x y : ℕ)
      → residue p large (mod_ℤ (pos a *ℤ (pos x -ℤ pos y)) p)
        ≡ mul p large
            (residue p large a)
            (add p large (residue p large x) (negate p large (residue p large y)))
  residue-difference a x y =
      let z = pos a *ℤ (pos x -ℤ pos y) in
      let d = pos x -ℤ pos y in
      let m = mod_ℤ z p in
      let (k, j, e) = mod_ℤ-split z p (omega arith) in
      let sum : residue p large (a * y + m) ≡ residue p large (a * x) =
        residue-multiples (a * y + m) (a * x) k j (
          omega (arith, e, *ℤ_parts (pos a) d, ap (λ (t : ℕ). a * t) (-ℤ_parts (pos x) (pos y)))) in
      let ra = residue p large a in
      let rx = residue p large x in
      let ry = residue p large y in
      let left : ra ⊗ ry ⊕ residue p large m ≡ ra ⊗ rx =
        ap (λ t. t ⊕ residue p large m) (sym (residue-mul p large a y))
        ∙ sym (residue-add p large (a * y) m)
        ∙ sum
        ∙ residue-mul p large a x in
      let right : ra ⊗ ry ⊕ ra ⊗ (rx ⊕ neg ry) ≡ ra ⊗ rx =
        sym (mul_add ra ry (rx ⊕ neg ry))
        ∙ ap (λ t. ra ⊗ t)
            (add_left_comm R ry rx (neg ry) ∙ ap (λ t. rx ⊕ t) (add_neg ry) ∙ add_nil R rx) in
      add_cancel R (ra ⊗ ry) (residue p large m) (ra ⊗ (rx ⊕ neg ry)) (left ∙ sym right)

  abbrev product_of : K → List K → K
  product_of x xs = product R (power p large) x xs

  abbrev pub nodes : List (ℕ × ℕ) → List K
  nodes points = map (λ (t : ℕ × ℕ). residue p large t.0) points

  -- One round of the loop, in either number.
  product-step :
      (a x x_j : ℕ) (points : List (ℕ × ℕ))
      → residue p large (mod_ℤ (pos a *ℤ (pos x -ℤ pos x_j)) p)
          ⊗ product_of (residue p large x) (nodes points)
        ≡ residue p large a
          ⊗ ((residue p large x ⊕ neg (residue p large x_j))
              ⊗ product_of (residue p large x) (nodes points))
  product-step a x x_j points =
      ap (λ t. t ⊗ product_of (residue p large x) (nodes points)) (residue-difference a x x_j)
      ∙ mul_assoc (residue p large a) (residue p large x ⊕ neg (residue p large x_j))
          (product_of (residue p large x) (nodes points))

  -- A row of the loop multiplies both numbers by the differences to the points after the i-th.
  product_row-after :
      (x i x_i j : ℕ) (points : List (ℕ × ℕ)) (n d : ℕ)
      → i < j
      → let row = product_row p x i x_i j points (n, d) in
        (residue p large row.0 ≡ residue p large n ⊗ product_of (residue p large x) (nodes points))
        × (residue p large row.1
            ≡ residue p large d ⊗ product_of (residue p large x_i) (nodes points))
  unfolding product_row product
  product_row-after x i x_i j [] n d h =
      (sym (mul_one R (residue p large n)), sym (mul_one R (residue p large d)))
  product_row-after x i x_i j ((x_j, y_j) ∷ points) n d h =
      let n' = mod_ℤ (pos n *ℤ (pos x -ℤ pos x_j)) p in
      let d' = mod_ℤ (pos d *ℤ (pos x_i -ℤ pos x_j)) p in
      let (left, right) = product_row-after x i x_i (suc j) points n' d' (omega arith) in
      let other : same_number i j ≡ false = ground (arith, h) in
      rw (product_row, other)
        (left ∙ product-step n x x_j points, right ∙ product-step d x_i x_j points)

  -- The i-th point itself is passed over.
  product_row-done :
      (x i x_i y_i j : ℕ) (done rest : List (ℕ × ℕ)) (n d : ℕ)
      → i ≡ j + length done
      → let row = product_row p x i x_i j (done ++ (x_i, y_i) ∷ rest) (n, d) in
        (residue p large row.0
          ≡ residue p large n ⊗ product_of (residue p large x) (nodes (done ++ rest)))
        × (residue p large row.1
            ≡ residue p large d ⊗ product_of (residue p large x_i) (nodes (done ++ rest)))
  unfolding product_row product
  product_row-done x i x_i y_i j [] rest n d h =
      let same : same_number i j ≡ true = ground (arith, h) in
      rw (product_row, same) (product_row-after x i x_i (suc j) rest n d (omega arith))
  product_row-done x i x_i y_i j ((x_j, y_j) ∷ done) rest n d h =
      let n' = mod_ℤ (pos n *ℤ (pos x -ℤ pos x_j)) p in
      let d' = mod_ℤ (pos d *ℤ (pos x_i -ℤ pos x_j)) p in
      let (left, right) = product_row-done x i x_i y_i (suc j) done rest n' d' (omega arith) in
      let other : same_number i j ≡ false = ground (arith, h) in
      rw (product_row, other)
        (left ∙ product-step n x x_j (done ++ rest), right ∙ product-step d x_i x_j (done ++ rest))

  nodes-append : (xs ys : List (ℕ × ℕ)) → nodes (xs ++ ys) ≡ nodes xs ++ nodes ys
  nodes-append [] ys = refl
  nodes-append ((x, y) ∷ xs) ys = ap (λ t. residue p large x ∷ t) (nodes-append xs ys)

  -- A point's term: the weight of its node.
  term-weight :
      (a : K) (xs : List K) (y n d v : ℕ)
      → Each (λ x. IsUnit R (power p large) (a ⊕ neg x)) xs
      → residue p large n ≡ one ⊗ product_of nil xs
      → residue p large d ≡ one ⊗ product_of a xs
      → (v * d) % p ≡ 1
      → residue p large ((y * n * v) % p) ≡ residue p large y ⊗ weight R (power p large) a xs
  term-weight a xs y n d v units en ed ev =
      let w = weight R (power p large) a xs in
      let rn = residue p large n in
      let rd = residue p large d in
      let rv = residue p large v in
      let ry = residue p large y in
      let inverse : rd ⊗ rv ≡ one =
        mul_comm rd rv
        ∙ sym (residue-mul p large v d)
        ∙ Residue-eq p large (ev ∙ sym (mod-eq_of_lt large)) in
      let product : rn ≡ w ⊗ rd =
        en
        ∙ one_mul (product_of nil xs)
        ∙ sym (weight-product R (power p large) a xs units)
        ∙ ap (λ t. w ⊗ t) (sym (ed ∙ one_mul (product_of a xs))) in
      residue-mod p large (y * n * v)
      ∙ residue-mul p large (y * n) v
      ∙ ap (λ t. t ⊗ rv) (residue-mul p large y n)
      ∙ mul_assoc ry rn rv
      ∙ ap (λ t. ry ⊗ t)
          (ap (λ t. t ⊗ rv) product ∙ mul_assoc w rd rv ∙ ap (λ t. w ⊗ t) inverse ∙ mul_one R w)

  -- The row of a point, and the differences of its node to the others.
  pub row-others :
      (done todo all : List (ℕ × ℕ)) (x y i : ℕ)
      → all ≡ done ++ (x, y) ∷ todo
      → i ≡ length done
      → AreApart R (power p large) (nodes all)
      → let row = product_row p 0 i x 0 all (1, 1) in
        let others = nodes done ++ nodes todo in
        (residue p large row.0 ≡ one ⊗ product_of nil others)
        × (residue p large row.1 ≡ one ⊗ product_of (residue p large x) others)
        × Each (λ b. IsUnit R (power p large) (residue p large x ⊕ neg b)) others
  row-others done todo all x y i whole at apart =
      let a = residue p large x in
      let (left, right) = product_row-done 0 i x y 0 done todo 1 1 (omega (arith, at)) in
      let split = nodes-append done todo in
      let here =
        subst (AreApart R (power p large)) (ap nodes whole ∙ nodes-append done ((x, y) ∷ todo))
          apart in
      (
        ap (λ t. residue p large (product_row p 0 i x 0 t (1, 1)).0) whole
            ∙ left
            ∙ ap (λ t. one ⊗ product_of nil t) split,
        ap (λ t. residue p large (product_row p 0 i x 0 t (1, 1)).1) whole
            ∙ right
            ∙ ap (λ t. one ⊗ product_of a t) split,
        AreApart-at R (power p large) (nodes done) (nodes todo) a here,
      )

  -- The last loop adds up Lagrange's formula, for any function that has the points' values.
  pub combine-lagrange :
      (f : K → K) (all done todo : List (ℕ × ℕ)) (i : ℕ) (ds : List K) (invs : List ℕ) (result : ℕ)
      → all ≡ done ++ todo
      → i ≡ length done
      → ds ≡ nodes done
      → let rows = product_rows p 0 all i todo in
        AreInverse p large (map (λ (r : ℕ × ℕ). r.1) rows) invs
        → Each (λ (t : ℕ × ℕ). f (residue p large t.0) ≡ residue p large t.1) todo
        → AreApart R (power p large) (nodes all)
        → residue p large (combine p todo (map (λ (r : ℕ × ℕ). r.0) rows) invs result)
          ≡ residue p large result ⊕ lagrange R (power p large) f ds (nodes todo)
  unfolding combine product_rows lagrange
  combine-lagrange f all done [] i ds invs result whole at ed hi hf apart =
      sym (add_nil R (residue p large result))
  combine-lagrange f all done ((x, y) ∷ todo) i ds [] result whole at ed hi hf apart = absurd hi
  combine-lagrange f all done ((x, y) ∷ todo) i ds (v ∷ invs) result whole at ed hi hf apart =
      let row = product_row p 0 i x 0 all (1, 1) in
      let a = residue p large x in
      let w = weight R (power p large) a (ds ++ nodes todo) in
      let (en, den, units) = row-others done todo all x y i whole at apart in
      let term : residue p large ((y * row.0 * v) % p) ≡ f a ⊗ w =
        term-weight a (nodes done ++ nodes todo) y row.0 row.1 v units en den hi.0
        ∙ ap (λ t. t ⊗ weight R (power p large) a (nodes done ++ nodes todo)) (sym hf.0)
        ∙ ap (λ t. f a ⊗ weight R (power p large) a (t ++ nodes todo)) (sym ed) in
      let next = (result + (y * row.0 * v) % p) % p in
      let tail = lagrange R (power p large) f (ds ++ a ∷ []) (nodes todo) in
      combine-lagrange f all (done ++ (x, y) ∷ []) todo (suc i) (ds ++ a ∷ []) invs next
        (whole ∙ sym (append_assoc done ((x, y) ∷ []) todo))
        (omega (arith, length-append done ((x, y) ∷ [])))
        (ap (λ t. t ++ a ∷ []) ed ∙ sym (nodes-append done ((x, y) ∷ []))) hi.1 hf.1 apart
      ∙ ap (λ t. t ⊕ tail)
          (residue-mod p large (result + (y * row.0 * v) % p)
            ∙ residue-add p large result ((y * row.0 * v) % p)
            ∙ ap (λ t. residue p large result ⊕ t) term)
      ∙ add_assoc (residue p large result) (f a ⊗ w) tail
