-- ===== src/Sharing/Interpolation.antt =====
-- Interpolation at nil, over a commutative ring: what Lagrange's formula gives for a polynomial.
use rra_module.Prelude.{
  ◌≤◌, ◌≡◌, refl, sym, ◌∙◌, ap, List, [], ◌∷◌, ◌++◌, length, Each, Each-map, Each-middle, arith,
}
use mathlib.Core.Path.{fun_ext}
use rra_module.Sharing.Ring.{
  Ring, add_left_comm, add_interchange, mul_left_comm, add_mul, add_nil, mul_one, one_of_both,
  mul_nil,
}

module _ (R : Ring) (inv : R.K → R.K) where
  open R use {
    K, ◌⊕◌, ◌⊗◌, neg, nil, one, add_assoc, add_comm, nil_add, add_neg, mul_assoc, mul_comm, one_mul,
    mul_add,
  }

  infixl 65 ◌⊕◌
  infixl 70 ◌⊗◌
  abbrev pub IsUnit : K → Type 0
  IsUnit a = a ⊗ inv a ≡ one

  -- All differences of two nodes are invertible.
  abbrev pub AreApart : List K → Type 0
  AreApart [] = Unit
  AreApart (x ∷ xs) = Each (λ a. IsUnit (a ⊕ neg x) × IsUnit (x ⊕ neg a)) xs × AreApart xs

  -- The value at nil of the polynomial that is one at `a` and nil at the other nodes.
  unfoldable pub weight : K → List K → K
  weight a [] = one
  weight a (x ∷ xs) = (neg x ⊗ inv (a ⊕ neg x)) ⊗ weight a xs

  -- The sum of f over the nodes `todo`, weighted against those and the nodes `done`.
  unfoldable pub lagrange : (K → K) → List K → List K → K
  unfolding weight
  lagrange f done [] = nil
  lagrange f done (a ∷ todo) = f a ⊗ weight a (done ++ todo) ⊕ lagrange f (done ++ a ∷ []) todo

  -- By Horner's rule.
  unfoldable pub horner : List K → K → K
  horner [] x = nil
  horner (c ∷ cs) x = c ⊕ x ⊗ horner cs x

  unfoldable pub constant : List K → K
  constant [] = nil
  constant (c ∷ cs) = c

  lagrange-shift :
      (f g : K → K) (z : K) (done todo : List K)
      → ((a : K) → f a ≡ (a ⊕ neg z) ⊗ g a)
      → Each (λ a. IsUnit (a ⊕ neg z)) todo
      → lagrange f (z ∷ done) todo ≡ neg z ⊗ lagrange g done todo
  unfolding lagrange weight
  lagrange-shift f g z done [] e units = sym (mul_nil R (neg z))
  lagrange-shift f g z done (a ∷ todo) e units =
      let w = weight a (done ++ todo) in
      let d = a ⊕ neg z in
      let sorted : (d ⊗ g a) ⊗ ((neg z ⊗ inv d) ⊗ w) ≡ (d ⊗ inv d) ⊗ (neg z ⊗ (g a ⊗ w)) =
        simp (mul_assoc, mul_comm, mul_left_comm R) in
      rw
        (
          e a,
          lagrange-shift f g z (done ++ a ∷ []) todo e units.1,
          sorted,
          units.0,
          one_mul (neg z ⊗ (g a ⊗ w)),
          lagrange,
          weight,
        )
        (sym (mul_add (neg z) (g a ⊗ w) (lagrange g (done ++ a ∷ []) todo)))

  lagrange-swap :
      (f : K → K) (x y : K) (done todo : List K)
      → lagrange f (x ∷ y ∷ done) todo ≡ lagrange f (y ∷ x ∷ done) todo
  unfolding lagrange weight
  lagrange-swap f x y done [] = refl
  lagrange-swap f x y done (a ∷ todo) =
      rw
        (
          lagrange-swap f x y (done ++ a ∷ []) todo,
          mul_left_comm R (neg x ⊗ inv (a ⊕ neg x)) (neg y ⊗ inv (a ⊕ neg y))
              (weight a (done ++ todo)),
          lagrange,
          weight,
        )
        refl

  lagrange-add :
      (f g : K → K) (done todo : List K)
      → lagrange (λ a. f a ⊕ g a) done todo ≡ lagrange f done todo ⊕ lagrange g done todo
  unfolding lagrange weight
  lagrange-add f g done [] = sym (nil_add nil)
  lagrange-add f g done (a ∷ todo) =
      rw
        (
          lagrange-add f g (done ++ a ∷ []) todo,
          add_mul R (f a) (g a) (weight a (done ++ todo)),
          lagrange,
        )
        (add_interchange R (f a ⊗ weight a (done ++ todo)) (g a ⊗ weight a (done ++ todo))
          (lagrange f (done ++ a ∷ []) todo) (lagrange g (done ++ a ∷ []) todo))

  lagrange-mul :
      (c : K) (f : K → K) (done todo : List K)
      → lagrange (λ a. c ⊗ f a) done todo ≡ c ⊗ lagrange f done todo
  unfolding lagrange weight
  lagrange-mul c f done [] = sym (mul_nil R c)
  lagrange-mul c f done (a ∷ todo) =
      rw
        (
          lagrange-mul c f (done ++ a ∷ []) todo,
          mul_assoc c (f a) (weight a (done ++ todo)),
          lagrange,
        )
        (sym (mul_add c (f a ⊗ weight a (done ++ todo)) (lagrange f (done ++ a ∷ []) todo)))

  lagrange-shift_first :
      (f g : K → K) (z : K) (todo : List K)
      → ((a : K) → f a ≡ (a ⊕ neg z) ⊗ g a)
      → Each (λ a. IsUnit (a ⊕ neg z)) todo
      → lagrange f [] (z ∷ todo) ≡ neg z ⊗ lagrange g [] todo
  unfolding lagrange weight
  lagrange-shift_first f g z todo e units =
      let w = weight z todo in
      let first : f z ⊗ w ≡ nil =
        ap (λ t. t ⊗ w) (e z ∙ ap (λ t. t ⊗ g z) (add_neg z))
        ∙ mul_assoc nil (g z) w
        ∙ mul_comm nil (g z ⊗ w)
        ∙ mul_nil R (g z ⊗ w) in
      ap (λ t. t ⊕ lagrange f (z ∷ []) todo) first
      ∙ nil_add (lagrange f (z ∷ []) todo)
      ∙ lagrange-shift f g z [] todo e units

  lagrange-swap_first :
      (f : K → K) (x y : K) (todo : List K)
      → lagrange f [] (x ∷ y ∷ todo) ≡ lagrange f [] (y ∷ x ∷ todo)
  unfolding lagrange weight
  lagrange-swap_first f x y todo =
      ap (λ t. f x ⊗ weight x (y ∷ todo) ⊕ (f y ⊗ weight y (x ∷ todo) ⊕ t))
        (lagrange-swap f x y [] todo)
      ∙ add_left_comm R (f x ⊗ weight x (y ∷ todo)) (f y ⊗ weight y (x ∷ todo))
          (lagrange f (y ∷ x ∷ []) todo)

  -- Of the identity and of one.
  lagrange-plus :
      (z : K) (todo : List K)
      → lagrange (λ a. (a ⊕ neg z) ⊗ one) [] todo
        ≡ lagrange (λ a. a) [] todo ⊕ neg z ⊗ lagrange (λ a. one) [] todo
  lagrange-plus z todo =
      ap (λ h. lagrange h [] todo)
        (fun_ext (λ a. mul_one R (a ⊕ neg z) ∙ ap (λ t. a ⊕ t) (sym (mul_one R (neg z)))))
      ∙ lagrange-add (λ a. a) (λ a. neg z ⊗ one) [] todo
      ∙ ap (λ t. lagrange (λ a. a) [] todo ⊕ t) (lagrange-mul (neg z) (λ a. one) [] todo)

  -- The weights add up to one.
  lagrange-one : (x : K) (xs : List K) → AreApart (x ∷ xs) → lagrange (λ a. one) [] (x ∷ xs) ≡ one
  unfolding lagrange weight
  lagrange-one x [] h = add_nil R (one ⊗ one) ∙ one_mul one
  lagrange-one x (y ∷ xs) ((hxy, hx), (hy, hs)) =
      let s = lagrange (λ a. one) [] (x ∷ y ∷ xs) in
      let u = lagrange (λ a. a) [] (x ∷ y ∷ xs) in
      let first : u ⊕ neg x ⊗ s ≡ neg x =
        sym (lagrange-plus x (x ∷ y ∷ xs))
        ∙ lagrange-shift_first (λ a. (a ⊕ neg x) ⊗ one) (λ a. one) x (y ∷ xs) (λ a. refl)
            (hxy.0, Each-map _ _ xs (λ a p. p.0) hx)
        ∙ ap (λ t. neg x ⊗ t) (lagrange-one y xs (hy, hs))
        ∙ mul_one R (neg x) in
      let second : u ⊕ neg y ⊗ s ≡ neg y =
        sym (lagrange-plus y (x ∷ y ∷ xs))
        ∙ lagrange-swap_first (λ a. (a ⊕ neg y) ⊗ one) x y xs
        ∙ lagrange-shift_first (λ a. (a ⊕ neg y) ⊗ one) (λ a. one) y (x ∷ xs) (λ a. refl)
            (hxy.1, Each-map _ _ xs (λ a p. p.0) hy)
        ∙ ap (λ t. neg y ⊗ t) (lagrange-one x xs (hx, hs))
        ∙ mul_one R (neg y) in
      one_of_both R u s x (neg x) (neg y) (inv (x ⊕ neg y)) refl first second hxy.1

  lagrange-nil : (done todo : List K) → lagrange (λ a. nil) done todo ≡ nil
  unfolding lagrange
  lagrange-nil done [] = refl
  lagrange-nil done (a ∷ todo) =
      ap (λ t. t ⊕ lagrange (λ a. nil) (done ++ a ∷ []) todo)
        (mul_comm nil (weight a (done ++ todo)) ∙ mul_nil R (weight a (done ++ todo)))
      ∙ nil_add (lagrange (λ a. nil) (done ++ a ∷ []) todo)
      ∙ lagrange-nil (done ++ a ∷ []) todo

  -- Where the formula gives g's constant both for all nodes and for those but z, it gives nil for
  -- the polynomial a g(a).
  lagrange-times :
      (g : K → K) (c z : K) (xs : List K)
      → Each (λ a. IsUnit (a ⊕ neg z)) xs
      → lagrange g [] (z ∷ xs) ≡ c
      → lagrange g [] xs ≡ c
      → lagrange (λ a. a ⊗ g a) [] (z ∷ xs) ≡ nil
  lagrange-times g c z xs units whole rest =
      let split : (a : K) → a ⊗ g a ≡ (a ⊕ neg z) ⊗ g a ⊕ z ⊗ g a = λ a.
        ap (λ t. t ⊗ g a)
          (sym (
            add_assoc a (neg z) z ∙ ap (λ t. a ⊕ t) (add_comm (neg z) z ∙ add_neg z) ∙ add_nil R a))
        ∙ add_mul R (a ⊕ neg z) z (g a) in
      ap (λ h. lagrange h [] (z ∷ xs)) (fun_ext split)
      ∙ lagrange-add (λ a. (a ⊕ neg z) ⊗ g a) (λ a. z ⊗ g a) [] (z ∷ xs)
      ∙ ap (λ t. t ⊕ lagrange (λ a. z ⊗ g a) [] (z ∷ xs))
          (lagrange-shift_first (λ a. (a ⊕ neg z) ⊗ g a) g z xs (λ a. refl) units
            ∙ ap (λ t. neg z ⊗ t) rest)
      ∙ ap (λ t. neg z ⊗ c ⊕ t) (lagrange-mul z g [] (z ∷ xs) ∙ ap (λ t. z ⊗ t) whole)
      ∙ sym (add_mul R (neg z) z c)
      ∙ ap (λ t. t ⊗ c) (add_comm (neg z) z ∙ add_neg z)
      ∙ mul_comm nil c
      ∙ mul_nil R c

  -- Lagrange's formula at as many nodes as coefficients, or more, gives the polynomial's constant.
  pub lagrange-horner :
      (cs xs : List K)
      → AreApart xs
      → length cs ≤ length xs
      → lagrange (horner cs) [] xs ≡ constant cs
  unfolding horner constant
  lagrange-horner [] xs apart enough = lagrange-nil [] xs
  lagrange-horner (c ∷ cs) [] apart enough = absurd (omega arith)
  lagrange-horner (c ∷ cs) (z ∷ xs) apart enough =
      ap (λ h. lagrange h [] (z ∷ xs))
        (fun_ext (λ a. ap (λ t. t ⊕ a ⊗ horner cs a) (sym (mul_one R c))))
      ∙ lagrange-add (λ a. c ⊗ one) (λ a. a ⊗ horner cs a) [] (z ∷ xs)
      ∙ ap (λ t. t ⊕ lagrange (λ a. a ⊗ horner cs a) [] (z ∷ xs))
          (lagrange-mul c (λ a. one) [] (z ∷ xs)
            ∙ ap (λ t. c ⊗ t) (lagrange-one z xs apart)
            ∙ mul_one R c)
      ∙ ap (λ t. c ⊕ t)
          (lagrange-times (horner cs) (constant cs) z xs (Each-map _ _ xs (λ a p. p.0) apart.0)
            (lagrange-horner cs (z ∷ xs) apart (omega arith))
            (lagrange-horner cs xs apart.1 (omega arith)))
      ∙ add_nil R c

  -- A node and the others.
  pub AreApart-at :
      (xs ys : List K) (a : K) → AreApart (xs ++ a ∷ ys) → Each (λ x. IsUnit (a ⊕ neg x)) (xs ++ ys)
  AreApart-at [] ys a h = Each-map _ _ ys (λ x u. u.1) h.0
  AreApart-at (x ∷ xs) ys a h = ((Each-middle _ xs ys a h.0).0, AreApart-at xs ys a h.1)

  -- The product of the differences of x to the nodes.
  unfoldable pub product : K → List K → K
  product x [] = one
  product x (y ∷ ys) = (x ⊕ neg y) ⊗ product x ys

  pub weight-product :
      (a : K) (xs : List K)
      → Each (λ x. IsUnit (a ⊕ neg x)) xs
      → weight a xs ⊗ product a xs ≡ product nil xs
  unfolding weight product
  weight-product a [] h = one_mul one
  weight-product a (x ∷ xs) h =
      let w = weight a xs in
      let d = a ⊕ neg x in
      let q = product a xs in
      let sorted : (neg x ⊗ inv d ⊗ w) ⊗ (d ⊗ q) ≡ (d ⊗ inv d) ⊗ (neg x ⊗ (w ⊗ q)) =
        simp (mul_assoc, mul_comm, mul_left_comm R) in
      sorted
      ∙ ap (λ t. t ⊗ (neg x ⊗ (w ⊗ q))) h.0
      ∙ one_mul (neg x ⊗ (w ⊗ q))
      ∙ ap (λ t. neg x ⊗ t) (weight-product a xs h.1)
      ∙ ap (λ t. t ⊗ product nil xs) (sym (nil_add (neg x)))
