-- ===== src/Sharing/Masks.antt =====
-- Polynomials over a ring that are nil at given nodes, by which a polynomial changes its constant and
-- keeps its values there.
use rra_module.Prelude.{
  suc, ◌≤◌, ◌<◌, ◌≡◌, refl, sym, ◌∙◌, ap, List, [], ◌∷◌, length, Each, Each-map, arith,
}
use rra_module.Sharing.Ring.{
  Ring, add_interchange, mul_left_comm, add_mul, add_nil, mul_one, mul_nil,
}
use rra_module.Sharing.Interpolation.{IsUnit, horner, constant}

module _ (R : Ring) (inv : R.K → R.K) where
  open R use {
    K, ◌⊕◌, ◌⊗◌, neg, nil, one, add_assoc, add_comm, nil_add, add_neg, mul_assoc, mul_comm, one_mul,
    mul_add,
  }

  infixl 65 ◌⊕◌
  infixl 70 ◌⊗◌
  abbrev pub add_lists : List K → List K → List K
  add_lists [] bs = bs
  add_lists (a ∷ cs) [] = a ∷ cs
  add_lists (a ∷ cs) (b ∷ bs) = (a ⊕ b) ∷ add_lists cs bs

  abbrev pub scale : K → List K → List K
  scale q [] = []
  scale q (a ∷ cs) = (q ⊗ a) ∷ scale q cs

  -- The product with one plus q x.
  abbrev pub times : K → List K → List K
  times q cs = add_lists cs (nil ∷ scale q cs)

  abbrev pub mask : List K → List K
  mask [] = one ∷ []
  mask (x ∷ xs) = times (neg one ⊗ inv x) (mask xs)

  horner-add_lists :
      (cs bs : List K) (x : K)
      → horner R inv (add_lists cs bs) x ≡ horner R inv cs x ⊕ horner R inv bs x
  unfolding horner
  horner-add_lists [] bs x = sym (nil_add (horner R inv bs x))
  horner-add_lists (a ∷ cs) [] x = sym (add_nil R (horner R inv (a ∷ cs) x))
  horner-add_lists (a ∷ cs) (b ∷ bs) x =
      ap (λ t. a ⊕ b ⊕ x ⊗ t) (horner-add_lists cs bs x)
      ∙ ap (λ t. a ⊕ b ⊕ t) (mul_add x (horner R inv cs x) (horner R inv bs x))
      ∙ add_interchange R a b (x ⊗ horner R inv cs x) (x ⊗ horner R inv bs x)

  horner-scale : (q : K) (cs : List K) (x : K) → horner R inv (scale q cs) x ≡ q ⊗ horner R inv cs x
  unfolding horner
  horner-scale q [] x = sym (mul_nil R q)
  horner-scale q (a ∷ cs) x =
      ap (λ t. q ⊗ a ⊕ x ⊗ t) (horner-scale q cs x)
      ∙ ap (λ t. q ⊗ a ⊕ t) (mul_left_comm R x q (horner R inv cs x))
      ∙ sym (mul_add q a (x ⊗ horner R inv cs x))

  horner-times :
      (q : K) (cs : List K) (x : K)
      → horner R inv (times q cs) x ≡ (one ⊕ x ⊗ q) ⊗ horner R inv cs x
  unfolding horner
  horner-times q cs x =
      let h = horner R inv cs x in
      horner-add_lists cs (nil ∷ scale q cs) x
      ∙ ap (λ t. h ⊕ t)
          (nil_add (x ⊗ horner R inv (scale q cs) x)
            ∙ ap (λ t. x ⊗ t) (horner-scale q cs x)
            ∙ sym (mul_assoc x q h))
      ∙ ap (λ t. t ⊕ x ⊗ q ⊗ h) (sym (one_mul h))
      ∙ sym (add_mul R one (x ⊗ q) h)

  length-scale : (q : K) (cs : List K) → length (scale q cs) ≡ length cs
  length-scale q [] = refl
  length-scale q (a ∷ cs) = ap suc (length-scale q cs)

  pub length-add_lists :
      (cs bs : List K) → length bs ≤ length cs → length (add_lists cs bs) ≡ length cs
  length-add_lists [] [] h = refl
  length-add_lists [] (b ∷ bs) h = absurd (omega arith)
  length-add_lists (a ∷ cs) [] h = refl
  length-add_lists (a ∷ cs) (b ∷ bs) h = ap suc (length-add_lists cs bs (omega arith))

  length-add_longer :
      (cs bs : List K) → length cs ≤ length bs → length (add_lists cs bs) ≡ length bs
  length-add_longer [] bs h = refl
  length-add_longer (a ∷ cs) [] h = absurd (omega arith)
  length-add_longer (a ∷ cs) (b ∷ bs) h = ap suc (length-add_longer cs bs (omega arith))

  length-mask : (xs : List K) → length (mask xs) ≡ suc (length xs)
  length-mask [] = refl
  length-mask (x ∷ xs) =
      let q = neg one ⊗ inv x in
      omega (
        arith,
        length-mask xs,
        length-scale q (mask xs),
        length-add_longer (mask xs) (nil ∷ scale q (mask xs))
            (omega (arith, length-scale q (mask xs))),
      )

  pub constant-add_lists :
      (cs bs : List K) → constant R inv (add_lists cs bs) ≡ constant R inv cs ⊕ constant R inv bs
  unfolding constant
  constant-add_lists [] bs = sym (nil_add (constant R inv bs))
  constant-add_lists (a ∷ cs) [] = sym (add_nil R a)
  constant-add_lists (a ∷ cs) (b ∷ bs) = refl

  constant-scale : (q : K) (cs : List K) → constant R inv (scale q cs) ≡ q ⊗ constant R inv cs
  unfolding constant
  constant-scale q [] = sym (mul_nil R q)
  constant-scale q (a ∷ cs) = refl

  constant-mask : (xs : List K) → constant R inv (mask xs) ≡ one
  unfolding constant
  constant-mask [] = refl
  constant-mask (x ∷ xs) =
      constant-add_lists (mask xs) (nil ∷ scale (neg one ⊗ inv x) (mask xs))
      ∙ add_nil R (constant R inv (mask xs))
      ∙ constant-mask xs

  mask-nil : (xs : List K) → Each (IsUnit R inv) xs → Each (λ x. horner R inv (mask xs) x ≡ nil) xs
  mask-nil [] h = tt
  mask-nil (x ∷ xs) h =
      let q = neg one ⊗ inv x in
      let gone : one ⊕ x ⊗ q ≡ nil =
        ap (λ t. one ⊕ t)
          (mul_left_comm R x (neg one) (inv x) ∙ ap (λ t. neg one ⊗ t) h.0 ∙ mul_one R (neg one))
        ∙ add_neg one in
      (
        horner-times q (mask xs) x
            ∙ ap (λ t. t ⊗ horner R inv (mask xs) x) gone
            ∙ mul_comm nil (horner R inv (mask xs) x)
            ∙ mul_nil R (horner R inv (mask xs) x),
        Each-map _ _ xs
            (λ z e.
              horner-times q (mask xs) z ∙ ap (λ t. (one ⊕ z ⊗ q) ⊗ t) e ∙ mul_nil R (one ⊕ z ⊗ q))
            (mask-nil xs h.1),
      )

  -- The polynomial cs, with another constant.
  abbrev pub masked : K → List K → List K → List K
  masked c xs cs = add_lists cs (scale c (mask xs))

  pub masked-same :
      (c : K) (xs cs : List K)
      → Each (IsUnit R inv) xs
      → Each (λ x. horner R inv (masked c xs cs) x ≡ horner R inv cs x) xs
  masked-same c xs cs h =
      Each-map _ _ xs
        (λ x e.
          horner-add_lists cs (scale c (mask xs)) x
          ∙ ap (λ t. horner R inv cs x ⊕ t)
              (horner-scale c (mask xs) x ∙ ap (λ t. c ⊗ t) e ∙ mul_nil R c)
          ∙ add_nil R (horner R inv cs x))
        (mask-nil xs h)

  pub constant-masked :
      (c : K) (xs cs : List K) → constant R inv (masked c xs cs) ≡ constant R inv cs ⊕ c
  constant-masked c xs cs =
      constant-add_lists cs (scale c (mask xs))
      ∙ ap (λ t. constant R inv cs ⊕ t)
          (constant-scale c (mask xs) ∙ ap (λ t. c ⊗ t) (constant-mask xs) ∙ mul_one R c)

  pub length-masked :
      (c : K) (xs cs : List K) → length xs < length cs → length (masked c xs cs) ≡ length cs
  length-masked c xs cs h =
      length-add_lists cs (scale c (mask xs))
        (omega (arith, length-scale c (mask xs), length-mask xs))
