-- ===== src/Sharing/Ring.antt =====
-- Commutative rings, for the arithmetic modulo a prime of shamir.py and secret_sharing.py.
use rra_module.Prelude.{◌≡◌, sym, ◌∙◌, ap}

pub record Ring : Type 1 where
  pub K : Type 0
  pub ◌⊕◌ : K → K → K
  pub ◌⊗◌ : K → K → K
  pub neg : K → K
  pub nil : K
  pub one : K
  pub add_assoc : (a b c : K) → ◌⊕◌ (◌⊕◌ a b) c ≡ ◌⊕◌ a (◌⊕◌ b c)
  pub add_comm : (a b : K) → ◌⊕◌ a b ≡ ◌⊕◌ b a
  pub nil_add : (a : K) → ◌⊕◌ nil a ≡ a
  pub add_neg : (a : K) → ◌⊕◌ a (neg a) ≡ nil
  pub mul_assoc : (a b c : K) → ◌⊗◌ (◌⊗◌ a b) c ≡ ◌⊗◌ a (◌⊗◌ b c)
  pub mul_comm : (a b : K) → ◌⊗◌ a b ≡ ◌⊗◌ b a
  pub one_mul : (a : K) → ◌⊗◌ one a ≡ a
  pub mul_add : (a b c : K) → ◌⊗◌ a (◌⊕◌ b c) ≡ ◌⊕◌ (◌⊗◌ a b) (◌⊗◌ a c)

module _ (R : Ring) where
  open R use {
    K, ◌⊕◌, ◌⊗◌, neg, nil, one, add_assoc, add_comm, nil_add, add_neg, mul_assoc, mul_comm, one_mul,
    mul_add,
  }

  infixl 65 ◌⊕◌
  infixl 70 ◌⊗◌
  pub add_left_comm : (a b c : K) → a ⊕ (b ⊕ c) ≡ b ⊕ (a ⊕ c)
  add_left_comm a b c = sym (add_assoc a b c) ∙ ap (λ t. t ⊕ c) (add_comm a b) ∙ add_assoc b a c

  pub mul_left_comm : (a b c : K) → a ⊗ (b ⊗ c) ≡ b ⊗ (a ⊗ c)
  mul_left_comm a b c = sym (mul_assoc a b c) ∙ ap (λ t. t ⊗ c) (mul_comm a b) ∙ mul_assoc b a c

  pub add_mul : (a b c : K) → (a ⊕ b) ⊗ c ≡ a ⊗ c ⊕ b ⊗ c
  add_mul a b c =
      mul_comm (a ⊕ b) c
      ∙ mul_add c a b
      ∙ ap (λ t. t ⊕ c ⊗ b) (mul_comm c a)
      ∙ ap (λ t. a ⊗ c ⊕ t) (mul_comm c b)

  pub add_nil : (a : K) → a ⊕ nil ≡ a
  add_nil a = add_comm a nil ∙ nil_add a

  pub mul_one : (a : K) → a ⊗ one ≡ a
  mul_one a = mul_comm a one ∙ one_mul a

  pub add_cancel : (a b c : K) → a ⊕ b ≡ a ⊕ c → b ≡ c
  add_cancel a b c h =
      let back = λ (x : K). ap (λ t. t ⊕ x) (add_comm (neg a) a ∙ add_neg a) ∙ nil_add x in
      sym (sym (add_assoc (neg a) a b) ∙ back b)
      ∙ ap (λ t. neg a ⊕ t) h
      ∙ sym (add_assoc (neg a) a c)
      ∙ back c

  pub mul_nil : (a : K) → a ⊗ nil ≡ nil
  mul_nil a =
      add_cancel (a ⊗ nil) (a ⊗ nil) nil
        (sym (mul_add a nil nil) ∙ ap (λ t. a ⊗ t) (nil_add nil) ∙ sym (add_nil (a ⊗ nil)))

  pub add_interchange : (a b c d : K) → (a ⊕ b) ⊕ (c ⊕ d) ≡ (a ⊕ c) ⊕ (b ⊕ d)
  add_interchange a b c d =
      add_assoc a b (c ⊕ d) ∙ ap (λ t. a ⊕ t) (add_left_comm b c d) ∙ sym (add_assoc a c (b ⊕ d))

  pub mul_interchange : (a b c d : K) → (a ⊗ b) ⊗ (c ⊗ d) ≡ (a ⊗ c) ⊗ (b ⊗ d)
  mul_interchange a b c d =
      mul_assoc a b (c ⊗ d) ∙ ap (λ t. a ⊗ t) (mul_left_comm b c d) ∙ sym (mul_assoc a c (b ⊗ d))

  -- Two unknowns with the same value of u + m s = m and u + n s = n: s is one, if n differs from m.
  pub one_of_both :
      (u s x m n i : K) → m ≡ neg x → u ⊕ m ⊗ s ≡ m → u ⊕ n ⊗ s ≡ n → (x ⊕ n) ⊗ i ≡ one → s ≡ one
  one_of_both u s x m n i e first second unit =
      let gone : x ⊕ m ≡ nil = ap (λ t. x ⊕ t) e ∙ add_neg x in
      let crossed : m ⊕ n ⊗ s ≡ n ⊕ m ⊗ s =
        ap (λ t. t ⊕ n ⊗ s) (sym first)
        ∙ add_assoc u (m ⊗ s) (n ⊗ s)
        ∙ ap (λ t. u ⊕ t) (add_comm (m ⊗ s) (n ⊗ s))
        ∙ sym (add_assoc u (n ⊗ s) (m ⊗ s))
        ∙ ap (λ t. t ⊕ m ⊗ s) second in
      let left : m ⊕ (x ⊕ n) ⊗ s ≡ n =
        ap (λ t. m ⊕ t) (add_mul x n s)
        ∙ add_left_comm m (x ⊗ s) (n ⊗ s)
        ∙ ap (λ t. x ⊗ s ⊕ t) crossed
        ∙ add_left_comm (x ⊗ s) n (m ⊗ s)
        ∙ ap (λ t. n ⊕ t) (sym (add_mul x m s) ∙ ap (λ t. t ⊗ s) gone ∙ mul_comm nil s ∙ mul_nil s)
        ∙ add_nil n in
      let right : m ⊕ (x ⊕ n) ≡ n =
        add_left_comm m x n
        ∙ ap (λ t. x ⊕ t) (add_comm m n)
        ∙ add_left_comm x n m
        ∙ ap (λ t. n ⊕ t) gone
        ∙ add_nil n in
      let same = add_cancel m ((x ⊕ n) ⊗ s) (x ⊕ n) (left ∙ sym right) in
      sym (one_mul s)
      ∙ ap (λ t. t ⊗ s) (sym unit)
      ∙ ap (λ t. t ⊗ s) (mul_comm (x ⊕ n) i)
      ∙ mul_assoc i (x ⊕ n) s
      ∙ ap (λ t. i ⊗ t) same
      ∙ mul_comm i (x ⊕ n)
      ∙ unit

  pub eq_of_difference : (a b : K) → a ⊕ neg b ≡ nil → a ≡ b
  eq_of_difference a b h =
      sym (add_nil a)
      ∙ ap (λ t. a ⊕ t) (sym (add_neg b) ∙ add_comm b (neg b))
      ∙ sym (add_assoc a (neg b) b)
      ∙ ap (λ t. t ⊕ b) h
      ∙ nil_add b
