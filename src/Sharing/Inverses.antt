-- ===== src/Sharing/Inverses.antt =====
-- `_batch_modular_inverse` of shamir.py against the inverses that Fermat's little theorem gives.
use native.Mathlib.Nat.{mod-lt, mod-mod, zero-mod, mod-eq_of_lt}
use native.Mathlib.Nat
use rra_module.Prelude.{
  ℕ, ◌-◌, ◌*◌, ◌%◌, ◌^◌, ◌<◌, ◌≡◌, ◌≢◌, refl, sym, ◌∙◌, ap, List, [], ◌∷◌, map, Each, arith,
}
use rra_module.Sharing.Modular.{
  Residue, Residue-eq, residue, residues, mul, mul-mod-mod, mod-mul-mod,
}
use rra_module.Sharing.Arithmetic.{pow, last_prefix, walk_back, batch_modular_inverse}

-- What Fermat's little theorem says of a prime: the power p - 2 of a number that p does not divide is
-- its inverse.
abbrev pub IsFermat : ℕ → Type 0
IsFermat p = (a : ℕ) → a % p ≢ 0 → (a * a ^ (p - 2)) % p ≡ 1

module _ (p : ℕ) (large : 1 < p) where
  open (residues p large) use {K, ◌⊗◌, one, mul_assoc, mul_comm, one_mul}

  infixl 70 ◌⊗◌
  abbrev pub power : Residue p → Residue p
  power a = residue p large (a.0 ^ (p - 2))

  -- The numbers of the second list are inverse to those of the first.
  abbrev pub AreInverse : List ℕ → List ℕ → Type 0
  AreInverse [] [] = Unit
  AreInverse (d ∷ ds) (v ∷ vs) = ((v * d) % p ≡ 1) × AreInverse ds vs
  AreInverse _ _ = ⊥

  walk_back-inverse :
      (first : ℕ) (vs : List ℕ) (inv_all : ℕ)
      → (inv_all * last_prefix p first vs) % p ≡ 1
      → (((walk_back p first vs inv_all).0 * first) % p ≡ 1)
        × AreInverse vs (walk_back p first vs inv_all).1
  unfolding last_prefix walk_back
  walk_back-inverse first [] inv_all h = (h, tt)
  walk_back-inverse first (v ∷ vs) inv_all h =
      let (here, rest) = walk_back-inverse ((first * v) % p) vs inv_all h in
      let inv = (walk_back p ((first * v) % p) vs inv_all).0 in
      let whole : (inv * (first * v)) % p ≡ 1 = sym (mul-mod-mod inv (first * v) p) ∙ here in
      let turned : inv * v * first ≡ inv * (first * v) = omega arith in
      let moved : inv * first * v ≡ inv * (first * v) = omega arith in
      (
        mod-mul-mod (inv * v) first p ∙ ap (λ t. t % p) turned ∙ whole,
        (mod-mul-mod (inv * first) v p ∙ ap (λ t. t % p) moved ∙ whole, rest),
      )

  module _ (fermat : IsFermat p) where
    pub power-inverse : (v : ℕ) → v % p ≢ 0 → (pow v (p - 2) p * v) % p ≡ 1
    unfolding pow
    power-inverse v h =
        mod-mul-mod (v ^ (p - 2)) v p ∙ ap (λ t. t % p) (Nat.mul_comm (v ^ (p - 2)) v) ∙ fermat v h

    pub power-IsUnit : (a : Residue p) → a.0 ≢ 0 → mul p large a (power a) ≡ residue p large 1
    power-IsUnit a h = Residue-eq p large (
        mul-mod-mod a.0 (a.0 ^ (p - 2)) p
        ∙ fermat a.0 (λ e. h (sym (mod-eq_of_lt a.1) ∙ e))
        ∙ sym (mod-eq_of_lt large))

    -- There are no divisors of zero.
    pub mul-ne_zero : (a b : ℕ) → a % p ≢ 0 → b % p ≢ 0 → (a * b) % p ≢ 0
    mul-ne_zero a b ha hb e =
        let c = a ^ (p - 2) in
        let turned : c * (a * b) ≡ a * c * b = omega arith in
        let none : (c * (a * b)) % p ≡ 0 =
          sym (mul-mod-mod c (a * b) p)
          ∙ ap (λ t. (c * t) % p) e
          ∙ ap (λ t. t % p) (Nat.mul-zero c)
          ∙ zero-mod p in
        let whole : (a * c * b) % p ≡ b % p =
          sym (mod-mul-mod (a * c) b p)
          ∙ ap (λ t. (t * b) % p) (fermat a ha)
          ∙ ap (λ t. t % p) (Nat.one-mul b) in
        hb (sym whole ∙ ap (λ t. t % p) (sym turned) ∙ none)

    last_prefix-ne_zero :
        (first : ℕ) (vs : List ℕ)
        → first % p ≢ 0
        → Each (λ v. v % p ≢ 0) vs
        → last_prefix p first vs % p ≢ 0
    unfolding last_prefix
    last_prefix-ne_zero first [] h hs = h
    last_prefix-ne_zero first (v ∷ vs) h hs =
        last_prefix-ne_zero ((first * v) % p) vs
          (λ e. mul-ne_zero first v h hs.0 (sym (mod-mod (first * v) p) ∙ e)) hs.1

    -- One power for the product of all values gives an inverse of each value.
    pub batch_modular_inverse-AreInverse :
        (values : List ℕ)
        → Each (λ v. v % p ≢ 0) values
        → AreInverse values (batch_modular_inverse p values)
    unfolding batch_modular_inverse
    batch_modular_inverse-AreInverse [] h = tt
    batch_modular_inverse-AreInverse (v ∷ []) h = (power-inverse v h.0, tt)
    batch_modular_inverse-AreInverse (v ∷ w ∷ vs) h =
        let last = last_prefix p v (w ∷ vs) in
        walk_back-inverse v (w ∷ vs) (pow last (p - 2) p)
          (power-inverse last (last_prefix-ne_zero v (w ∷ vs) h.0 h.1))

    inverse_unique : (d v w : ℕ) → (v * d) % p ≡ 1 → (w * d) % p ≡ 1 → v < p → w < p → v ≡ w
    inverse_unique d v w hv hw lv lw =
        let turned : v * (w * d) ≡ w * (v * d) = omega arith in
        let absorb = λ (a b : ℕ) (h : (b * d) % p ≡ 1).
          sym (mul-mod-mod a (b * d) p)
          ∙ ap (λ t. (a * t) % p) h
          ∙ ap (λ t. t % p) (Nat.mul-one a) in
        sym (mod-eq_of_lt lv)
        ∙ sym (absorb v w hw)
        ∙ ap (λ t. t % p) turned
        ∙ absorb w v hv
        ∙ mod-eq_of_lt lw

    AreInverse-unique :
        (ds vs ws : List ℕ)
        → AreInverse ds vs
        → AreInverse ds ws
        → Each (λ v. v < p) vs
        → Each (λ v. v < p) ws
        → vs ≡ ws
    AreInverse-unique [] [] [] hv hw lv lw = refl
    AreInverse-unique [] [] (w ∷ ws) hv hw lv lw = absurd hw
    AreInverse-unique [] (v ∷ vs) ws hv hw lv lw = absurd hv
    AreInverse-unique (d ∷ ds) [] ws hv hw lv lw = absurd hv
    AreInverse-unique (d ∷ ds) (v ∷ vs) [] hv hw lv lw = absurd hw
    AreInverse-unique (d ∷ ds) (v ∷ vs) (w ∷ ws) hv hw lv lw =
        ap (λ t. t ∷ vs) (inverse_unique d v w hv.0 hw.0 lv.0 lw.0)
        ∙ ap (λ t. w ∷ t) (AreInverse-unique ds vs ws hv.1 hw.1 lv.1 lw.1)

    walk_back-lt :
        (first : ℕ) (vs : List ℕ) (inv_all : ℕ)
        → inv_all < p
        → ((walk_back p first vs inv_all).0 < p)
          × Each (λ v. v < p) (walk_back p first vs inv_all).1
    unfolding walk_back
    walk_back-lt first [] inv_all h = (h, tt)
    walk_back-lt first (v ∷ vs) inv_all h =
        let inv = (walk_back p ((first * v) % p) vs inv_all).0 in
        (
          mod-lt (inv * v) (omega arith),
          (mod-lt (inv * first) (omega arith), (walk_back-lt ((first * v) % p) vs inv_all h).1),
        )

    pow-lt : (v : ℕ) → pow v (p - 2) p < p
    unfolding pow
    pow-lt v = mod-lt (v ^ (p - 2)) (omega arith)

    batch_modular_inverse-lt :
        (values : List ℕ) → Each (λ v. v < p) (batch_modular_inverse p values)
    unfolding batch_modular_inverse
    batch_modular_inverse-lt [] = tt
    batch_modular_inverse-lt (v ∷ []) = (pow-lt v, tt)
    batch_modular_inverse-lt (v ∷ w ∷ vs) =
        walk_back-lt v (w ∷ vs) (pow (last_prefix p v (w ∷ vs)) (p - 2) p)
          (pow-lt (last_prefix p v (w ∷ vs)))

    powers-AreInverse :
        (values : List ℕ)
        → Each (λ v. v % p ≢ 0) values
        → AreInverse values (map (λ v. pow v (p - 2) p) values)
          × Each (λ v. v < p) (map (λ v. pow v (p - 2) p) values)
    powers-AreInverse [] h = (tt, tt)
    powers-AreInverse (v ∷ vs) h =
        let (inverse, low) = powers-AreInverse vs h.1 in
        ((power-inverse v h.0, inverse), (pow-lt v, low))

-- Where Fermat's little theorem holds of the modulus, the batch of inverses of numbers that it does not
-- divide, which takes one power for all of them, is the list of each number's own power, in order, and
-- each is the number's inverse.
pub batch_modular_inverse-powers :
    (p : ℕ) (large : 1 < p)
    → IsFermat p
    → (values : List ℕ) → Each (λ v. v % p ≢ 0) values
    → (batch_modular_inverse p values ≡ map (λ v. pow v (p - 2) p) values)
      × AreInverse p large values (batch_modular_inverse p values)
batch_modular_inverse-powers p large fermat values h =
    let batch = batch_modular_inverse-AreInverse p large fermat values h in
    let (each, low) = powers-AreInverse p large fermat values h in
    (
      AreInverse-unique p large fermat values (batch_modular_inverse p values)
          (map (λ v. pow v (p - 2) p) values) batch each
          (batch_modular_inverse-lt p large fermat values) low,
      batch,
    )
