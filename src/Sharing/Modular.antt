-- ===== src/Sharing/Modular.antt =====
-- The numbers below a modulus as a ring, and the remainder as a map to it.
use mathlib.Core.HLevel.{Σ_prop_path}
use native.Mathlib.Nat.{
  mod-lt, mod-eq_of_lt, mod-mod, mod-add-mod, add-mod-mod, mod_self, zero-mod, div-add-mod,
  add-mul-mod_self_left, mul_comm,
}
use native.Mathlib.Nat
use native.Mathlib.Bridge.{le_prop}
use rra_module.Prelude.{ℕ, ◌+◌, ◌-◌, ◌*◌, ◌/◌, ◌%◌, ◌<◌, ◌≡◌, sym, ◌∙◌, ap, arith}
use rra_module.Sharing.Ring.{Ring}

pub mod-mul-mod : (a b m : ℕ) → (a % m * b) % m ≡ (a * b) % m
mod-mul-mod a b m =
    let split : a * b ≡ a % m * b + m * (a / m * b) =
      omega (arith, ap (λ (t : ℕ). t * b) (div-add-mod a m)) in
    sym (ap (λ t. t % m) split ∙ add-mul-mod_self_left (a % m * b) m (a / m * b))

pub mul-mod-mod : (a b m : ℕ) → (a * (b % m)) % m ≡ (a * b) % m
mul-mod-mod a b m =
    ap (λ t. t % m) (mul_comm a (b % m)) ∙ mod-mul-mod b a m ∙ ap (λ t. t % m) (mul_comm b a)

-- The numbers below p.
abbrev pub Residue : ℕ → Type 0
Residue p = (n : ℕ) × (n < p)

module _ (p : ℕ) (large : 1 < p) where
  pub Residue-eq : {a b : Residue p} → a.0 ≡ b.0 → a ≡ b
  Residue-eq e = Σ_prop_path (λ n. le_prop) e

  abbrev pub residue : ℕ → Residue p
  residue n = (n % p, mod-lt n (omega arith))

  pub residue-mod : (n : ℕ) → residue (n % p) ≡ residue n
  residue-mod n = Residue-eq (mod-mod n p)

  abbrev pub add : Residue p → Residue p → Residue p
  add a b = residue (a.0 + b.0)

  abbrev pub mul : Residue p → Residue p → Residue p
  mul a b = residue (a.0 * b.0)

  abbrev pub negate : Residue p → Residue p
  negate a = residue (p - a.0)

  pub residue-add : (a b : ℕ) → residue (a + b) ≡ add (residue a) (residue b)
  residue-add a b = Residue-eq (sym (mod-add-mod a p (b % p) ∙ add-mod-mod a b p))

  pub residue-mul : (a b : ℕ) → residue (a * b) ≡ mul (residue a) (residue b)
  residue-mul a b = Residue-eq (sym (mod-mul-mod a (b % p) p ∙ mul-mod-mod a b p))

  pub residue_self : (a : Residue p) → residue a.0 ≡ a
  residue_self a = Residue-eq (mod-eq_of_lt a.1)

  abbrev pub residues : Ring
  residues = record {
    K = Residue p;
    ◌⊕◌ = add;
    ◌⊗◌ = mul;
    neg = negate;
    nil = residue 0;
    one = residue 1;
    add_assoc = λ a b c. Residue-eq (
        mod-add-mod (a.0 + b.0) p c.0
        ∙ ap (λ t. t % p) (Nat.add_assoc a.0 b.0 c.0)
        ∙ sym (add-mod-mod a.0 (b.0 + c.0) p));
    add_comm = λ a b. ap residue (Nat.add_comm a.0 b.0);
    nil_add = λ a.
        Residue-eq (mod-add-mod 0 p a.0 ∙ ap (λ t. t % p) (Nat.zero-add a.0) ∙ mod-eq_of_lt a.1);
    add_neg = λ a. Residue-eq (
        add-mod-mod a.0 (p - a.0) p
        ∙ ap (λ t. t % p) (Nat.add-sub_of_le (Nat.le_of_lt a.1))
        ∙ mod_self p
        ∙ sym (zero-mod p));
    mul_assoc = λ a b c. Residue-eq (
        mod-mul-mod (a.0 * b.0) c.0 p
        ∙ ap (λ t. t % p) (Nat.mul_assoc a.0 b.0 c.0)
        ∙ sym (mul-mod-mod a.0 (b.0 * c.0) p));
    mul_comm = λ a b. ap residue (mul_comm a.0 b.0);
    one_mul = λ a.
        Residue-eq (mod-mul-mod 1 a.0 p ∙ ap (λ t. t % p) (Nat.one-mul a.0) ∙ mod-eq_of_lt a.1);
    mul_add = λ a b c. Residue-eq (
        mul-mod-mod a.0 (b.0 + c.0) p
        ∙ ap (λ t. t % p) (Nat.mul-add a.0 b.0 c.0)
        ∙ sym
            (mod-add-mod (a.0 * b.0) p ((a.0 * c.0) % p) ∙ add-mod-mod (a.0 * b.0) (a.0 * c.0) p));
  }
