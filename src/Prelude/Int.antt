-- ===== src/Prelude/Int.antt =====
-- Python's integers over the native numbers, under the library's names.
-- Sums and orders go through the two parts of an integer, which are numbers that `omega` reads.
use Prim.Native.Nat.{ℕ, suc, ◌+◌, ◌-◌, ◌*◌, ◌/◌, ◌%◌, ◌≤◌, ◌<◌}
use mathlib.Core.Path.{◌≡◌, ap, sym, ◌∙◌}
use mathlib.Core.Logic.{◌↔◌, inl, inr}
use mathlib.Core.Bool.{Bool}
use native.Mathlib.Omega.{arith}
use native.Mathlib.Nat.{
  div-add-mod, mod-lt, mul-add, mod-eq_of_lt, add-mod-mod, le-div_iff_mul-le, div-mul-le_self,
  add-mul-mod_self_left,
}
use rra_module.Prelude.Tests.{ltb, leb, if◌then◌else◌, Bool-cases}
use rra_module.Prelude.Classes.{same_number}

-- `negsuc n` is -(n + 1).
pub data ℤ : Type 0 where
  pos : ℕ → ℤ
  negsuc : ℕ → ℤ

abbrev pub pos_part : ℤ → ℕ
pos_part (pos n) = n
pos_part (negsuc n) = 0

abbrev pub neg_part : ℤ → ℕ
neg_part (pos n) = 0
neg_part (negsuc n) = suc n

abbrev pub sub_ℕ : ℕ → ℕ → ℤ
sub_ℕ a b = if leb b a then pos (a - b) else negsuc (b - a - 1)

infixl 65 ◌+ℤ◌ ◌-ℤ◌
infixl 70 ◌*ℤ◌
infix 50 ◌≤ℤ◌ ◌<ℤ◌
unfoldable pub ◌+ℤ◌ : ℤ → ℤ → ℤ
a +ℤ b = sub_ℕ (pos_part a + pos_part b) (neg_part a + neg_part b)

unfoldable pub ◌-ℤ◌ : ℤ → ℤ → ℤ
a -ℤ b = sub_ℕ (pos_part a + neg_part b) (neg_part a + pos_part b)

unfoldable pub ◌*ℤ◌ : ℤ → ℤ → ℤ
a *ℤ b =
    sub_ℕ (pos_part a * pos_part b + neg_part a * neg_part b)
      (pos_part a * neg_part b + neg_part a * pos_part b)

-- Python's `a // n` by a positive number: rounded towards minus infinity.
unfoldable pub floor_div : ℤ → ℕ → ℤ
floor_div (pos a) n = pos (a / n)
floor_div (negsuc a) n = negsuc (a / n)

-- Python's `a % n` by a positive number, which is not negative.
unfoldable pub mod_ℤ : ℤ → ℕ → ℕ
mod_ℤ (pos a) n = a % n
mod_ℤ (negsuc a) n = n - 1 - a % n

abbrev pub ◌≤ℤ◌ : ℤ → ℤ → Type 0
a ≤ℤ b = pos_part a + neg_part b ≤ pos_part b + neg_part a

abbrev pub ◌<ℤ◌ : ℤ → ℤ → Type 0
a <ℤ b = pos_part a + neg_part b < pos_part b + neg_part a

abbrev pub ltb_ℤ : ℤ → ℤ → Bool
ltb_ℤ a b = ltb (pos_part a + neg_part b) (pos_part b + neg_part a)

abbrev pub leb_ℤ : ℤ → ℤ → Bool
leb_ℤ a b = leb (pos_part a + neg_part b) (pos_part b + neg_part a)

abbrev pub eqb_ℤ : ℤ → ℤ → Bool
eqb_ℤ a b = same_number (pos_part a + neg_part b) (pos_part b + neg_part a)

-- One lemma for each operation lets `omega` work with the operations shut, at any depth.
pub +ℤ_parts :
    (a b : ℤ)
    → pos_part (a +ℤ b) + neg_part a + neg_part b ≡ neg_part (a +ℤ b) + pos_part a + pos_part b
unfolding ◌+ℤ◌
+ℤ_parts a b = ground arith

pub -ℤ_parts :
    (a b : ℤ)
    → pos_part (a -ℤ b) + neg_part a + pos_part b ≡ neg_part (a -ℤ b) + pos_part a + neg_part b
unfolding ◌-ℤ◌
-ℤ_parts a b = ground arith

pub *ℤ_parts :
    (a b : ℤ)
    → pos_part (a *ℤ b) + (pos_part a * neg_part b + neg_part a * pos_part b)
      ≡ neg_part (a *ℤ b) + (pos_part a * pos_part b + neg_part a * neg_part b)
unfolding ◌*ℤ◌
*ℤ_parts a b = ground arith

pub eq_of_parts : (a b : ℤ) → pos_part a + neg_part b ≡ pos_part b + neg_part a → a ≡ b
eq_of_parts a b h = ground arith

pub ruleset int_laws = (arith, +ℤ_parts, -ℤ_parts, eq_of_parts)

-- Multiplication distributes over addition.
pub *ℤ_distrib : (a b c : ℤ) → a *ℤ (b +ℤ c) ≡ a *ℤ b +ℤ a *ℤ c
*ℤ_distrib a b c = omega (
  int_laws,
  *ℤ_parts a b,
  *ℤ_parts a c,
  *ℤ_parts a (b +ℤ c),
  ap (λ (t : ℕ). pos_part a * t) (+ℤ_parts b c),
  ap (λ (t : ℕ). neg_part a * t) (+ℤ_parts b c),
)

pub *ℤ_zero : (a : ℤ) → a *ℤ pos 0 ≡ pos 0
*ℤ_zero a = omega (int_laws, *ℤ_parts a (pos 0))

-- The quotient is the greatest integer whose multiple does not pass the dividend.
pub floor_div_bounds :
    (a : ℤ)
    → let q = floor_div a 10000 in
      (10000 * pos_part q + neg_part a ≤ pos_part a + 10000 * neg_part q)
      × (pos_part a + 10000 * neg_part q < 10000 * pos_part q + neg_part a + 10000)
unfolding floor_div
floor_div_bounds (pos a) = omega arith
floor_div_bounds (negsuc a) = omega arith

-- The remainder differs from the dividend by a multiple of the divisor.
pub mod_ℤ-split :
    (z : ℤ) (n : ℕ) → 0 < n → (k j : ℕ) × (mod_ℤ z n + neg_part z + n * k ≡ pos_part z + n * j)
unfolding mod_ℤ
mod_ℤ-split (pos a) n h = (a / n, 0, omega (arith, div-add-mod a n))
mod_ℤ-split (negsuc a) n h =
    (0, a / n + 1, omega (arith, div-add-mod a n, mod-lt a h, mul-add n (a / n) 1))

pub mod_ℤ-lt : (z : ℤ) (n : ℕ) → 0 < n → mod_ℤ z n < n
unfolding mod_ℤ
mod_ℤ-lt (pos a) n h = mod-lt a h
mod_ℤ-lt (negsuc a) n h = omega (arith, mod-lt a h)

pub mod_ℤ-add_pos : (a b n : ℕ) → mod_ℤ (pos a +ℤ pos b) n ≡ (a + b) % n
unfolding mod_ℤ
mod_ℤ-add_pos a b n = let e : pos a +ℤ pos b ≡ pos (a + b) = omega int_laws in ap (λ z. mod_ℤ z n) e

-- With the quotients q and q' and the remainders r and r'.
residue_below :
    (a b c n q q' r r' : ℕ)
    → b ≡ c + a
    → n * q + r ≡ b
    → n * q' + r' ≡ c
    → q' ≤ q
    → r < n
    → r' < n
    → n - 1 - r' ≡ (a + (n - 1 - r)) % n
residue_below a b c n q q' r r' sum whole part le low low' =
    let more : q ≡ q' + (q - q') = omega arith in
    let d : n * q ≡ n * q' + n * (q - q') = ap (λ t. n * t) more ∙ mul-add n q' (q - q') in
    let e : a + (n - 1 - r) ≡ n - 1 - r' + n * (q - q') = omega arith in
    sym (
      ap (λ t. t % n) e
      ∙ add-mul-mod_self_left (n - 1 - r') n (q - q')
      ∙ mod-eq_of_lt (omega arith))

mod_ℤ-add_negsuc : (a b n : ℕ) → 0 < n → mod_ℤ (pos a +ℤ negsuc b) n ≡ (a + (n - 1 - b % n)) % n
unfolding mod_ℤ
mod_ℤ-add_negsuc a b n h = elim (Bool-cases (leb (suc b) a)) [
  | inl over ↦
      let le : suc b ≤ a = ground (arith, over) in
      let e : pos a +ℤ negsuc b ≡ pos (a - suc b) = omega int_laws in
      let shift : a + (n - 1 - b % n) ≡ a - suc b + n * (b / n + 1) =
        omega (arith, div-add-mod b n, mod-lt b h, mul-add n (b / n) 1) in
      ap (λ z. mod_ℤ z n) e
      ∙ sym (ap (λ t. t % n) shift ∙ add-mul-mod_self_left (a - suc b) n (b / n + 1))
  | inr under ↦
      let le : a ≤ b = ground (arith, under) in
      let e : pos a +ℤ negsuc b ≡ negsuc (b - a) = omega int_laws in
      ap (λ z. mod_ℤ z n) e
      ∙ residue_below a b (b - a) n (b / n) ((b - a) / n) (b % n) ((b - a) % n) (omega arith)
          (div-add-mod b n) (div-add-mod (b - a) n)
          ((le-div_iff_mul-le h).1 (omega (arith, div-mul-le_self (b - a) n))) (mod-lt b h)
          (mod-lt (b - a) h)
]

-- A number is added to the remainder as to the integer.
pub mod_ℤ-add : (a : ℕ) (z : ℤ) (n : ℕ) → 0 < n → mod_ℤ (pos a +ℤ z) n ≡ (a + mod_ℤ z n) % n
unfolding mod_ℤ
mod_ℤ-add a (pos b) n h = mod_ℤ-add_pos a b n ∙ sym (add-mod-mod a b n)
mod_ℤ-add a (negsuc b) n h = mod_ℤ-add_negsuc a b n h

-- An integer below n is its own remainder exactly if it is not negative.
pub mod_ℤ_self_iff : (z : ℤ) (n : ℕ) → z <ℤ pos n → (pos (mod_ℤ z n) ≡ z) ↔ (pos 0 ≤ℤ z)
unfolding mod_ℤ
mod_ℤ_self_iff (pos a) n h = (λ e. omega arith, λ k. ap pos (mod-eq_of_lt (omega (arith, h))))
mod_ℤ_self_iff (negsuc a) n h = (λ e. absurd (ground (arith, e)), λ k. absurd (omega (arith, k)))
