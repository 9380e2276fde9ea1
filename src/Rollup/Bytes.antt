-- ===== src/Rollup/Bytes.antt =====
-- Bytes objects as src/rra/l3 and the secret sharing use them: lists of numbers below 256.
use native.Mathlib.Omega.{pow_step}
use mathlib.Core.List.{append-nil, append_assoc}
use rra_module.Prelude.{
  ℕ, zero, suc, ◌+◌, ◌*◌, ◌/◌, ◌%◌, ◌^◌, ◌<◌, ◌≡◌, refl, sym, subst, ◌∙◌, ap, List, [], ◌∷◌, ◌++◌,
  arith, length, length-append, take, drop, Each,
}

abbrev pub Bytes : Type 0
Bytes = List ℕ

-- `x.to_bytes(n, "big")`, for an `x` that fits.
unfoldable pub to_bytes : ℕ → ℕ → Bytes
to_bytes zero x = []
to_bytes (suc n) x = to_bytes n (x / 256) ++ (x % 256) ∷ []

abbrev from_bytes_onto : ℕ → Bytes → ℕ
from_bytes_onto acc [] = acc
from_bytes_onto acc (b ∷ bs) = from_bytes_onto (acc * 256 + b) bs

-- `int.from_bytes(bs, "big")`
unfoldable pub from_bytes : Bytes → ℕ
from_bytes bs = from_bytes_onto 0 bs

-- `bytes(n)`
unfoldable pub zeros : ℕ → Bytes
zeros zero = []
zeros (suc n) = 0 ∷ zeros n

from_bytes_onto-append :
    (acc : ℕ) (bs : Bytes) (b : ℕ)
    → from_bytes_onto acc (bs ++ b ∷ []) ≡ from_bytes_onto acc bs * 256 + b
from_bytes_onto-append acc [] b = refl
from_bytes_onto-append acc (c ∷ bs) b = from_bytes_onto-append (acc * 256 + c) bs b

small_enough : (n x : ℕ) → x < 256 ^ suc n → x / 256 < 256 ^ n
small_enough n x h = let e = pow_step 256 n in omega arith

pub from_bytes-to_bytes : (n x : ℕ) → x < 256 ^ n → from_bytes (to_bytes n x) ≡ x
unfolding from_bytes to_bytes
from_bytes-to_bytes zero x h = omega arith
from_bytes-to_bytes (suc n) x h =
    from_bytes_onto-append 0 (to_bytes n (x / 256)) (x % 256)
    ∙ omega (arith, from_bytes-to_bytes n (x / 256) (small_enough n x h))

pub length-to_bytes : (n x : ℕ) → length (to_bytes n x) ≡ n
unfolding to_bytes
length-to_bytes zero x = refl
length-to_bytes (suc n) x =
    omega (
      arith,
      length-append {0} (to_bytes n (x / 256)) ((x % 256) ∷ []),
      length-to_bytes n (x / 256),
    )

-- Slices of a concatenation at its joints.
module _ {A : Type 0} where
  pub take-append : (n : ℕ) (xs ys : List A) → length xs ≡ n → take n (xs ++ ys) ≡ xs
  take-append zero [] ys h = refl
  take-append zero (x ∷ xs) ys h = absurd (omega arith)
  take-append (suc n) [] ys h = absurd (omega arith)
  take-append (suc n) (x ∷ xs) ys h = ap (λ t. x ∷ t) (take-append n xs ys (omega arith))

  pub drop-append : (n : ℕ) (xs ys : List A) → length xs ≡ n → drop n (xs ++ ys) ≡ ys
  drop-append zero [] ys h = refl
  drop-append zero (x ∷ xs) ys h = absurd (omega arith)
  drop-append (suc n) [] ys h = absurd (omega arith)
  drop-append (suc n) (x ∷ xs) ys h = drop-append n xs ys (omega arith)

-- Numbers below 256.
abbrev pub AreBytes : Bytes → Type 0
AreBytes bs = Each (λ b. b < 256) bs

-- One more byte at the end.
to_bytes-snoc :
    (bs : Bytes) (b : ℕ)
    → b < 256
    → to_bytes (length bs) (from_bytes bs) ≡ bs
    → to_bytes (length (bs ++ b ∷ [])) (from_bytes (bs ++ b ∷ [])) ≡ bs ++ b ∷ []
unfolding to_bytes from_bytes
to_bytes-snoc bs b low h =
    let x = from_bytes_onto 0 bs in
    let longer : length (bs ++ b ∷ []) ≡ suc (length bs) =
      omega (arith, length-append {0} bs (b ∷ [])) in
    let quotient : (x * 256 + b) / 256 ≡ x = omega arith in
    let remainder : (x * 256 + b) % 256 ≡ b = omega arith in
    ap (λ n. to_bytes n (from_bytes_onto 0 (bs ++ b ∷ []))) longer
    ∙ ap (λ y. to_bytes (suc (length bs)) y) (from_bytes_onto-append 0 bs b)
    ∙ ap (λ t. to_bytes (length bs) t ++ ((x * 256 + b) % 256) ∷ []) quotient
    ∙ ap (λ t. t ++ ((x * 256 + b) % 256) ∷ []) h
    ∙ ap (λ t. bs ++ t ∷ []) remainder

to_bytes-from_bytes_onto :
    (front bs : Bytes)
    → to_bytes (length front) (from_bytes front) ≡ front
    → AreBytes bs
    → to_bytes (length (front ++ bs)) (from_bytes (front ++ bs)) ≡ front ++ bs
to_bytes-from_bytes_onto front [] h low =
    subst (λ t. to_bytes (length t) (from_bytes t) ≡ t) (sym (append-nil front)) h
to_bytes-from_bytes_onto front (b ∷ bs) h low =
    subst (λ t. to_bytes (length t) (from_bytes t) ≡ t) (append_assoc front (b ∷ []) bs)
      (to_bytes-from_bytes_onto (front ++ b ∷ []) bs (to_bytes-snoc front b low.0 h) low.1)

pub to_bytes-from_bytes : (bs : Bytes) → AreBytes bs → to_bytes (length bs) (from_bytes bs) ≡ bs
unfolding to_bytes
to_bytes-from_bytes bs low = to_bytes-from_bytes_onto [] bs refl low
