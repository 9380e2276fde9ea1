-- ===== src/Confirmation/Price.antt =====
-- Price texts and commitments of src/rra/transaction/confirmation.py. Texts are ASCII; a Decimal
-- that the source builds is a number of digits with some of them behind the point.
use rra_module.Prelude.{
  ℕ, suc, ◌≡◌, ◌⊎◌, inl, inr, refl, ◌+◌, ◌-◌, ◌*◌, ◌^◌, Bool, true, false, not, ◌&&◌, ◌||◌, Option,
  none, some, [], ◌∷◌, ◌++◌, map, Text, ltb, leb, if◌then◌else◌, ◌==◌, number_key, text_key,
  same_number,
}

-- `coefficient / 10 ^ places`
pub record Decimal : Type 0 where
  pub coefficient : ℕ
  pub places : ℕ

-- Comparisons of Decimals are exact.
abbrev pub ltb_decimal : Decimal → Decimal → Bool
ltb_decimal a b = ltb (a.coefficient * 10 ^ b.places) (b.coefficient * 10 ^ a.places)

abbrev pub eqb_decimal : Decimal → Decimal → Bool
eqb_decimal a b = same_number (a.coefficient * 10 ^ b.places) (b.coefficient * 10 ^ a.places)

abbrev pub is_digit : ℕ → Bool
is_digit c = leb b'0' c && leb c b'9'

-- `[\d.]`
abbrev pub is_numeric : ℕ → Bool
is_numeric c = is_digit c || c == b'.'

-- `\s`: space, and the control characters from tab to carriage return and 28 to 31.
abbrev pub is_space : ℕ → Bool
is_space c = c == 32 || (leb 9 c && leb c 13) || (leb 28 c && leb c 31)

-- `\w`
abbrev pub is_word : ℕ → Bool
is_word c = is_digit c || (leb b'a' c && leb c b'z') || (leb b'A' c && leb c b'Z') || c == b'_'

abbrev pub drop_spaces : Text → Text
drop_spaces [] = []
drop_spaces (c ∷ s) = if is_space c then drop_spaces s else c ∷ s

abbrev pub take_word : Text → Text
take_word [] = []
take_word (c ∷ s) = if is_word c then c ∷ take_word s else []

-- `str.strip`
abbrev pub strip_end : Text → Text
strip_end [] = []
strip_end (c ∷ s) =
    let rest = strip_end s in
    elim rest [ [] ↦ if is_space c then [] else c ∷ [] | d ∷ t ↦ c ∷ d ∷ t ]

abbrev pub strip : Text → Text
strip s = strip_end (drop_spaces s)

-- `\s*(\w+)` after the group `number`, which is not empty.
unfoldable pub match_currency : Text → Text → Option (Text × Text)
match_currency [] rest = none
match_currency (n ∷ number) rest = elim (take_word (drop_spaces rest)) [
  | [] ↦ none
  | c ∷ word ↦ some (n ∷ number, c ∷ word)
]

abbrev pub or_else : Option (Text × Text) → Option (Text × Text) → Option (Text × Text)
or_else none other = other
or_else (some r) other = some r

-- `([\d.]+)\s*(\w+)`: the first group takes as much as it can, and gives back from its end where
-- the rest does not match.
unfoldable pub match_price : Text → Text → Option (Text × Text)
unfolding match_currency
match_price number [] = match_currency number []
match_price number (c ∷ rest) =
    let longer = match_price (number ++ c ∷ []) rest in
    if is_numeric c
    then or_else longer (match_currency number (c ∷ rest))
    else match_currency number (c ∷ rest)

-- `([\d.]+)` at the start; empty where it does not match.
abbrev pub numeric_prefix : Text → Text
numeric_prefix [] = []
numeric_prefix (c ∷ s) = if is_numeric c then c ∷ numeric_prefix s else []

-- `Decimal(text)` on digits and points: at least one digit and at most one point, and otherwise
-- `InvalidOperation`. `point` says whether the point was seen, `digit` whether a digit was.
unfoldable pub read_decimal : Bool → Bool → ℕ → ℕ → Text → Option Decimal
read_decimal point digit n places [] =
    if digit then some (record { coefficient = n; places = places }) else none
read_decimal point digit n places (c ∷ s) =
    let after_point = read_decimal true digit n places s in
    let after_digit =
      read_decimal point true (10 * n + (c - b'0')) (if point then suc places else places) s in
    if c == b'.'
    then (if point then none else after_point)
    else if is_digit c
    then after_digit
    else none

unfoldable pub to_decimal : Text → Option Decimal
unfolding read_decimal
to_decimal = read_decimal false false 0 0

abbrev pub upper_code : ℕ → ℕ
upper_code c = if leb b'a' c && leb c b'z' then c - 32 else c

abbrev pub upper : Text → Text
upper = map upper_code

pub record PriceCommitment : Type 0 where
  pub amount : Decimal
  pub currency : Text
  pub commitment_hash : Text
  pub created_at : ℕ

-- The messages of the `ValueError`s, and the `InvalidOperation` that is not caught.
pub data Error : Type 0 where
  bad_format bad_amount not_positive too_large below_floor invalid_operation : Error

pub data Result (A : Type 0) : Type 0 where
  ok : A → Result A
  err : Error → Result A

infixl 5 ◌>>=◌
abbrev pub ◌>>=◌ : {A B : Type 0} → Result A → (A → Result B) → Result B
ok a >>= f = f a
err e >>= f = err e

pub Result-cases :
    {A : Type 0} (r : Result A) → ((e : Error) × (r ≡ err e)) ⊎ ((a : A) × (r ≡ ok a))
Result-cases (ok a) = inr (a, refl)
Result-cases (err e) = inl (e, refl)

abbrev pub or_raise : {A : Type 0} → Option A → Error → Result A
or_raise none e = err e
or_raise (some a) e = ok a

-- `Decimal("1e18")`
abbrev pub max_price : Decimal
max_price = record { coefficient = 10 ^ 18; places = 0 }

abbrev pub zero_price : Decimal
zero_price = record { coefficient = 0; places = 0 }

-- The amount and the currency of a price text, as both methods read them.
unfoldable pub read_price : Text → Result (Decimal × Text)
unfolding match_price to_decimal
read_price price = do
  (number, word) ← or_raise (match_price [] (strip price)) bad_format
  amount ← or_raise (to_decimal number) bad_amount
  ok (amount, upper word)

-- The bounds on the amount, and the record. `digest` is the Keccak digest drawn with a nonce.
unfoldable pub bounded : Text → ℕ → Decimal → Text → Result PriceCommitment
bounded digest now amount currency =
    if not (ltb_decimal zero_price amount)
    then err not_positive
    else if ltb_decimal max_price amount
    then err too_large
    else ok (record {
      amount = amount;
      currency = currency;
      commitment_hash = digest;
      created_at = now;
    })

-- `PriceCommitment.create`
unfoldable pub create : Text → ℕ → Text → Result PriceCommitment
unfolding read_price bounded
create digest now price = do
  (amount, currency) ← read_price price
  bounded digest now amount currency

-- `PriceCommitment.verify`
unfoldable pub verify : PriceCommitment → Text → Bool
unfolding read_price
verify p price = elim (read_price price) [
  | err e ↦ false
  | ok (amount, currency) ↦ eqb_decimal amount p.amount && currency == p.currency
]
