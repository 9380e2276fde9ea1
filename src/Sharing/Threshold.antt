-- ===== src/Sharing/Threshold.antt =====
-- src/rra/privacy/secret_sharing.py, sharing of numbers with checks of the shares' indices. The modulus
-- of split_secret and reconstruct_secret, a constant of the file, is an argument; the drawn
-- coefficients and the Keccak function of eth_utils are too. A secret may be a negative integer; the
-- threshold, the modulus and the shares' indices and values are not negative.
use rra_module.Prelude.{
  ℕ, zero, suc, ◌+◌, ◌-◌, ◌*◌, ◌%◌, ◌^◌, Bool, false, not, ◌&&◌, Option, none, some, List, [], ◌∷◌,
  ◌++◌, map, number_key, text_key, ◌==◌, ltb, leb, if◌then◌else◌, length, take, drop, get_elem?,
  any,
}
use rra_module.Prelude.Int.{ℤ, pos, ◌+ℤ◌, mod_ℤ, leb_ℤ}
use rra_module.Rollup.Bytes.{Bytes, to_bytes, from_bytes, zeros}
use rra_module.Sharing.Arithmetic.{pow, product_row}
use rra_module.Sharing.Shamir.{draw}

pub record Share : Type 0 where
  pub index : ℕ
  pub value : ℕ

-- A ValueError, but for the OverflowError of a number that has no place in its bytes.
pub data SharingError : Type 0 where
  secret_too_large too_few_shares invalid_index duplicate_index secret_too_long : SharingError
  invalid_numbers no_room : SharingError

pub data Outcome (A : Type 0) : Type 0 where
  done : A → Outcome A
  failed : SharingError → Outcome A

-- `Share.to_bytes`
unfoldable pub share_to_bytes : Share → Outcome Bytes
unfolding to_bytes
share_to_bytes s =
    if ltb s.index 256 && ltb s.value (256 ^ 32)
    then done (to_bytes 1 s.index ++ to_bytes 32 s.value)
    else failed no_room

-- `Share.from_bytes`, with `none` for the IndexError of no bytes at all.
unfoldable pub share_from_bytes : Bytes → Option Share
unfolding from_bytes
share_from_bytes bytes = elim (get_elem? bytes 0) [
  | none ↦ none
  | some b ↦ some (record { index = b; value = from_bytes (take 32 (drop 1 bytes)) })
]

pub record Scheme : Type 0 where
  pub threshold : ℕ
  pub total_shares : ℕ
  pub prime : ℕ

-- `ShamirSecretSharing(...)`
unfoldable pub new_scheme : ℕ → ℕ → ℕ → Outcome Scheme
new_scheme threshold total_shares p =
    if ltb threshold 2
    then failed invalid_numbers
    else if ltb total_shares threshold
    then failed invalid_numbers
    else if ltb 255 total_shares
    then failed invalid_numbers
    else done (record { threshold = threshold; total_shares = total_shares; prime = p })

-- `_evaluate_polynomial`; a coefficient may be negative, a remainder is not.
unfoldable pub evaluate : ℕ → List ℤ → ℕ → ℕ
unfolding ◌+ℤ◌ mod_ℤ
evaluate p [] x = 0
evaluate p (c ∷ cs) x = mod_ℤ (pos (evaluate p cs x * x) +ℤ c) p

-- The shares at x and after it, of which `left` are made.
unfoldable pub share_out : ℕ → List ℤ → ℕ → ℕ → List Share
unfolding evaluate
share_out p coefficients zero x = []
share_out p coefficients (suc left) x =
    record { index = x; value = evaluate p coefficients x } ∷ share_out p coefficients left (suc x)

-- `split`, which takes any integer below the prime, a negative one too.
unfoldable pub split_number : (ℕ → ℕ) → ℤ → Scheme → Outcome (List Share)
unfolding draw share_out
split_number drawn secret s =
    if leb_ℤ (pos s.prime) secret
    then failed secret_too_large
    else done
        (share_out s.prime (secret ∷ map pos (draw drawn (s.threshold - 1) 0)) s.total_shares 1)

-- The loop that checks the indices; `none` is no complaint.
unfoldable pub check_indices : List ℕ → List Share → Option SharingError
check_indices seen [] = none
check_indices seen (s ∷ shares) =
    let rest = check_indices (s.index ∷ seen) shares in
    if not (leb 1 s.index && leb s.index 255)
    then some invalid_index
    else if any (λ i. i == s.index) seen
    then some duplicate_index
    else rest

-- The loop over the shares, from the i-th on. The products are those of crypto/shamir.py at x = 0.
unfoldable pub interpolate : ℕ → List (ℕ × ℕ) → ℕ → List (ℕ × ℕ) → ℕ → ℕ
unfolding product_row pow
interpolate p points i [] secret = secret
interpolate p points i ((x_i, y_i) ∷ rest) secret =
    let (numerator, denominator) = product_row p 0 i x_i 0 points (1, 1) in
    let lagrange = (numerator * pow denominator (p - 2) p) % p in
    interpolate p points (suc i) rest ((secret + y_i * lagrange) % p)

abbrev pub points_of : List Share → List (ℕ × ℕ)
points_of shares = map (λ (s : Share). (s.index, s.value)) shares

-- `reconstruct`
unfoldable pub reconstruct_number : List Share → Scheme → Outcome ℕ
unfolding check_indices interpolate
reconstruct_number shares s =
    if ltb (length shares) s.threshold
    then failed too_few_shares
    else elim (check_indices [] shares) [
      | some e ↦ failed e
      | none ↦
          let points = points_of (take s.threshold shares) in
          done (interpolate s.prime points 0 points 0)
    ]

unfoldable pub split_secret : ℕ → (ℕ → ℕ) → Bytes → ℕ → ℕ → Outcome (List Share)
unfolding new_scheme split_number from_bytes zeros
split_secret p drawn secret threshold total_shares =
    if ltb 32 (length secret)
    then failed secret_too_long
    else elim (new_scheme threshold total_shares p) [
      | failed e ↦ failed e
      | done s ↦ split_number drawn (pos (from_bytes (secret ++ zeros (32 - length secret)))) s
    ]

unfoldable pub reconstruct_secret : ℕ → List Share → ℕ → Outcome Bytes
unfolding new_scheme reconstruct_number to_bytes
reconstruct_secret p shares threshold = elim (new_scheme threshold (length shares) p) [
  | failed e ↦ failed e
  | done s ↦ elim (reconstruct_number shares s) [
    | failed e ↦ failed e
    | done secret ↦ if ltb secret (256 ^ 32) then done (to_bytes 32 secret) else failed no_room
  ]
]

abbrev pub put_verdict : Bool → Option (Outcome (List Bool)) → Option (Outcome (List Bool))
put_verdict b (some (done bs)) = some (done (b ∷ bs))
put_verdict b (some (failed e)) = some (failed e)
put_verdict b none = none

module _ (keccak : Bytes → Bytes) where
  -- `verify_share`
  unfoldable pub verify_against : Share → Bytes → Outcome Bool
  unfolding share_to_bytes
  verify_against s commitment = elim (share_to_bytes s) [
    | failed e ↦ failed e
    | done bytes ↦ done (keccak bytes == commitment)
  ]

  -- `[keccak(share.to_bytes()) for share in shares]`
  unfoldable pub commit_all : List Share → Outcome (List Bytes)
  unfolding share_to_bytes
  commit_all [] = done []
  commit_all (s ∷ shares) =
      let rest = commit_all shares in
      elim (share_to_bytes s) [
        | failed e ↦ failed e
        | done bytes ↦ elim rest [ failed e ↦ failed e | done cs ↦ done (keccak bytes ∷ cs) ]
      ]

  -- `escrow_key`, with the numbers of the escrow.
  unfoldable pub escrow_key : ℕ → (ℕ → ℕ) → Bytes → ℕ → ℕ → Outcome (List Share × List Bytes)
  unfolding split_secret commit_all
  escrow_key p drawn viewing_key threshold total_shares =
      elim (split_secret p drawn viewing_key threshold total_shares) [
        | failed e ↦ failed e
        | done shares ↦ elim (commit_all shares) [
          | failed e ↦ failed e
          | done commitments ↦ done (shares, commitments)
        ]
      ]

  -- `commitments[i - 1]`, where index 0 finds the last one.
  abbrev pub commitment_at : ℕ → List Bytes → Option Bytes
  commitment_at zero commitments = get_elem? commitments (length commitments - 1)
  commitment_at (suc i) commitments = get_elem? commitments i

  -- `verify_shares`; with no commitments an index of 0 raises an IndexError, for which it gives none.
  unfoldable pub verify_shares : List Share → List Bytes → Option (Outcome (List Bool))
  unfolding share_to_bytes
  verify_shares [] commitments = some (done [])
  verify_shares (s ∷ shares) commitments =
      let rest = verify_shares shares commitments in
      if ltb s.index (length commitments + 1)
      then elim (commitment_at s.index commitments) [
        | none ↦ none
        | some expected ↦ elim (share_to_bytes s) [
          | failed e ↦ some (failed e)
          | done bytes ↦ put_verdict (keccak bytes == expected) rest
        ]
      ]
      else put_verdict false rest
