-- ===== src/Sharing/Shamir.antt =====
-- `ShamirSecretSharing` of src/rra/crypto/shamir.py. The Keccak function of eth_utils and the drawn
-- coefficients are arguments; share metadata, which is never set, is left out.
use rra_module.Prelude.{
  ℕ, zero, suc, ◌+◌, ◌-◌, ◌^◌, Bool, false, not, Option, none, some, List, [], ◌∷◌, ◌++◌, map, Text,
  text_key, number_key, ◌==◌, ltb, if◌then◌else◌, length, take, get_elem?, select,
}
use rra_module.Rollup.Bytes.{Bytes, to_bytes, from_bytes}
use rra_module.Sharing.Arithmetic.{evaluate_polynomial, lagrange_interpolate}

unfoldable pub prime : ℕ
prime = 2 ^ 256 - 189

pub data ShareHolder : Type 0 where
  user dao_governance escrow_service_1 escrow_service_2 : ShareHolder
  compliance_officer protocol_multisig independent_auditor : ShareHolder

pub record ThresholdConfig : Type 0 where
  pub threshold : ℕ
  pub total_shares : ℕ
  pub holders : List ShareHolder

-- `ThresholdConfig(...)`, with `none` where it raises.
unfoldable pub new_config : ℕ → ℕ → List ShareHolder → Option ThresholdConfig
new_config threshold total_shares holders =
    if ltb threshold 2
    then none
    else if ltb total_shares threshold
    then none
    else if not (length holders == total_shares)
    then none
    else some (record { threshold = threshold; total_shares = total_shares; holders = holders })

unfoldable pub standard_3_of_5 : ThresholdConfig
standard_3_of_5 = record {
  threshold = 3;
  total_shares = 5;
  holders = user ∷ dao_governance ∷ escrow_service_1 ∷ escrow_service_2 ∷ compliance_officer ∷ [];
}

unfoldable pub simple_2_of_3 : ThresholdConfig
simple_2_of_3 = record {
  threshold = 2;
  total_shares = 3;
  holders = user ∷ dao_governance ∷ protocol_multisig ∷ [];
}

pub record KeyShare : Type 0 where
  pub index : ℕ
  pub value : Bytes
  pub holder : ShareHolder
  pub context_id : Text
  pub created_at : ℕ
  pub threshold : ℕ
  pub total_shares : ℕ
  pub commitment : Bytes

-- The exceptions: four a ValueError each, an OverflowError and an IndexError.
pub data ShamirError : Type 0 where
  secret_length no_shares not_enough_shares commitment_mismatch : ShamirError
  overflow no_holder : ShamirError

pub data Result (A : Type 0) : Type 0 where
  ok : A → Result A
  error : ShamirError → Result A

-- `x.to_bytes(32, "big")`
unfoldable pub to_bytes32 : ℕ → Result Bytes
unfolding to_bytes
to_bytes32 x = if ltb x (256 ^ 32) then ok (to_bytes 32 x) else error overflow

-- The coefficients drawn, from the i-th on.
unfoldable pub draw : (ℕ → ℕ) → ℕ → ℕ → List ℕ
draw drawn zero i = []
draw drawn (suc n) i = drawn i ∷ draw drawn n (suc i)

-- The share of the i-th holder.
unfoldable pub make_share : ℕ → List ℕ → ThresholdConfig → Text → ℕ → Bytes → ℕ → Result KeyShare
unfolding evaluate_polynomial to_bytes32
make_share p coefficients config context_id now commitment i =
    elim (to_bytes32 (evaluate_polynomial p coefficients (i + 1))) [
      | error e ↦ error e
      | ok value ↦ elim (get_elem? config.holders i) [
        | none ↦ error no_holder
        | some holder ↦ ok (record {
          index = i + 1;
          value = value;
          holder = holder;
          context_id = context_id;
          created_at = now;
          threshold = config.threshold;
          total_shares = config.total_shares;
          commitment = commitment;
        })
      ]
    ]

-- `shares.append(...)` behind a share that was made.
abbrev pub put_before : Result KeyShare → Result (List KeyShare) → Result (List KeyShare)
put_before (error e) rest = error e
put_before (ok s) (error e) = error e
put_before (ok s) (ok shares) = ok (s ∷ shares)

-- The loop over the holders, of whom `left` remain.
unfoldable pub make_shares :
    ℕ → List ℕ → ThresholdConfig → Text → ℕ → Bytes → ℕ → ℕ → Result (List KeyShare)
unfolding make_share
make_shares p coefficients config context_id now commitment zero i = ok []
make_shares p coefficients config context_id now commitment (suc left) i =
    put_before (make_share p coefficients config context_id now commitment i)
      (make_shares p coefficients config context_id now commitment left (suc i))

module _ (keccak : Bytes → Bytes) where
  unfoldable pub split : ℕ → (ℕ → ℕ) → ℕ → Bytes → ThresholdConfig → Text → Result (List KeyShare)
  unfolding from_bytes draw make_shares
  split p drawn now secret config context_id =
      if not (length secret == 32)
      then error secret_length
      else make_shares p (from_bytes secret ∷ draw drawn (config.threshold - 1) 0) config context_id
          now (keccak secret) config.total_shares 0

  -- Of the shares in use, with the commitment of the first share.
  unfoldable pub recover : ℕ → Bytes → List KeyShare → Result Bytes
  unfolding from_bytes lagrange_interpolate to_bytes32
  recover p commitment shares =
      elim (to_bytes32
        (lagrange_interpolate p 0 (map (λ (s : KeyShare). (s.index, from_bytes s.value)) shares))) [
          | error e ↦ error e
          | ok secret ↦
              if not (keccak secret == commitment) then error commitment_mismatch else ok secret
        ]

  unfoldable pub reconstruct : ℕ → List KeyShare → Result Bytes
  unfolding recover
  reconstruct p [] = error no_shares
  reconstruct p (first ∷ shares) =
      if ltb (length (first ∷ shares)) first.threshold
      then error not_enough_shares
      else recover p first.commitment (take first.threshold (first ∷ shares))

  -- `shares[:n - 1]`; for no n at all it drops the last one.
  abbrev pub take_but_one : ℕ → List KeyShare → List KeyShare
  take_but_one zero shares = take (length shares - 1) shares
  take_but_one (suc n) shares = take n shares

  unfoldable pub verify_share : ℕ → KeyShare → List KeyShare → Result Bool
  unfolding reconstruct
  verify_share p share all_shares =
      let other_shares = select (λ (s : KeyShare). not (s.index == share.index)) all_shares in
      if ltb (length other_shares) (share.threshold - 1)
      then error not_enough_shares
      else elim (reconstruct p (take_but_one share.threshold other_shares ++ share ∷ [])) [
        | error e ↦ ok false
        | ok secret ↦ ok (keccak secret == share.commitment)
      ]

  unfoldable pub split_key_for_escrow :
      (ℕ → ℕ) → ℕ → Bytes → Text → Option ThresholdConfig → Result (List KeyShare)
  unfolding split prime standard_3_of_5
  split_key_for_escrow drawn now key_bytes context_id config =
      split prime drawn now key_bytes (elim config [ none ↦ standard_3_of_5 | some c ↦ c ])
        context_id

  unfoldable pub reconstruct_key_from_shares : List KeyShare → Result Bytes
  unfolding reconstruct prime
  reconstruct_key_from_shares shares = reconstruct prime shares
