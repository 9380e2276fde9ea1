-- ===== src/Sharing/Escrow.antt =====
-- `EscrowManager` of src/rra/crypto/shamir.py. The storage backend, which is kept and never used, is
-- left out.
use rra_module.Prelude.{
  ℕ, ◌≡◌, ◌↔◌, Bool, true, false, Option, none, some, List, [], ◌∷◌, Text, Key, text_key, ◌==◌,
  same_number, leb, if◌then◌else◌, length, any, select, arith,
}
use rra_module.Prelude.Dict.{Dict, lookup, insert}
use rra_module.Rollup.Bytes.{Bytes}
use rra_module.Sharing.Shamir.{
  ShareHolder, user, dao_governance, escrow_service_1, escrow_service_2, compliance_officer,
  protocol_multisig, independent_auditor, ThresholdConfig, KeyShare, Result, ok, error, split,
  reconstruct, standard_3_of_5, prime,
}

abbrev pub holder_number : ShareHolder → ℕ
holder_number user = 0
holder_number dao_governance = 1
holder_number escrow_service_1 = 2
holder_number escrow_service_2 = 3
holder_number compliance_officer = 4
holder_number protocol_multisig = 5
holder_number independent_auditor = 6

abbrev pub same_holder : ShareHolder → ShareHolder → Bool
same_holder a b = same_number (holder_number a) (holder_number b)

pub same_holder_iff : (a b : ShareHolder) → (same_holder a b ≡ true) ↔ (a ≡ b)
same_holder_iff a b = ground arith

instance abbrev pub holder_key : Key ShareHolder
holder_key = record { same = same_holder; same_iff = same_holder_iff }

-- `modulus` is the prime of the manager's `ShamirSecretSharing`.
pub record EscrowManager : Type 0 where
  pub config : ThresholdConfig
  pub modulus : ℕ
  pub shares_cache : Dict Text (List KeyShare)

unfoldable pub new_manager : Option ThresholdConfig → EscrowManager
unfolding standard_3_of_5 prime
new_manager config = record {
  config = elim config [ none ↦ standard_3_of_5 | some c ↦ c ];
  modulus = prime;
  shares_cache = [];
}

-- `{share.holder: share for share in shares}`, where a later share of a holder takes the place of an
-- earlier one.
abbrev pub by_holder : Dict ShareHolder KeyShare → List KeyShare → Dict ShareHolder KeyShare
by_holder d [] = d
by_holder d (s ∷ shares) = by_holder (insert s.holder s d) shares

module _ (keccak : Bytes → Bytes) where
  unfoldable pub escrow_viewing_key :
      (ℕ → ℕ)
      → ℕ
      → Bytes
      → Text
      → EscrowManager
      → EscrowManager × Result (Dict ShareHolder KeyShare)
  unfolding split
  escrow_viewing_key drawn now key_bytes context_id m =
      elim (split keccak m.modulus drawn now key_bytes m.config context_id) [
        | error e ↦ (m, error e)
        | ok shares ↦ (
          record m { shares_cache = insert context_id shares m.shares_cache },
          ok (by_holder [] shares),
        )
      ]

  unfoldable pub recover_viewing_key : Text → List KeyShare → EscrowManager → Result Bytes
  unfolding reconstruct
  recover_viewing_key context_id provided_shares m = reconstruct keccak m.modulus provided_shares

abbrev pub first_of : ShareHolder → List KeyShare → Option KeyShare
first_of holder [] = none
first_of holder (s ∷ shares) = if s.holder == holder then some s else first_of holder shares

unfoldable pub get_share_for_holder : Text → ShareHolder → EscrowManager → Option KeyShare
get_share_for_holder context_id holder m = elim (lookup context_id m.shares_cache) [
  | none ↦ none
  | some shares ↦ first_of holder shares
]

-- The shares in the list whose holders are available.
abbrev pub shares_of : List ShareHolder → List KeyShare → List KeyShare
shares_of holders shares = select (λ (s : KeyShare). any (λ h. h == s.holder) holders) shares

unfoldable pub verify_reconstruction_possible : Text → List ShareHolder → EscrowManager → Bool
verify_reconstruction_possible context_id available_holders m =
    elim (lookup context_id m.shares_cache) [
      | none ↦ false
      | some shares ↦ leb m.config.threshold (length (shares_of available_holders shares))
    ]
