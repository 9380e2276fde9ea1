-- ===== src/Treasury/Types.antt =====
-- The data of src/rra/treasury/coordinator.py: enumerations, dataclasses and the coordinator's state.
-- An id is 24 hexadecimal digits, named here by the number that they spell. Instants and periods
-- count microseconds. `metadata` is stored and never read, and is left out.
use rra_module.Prelude.{ℕ, ◌^◌, Bool, true, false, Option, List, Text}
use rra_module.Prelude.Int.{ℤ}
use rra_module.Prelude.Dict.{Dict}

pub data TreasuryType : Type 0 where
  dao multisig individual protocol corporate : TreasuryType

-- `opened` is the source's `OPEN`.
pub data DisputeStatus : Type 0 where
  created opened staking voting mediation resolved executed expired cancelled : DisputeStatus

pub data ProposalType : Type 0 where
  fund_distribution compensation_award license_terms contributor_payment custom : ProposalType

pub data VoteChoice : Type 0 where
  abstain support oppose amend : VoteChoice

pub data ProposalStatus : Type 0 where
  pending approved rejected executed cancelled : ProposalStatus

pub record Treasury : Type 0 where
  pub treasury_id : ℕ
  pub name : Text
  pub treasury_type : TreasuryType
  pub signers : List Text
  pub signer_threshold : ℤ
  pub registered_at : ℕ
  pub total_disputes : ℕ
  pub resolved_disputes : ℕ
  pub total_stake : ℕ
  pub is_active : Bool

pub record TreasuryParticipant : Type 0 where
  pub treasury_id : ℕ
  pub stake_amount : ℤ
  pub voting_weight : ℤ
  pub has_staked : Bool
  pub has_voted : Bool
  pub vote : VoteChoice
  pub escrowed_amount : ℤ
  pub escrow_token : Option Text

pub record Proposal : Type 0 where
  pub proposal_id : ℕ
  pub dispute_id : ℕ
  pub proposer_treasury : ℕ
  pub proposal_type : ProposalType
  pub content_hash : Text
  pub ipfs_uri : Text
  pub title : Text
  pub description : Text
  pub created_at : ℕ
  pub support_weight : ℤ
  pub oppose_weight : ℤ
  pub payout_shares : List ℤ
  pub executed : Bool
  pub votes : Dict ℕ VoteChoice
  pub status : ProposalStatus
  pub stake_approved : ℕ
  pub stake_rejected : ℕ
  pub stake_abstained : ℕ

pub record TreasuryDispute : Type 0 where
  pub dispute_id : ℕ
  pub creator_treasury : ℕ
  pub involved_treasuries : List ℕ
  pub title : Text
  pub description_uri : Text
  pub status : DisputeStatus
  pub created_at : ℕ
  pub staking_deadline : ℕ
  pub voting_deadline : Option ℕ
  pub total_stake : ℤ
  pub total_escrow : ℤ
  pub winning_proposal : Option ℤ
  pub is_binding : Bool
  pub mediator : Option Text
  pub participants : Dict ℕ TreasuryParticipant
  pub proposals : List Proposal

abbrev pub percentage_base : ℕ
percentage_base = 10000

-- 0.01 ETH in wei.
abbrev pub min_stake : ℕ
min_stake = 10 ^ 16

abbrev pub consensus_threshold : ℕ
consensus_threshold = 6666

-- A call of one of the three callbacks, with the dispute that it was handed.
pub data Notice : Type 0 where
  dispute_created voting_started dispute_resolved : TreasuryDispute → Notice

-- The attributes of `TreasuryCoordinator`. Of a callback the state keeps whether one is set; the
-- calls that were made are listed in `notices`, the latest first.
pub record Coordinator : Type 0 where
  pub staking_period : ℕ
  pub voting_period : ℕ
  pub treasuries : Dict ℕ Treasury
  pub disputes : Dict ℕ TreasuryDispute
  pub signer_to_treasury : Dict Text ℕ
  pub on_dispute_created : Bool
  pub on_voting_started : Bool
  pub on_dispute_resolved : Bool
  pub notices : List Notice

-- The messages of the `ValueError`s, and the `IndexError` of a list subscript.
pub data Error : Type 0 where
  no_signer bad_threshold unauthorized inactive_creator too_few too_many : Error
  bad_treasury : ℕ → Error
  index_error : Error

-- What a call that can raise gives back.
pub data Outcome (A : Type 0) : Type 0 where
  ret : A → Outcome A
  raise : Error → Outcome A

abbrev pub is_created : DisputeStatus → Bool
is_created created = true
is_created _ = false

abbrev pub is_voting : DisputeStatus → Bool
is_voting voting = true
is_voting _ = false

abbrev pub is_mediation : DisputeStatus → Bool
is_mediation mediation = true
is_mediation _ = false

abbrev pub is_resolved : DisputeStatus → Bool
is_resolved resolved = true
is_resolved _ = false
