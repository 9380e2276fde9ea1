-- ===== src/Treasury/Soundness.antt =====
-- The methods of coordinator.py up to the vote keep every dispute sound.
use rra_module.Prelude.{
  ℕ, inl, inr, Bool, Option, some, List, [], ◌∷◌, ◌++◌, arith, Each-append, Each-set,
  Each-get_elem?, Option-cases, Text, set, length, number_key,
}
use rra_module.Prelude.Int.{ℤ}
use rra_module.Prelude.Dict.{lookup, AllValues, AllValues-insert, AllValues-lookup}
use rra_module.Treasury.Types.{ProposalType, VoteChoice, Coordinator, resolved}
use rra_module.Treasury.Disputes.{
  create_dispute, new_dispute, stake, escrow_funds, start_voting, record_stake, record_escrow,
}
use rra_module.Treasury.Voting.{
  create_proposal, new_proposal, vote, record_vote, resolve, subscript,
}
use rra_module.Treasury.Subscript.{subscript-eq_some}
use rra_module.Treasury.Invariant.{
  ProposalIsSound, DisputeIsSound, record_escrow-IsSound, record_vote-IsSound, new_proposal-IsSound,
  settle-IsSound, revise-IsSound,
}
use rra_module.Treasury.Opening.{new_dispute-IsSound, record_stake-IsSound, start_voting-IsSound}

abbrev pub IsSound : Coordinator → Type 0
IsSound c = AllValues DisputeIsSound c.disputes

pub create_dispute-IsSound :
    (id now creator : ℕ) (involved : List ℕ) (title uri address : Text) (binding : Bool)
    (c : Coordinator)
    → IsSound c
    → IsSound (create_dispute id now creator involved title uri address binding c).0
unfolding create_dispute
create_dispute-IsSound id now creator involved title uri address binding c h =
    let d = new_dispute id now c.staking_period creator (creator ∷ involved) title uri binding in
    ground (
      arith,
      AllValues-insert DisputeIsSound id d c.disputes h (
          new_dispute-IsSound id now c.staking_period creator (creator ∷ involved) title uri
            binding),
    )

pub stake-IsSound :
    (now later id tid : ℕ) (amount : ℤ) (staker : Text) (c : Coordinator)
    → IsSound c
    → IsSound (stake now later id tid amount staker c).0
unfolding stake
stake-IsSound now later id tid amount staker c h = elim (Option-cases (lookup id c.disputes)) [
  | inl missing ↦ ground arith
  | inr (d, found) ↦
      let s = AllValues-lookup DisputeIsSound id c.disputes h found in
      elim (Option-cases (lookup tid d.participants)) [
        | inl absent ↦ ground arith
        | inr (p, present) ↦
            let d' = record_stake tid amount p d in
            ground (
              arith,
              s.no_early_proposal,
              record_stake-IsSound tid amount p d s,
              start_voting-IsSound later c.voting_period d',
              AllValues-insert DisputeIsSound id d' c.disputes h,
              AllValues-insert DisputeIsSound id (start_voting later c.voting_period d') c.disputes
                  h,
            )
      ]
]

pub escrow_funds-IsSound :
    (id tid : ℕ) (amount : ℤ) (token : Option Text) (depositor : Text) (c : Coordinator)
    → IsSound c
    → IsSound (escrow_funds id tid amount token depositor c).0
unfolding escrow_funds
escrow_funds-IsSound id tid amount token depositor c h =
    elim (Option-cases (lookup id c.disputes)) [
      | inl missing ↦ ground arith
      | inr (d, found) ↦
          let s = AllValues-lookup DisputeIsSound id c.disputes h found in
          elim (Option-cases (lookup tid d.participants)) [
            | inl absent ↦ ground arith
            | inr (p, present) ↦ ground (
              arith,
              AllValues-insert DisputeIsSound id (record_escrow tid amount token p d) c.disputes h
                  (record_escrow-IsSound tid amount token p d s present),
            )
          ]
    ]

pub create_proposal-IsSound :
    (hexdigest : Text → Text) (now stamp id tid : ℕ) (ptype : ProposalType)
    (title description uri : Text) (shares : List ℤ) (proposer : Text) (c : Coordinator)
    → IsSound c
    → IsSound
        (create_proposal hexdigest now stamp id tid ptype title description uri shares proposer c).0
unfolding create_proposal
create_proposal-IsSound hexdigest now stamp id tid ptype title description uri shares proposer c h =
    elim (Option-cases (lookup id c.disputes)) [
      | inl missing ↦ ground arith
      | inr (d, found) ↦
          let s = AllValues-lookup DisputeIsSound id c.disputes h found in
          let pr =
            new_proposal hexdigest stamp id tid ptype title description uri shares
              (length d.proposals) in
          elim (Option-cases (lookup tid d.participants)) [
            | inl absent ↦ ground arith
            | inr (p, present) ↦ ground (
              arith,
              new_proposal-IsSound hexdigest stamp id tid ptype title description uri shares
                  (length d.proposals) d.participants d.involved_treasuries,
              Each-append (ProposalIsSound d.participants d.involved_treasuries) d.proposals
                  (pr ∷ []) s.proposals_sound,
              revise-IsSound (d.proposals ++ pr ∷ []) d s,
              AllValues-insert DisputeIsSound id (record d { proposals = d.proposals ++ pr ∷ [] })
                  c.disputes h,
            )
          ]
    ]

pub vote-IsSound :
    (now id : ℕ) (pid : ℤ) (tid : ℕ) (choice : VoteChoice) (voter : Text) (c : Coordinator)
    → IsSound c
    → IsSound (vote now id pid tid choice voter c).0
unfolding vote
vote-IsSound now id pid tid choice voter c h = elim (Option-cases (lookup id c.disputes)) [
  | inl missing ↦ ground arith
  | inr (d, found) ↦ elim (Option-cases (subscript d.proposals pid)) [
    | inl outside ↦ ground arith
    | inr ((i, pr), at) ↦ elim (Option-cases (lookup tid d.participants)) [
      | inl absent ↦ ground arith
      | inr (p, present) ↦
          let s = AllValues-lookup DisputeIsSound id c.disputes h found in
          let P = ProposalIsSound d.participants d.involved_treasuries in
          let sound =
            Each-get_elem? P d.proposals i s.proposals_sound
              (subscript-eq_some d.proposals pid at) in
          let pr' = record_vote tid choice p.voting_weight pr in
          let prs = set d.proposals i pr' in
          let d' = record d { proposals = prs } in
          ground (
            arith,
            record_vote-IsSound choice tid p d.participants d.involved_treasuries pr sound
                s.keys_distinct present,
            Each-set P d.proposals i pr' s.proposals_sound,
            revise-IsSound prs d s,
            settle-IsSound resolved (some pid) d',
            AllValues-insert DisputeIsSound id d' c.disputes h,
            AllValues-insert DisputeIsSound id (resolve pid d') c.disputes h,
          )
    ]
  ]
]
