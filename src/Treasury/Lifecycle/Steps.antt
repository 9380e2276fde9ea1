-- ===== src/Treasury/Lifecycle/Steps.antt =====
-- What each method of coordinator.py does to the disputes in store.
use rra_module.Prelude.{
  ℕ, ◌≡◌, ◌∙◌, ◌++◌, set, length, inl, inr, Bool, true, Option, none, some, List, [], ◌∷◌, arith,
  Text, Option-cases, number_key,
}
use rra_module.Prelude.Int.{ℤ, pos}
use rra_module.Prelude.Dict.{lookup, insert, lookup-insert_ne}
use rra_module.Treasury.Types.{
  mediation, executed, expired, cancelled, TreasuryDispute, Coordinator, ProposalType, VoteChoice,
}
use rra_module.Treasury.Disputes.{
  create_dispute, new_dispute, stake, escrow_funds, start_voting, record_stake, record_escrow,
}
use rra_module.Treasury.Voting.{
  create_proposal, new_proposal, vote, record_vote, subscript, resolve,
}
use rra_module.Treasury.Resolution.{
  finalize_voting, request_mediation, mediator_resolve, execute_resolution, cancel_dispute,
  pick_winner,
}
use rra_module.Treasury.Lifecycle.{
  Evolves, stay, put-Evolves, all_paid_from, consensus_from, out_of_time_from, escalated_from,
  mediated_from, paid_out_from, withdrawn_from,
}

module _ (id k : ℕ) (c : Coordinator) (d : TreasuryDispute)
    (h : lookup id c.disputes ≡ some d) where
  pub cancel_dispute-Evolves :
      (requester : Text) → Evolves d (lookup id (cancel_dispute k requester c).0.disputes)
  unfolding cancel_dispute
  cancel_dispute-Evolves requester = elim (Option-cases (lookup k c.disputes)) [
    | inl missing ↦ ground (arith, stay d (lookup id c.disputes) h)
    | inr (e, found) ↦ ground (
      arith,
      stay d (lookup id c.disputes) h,
      withdrawn_from e.status,
      put-Evolves id k d e (record e { status = cancelled }) c.disputes h found,
    )
  ]

  pub stake-Evolves :
      (now later tid : ℕ) (amount : ℤ) (staker : Text)
      → Evolves d (lookup id (stake now later k tid amount staker c).0.disputes)
  unfolding stake
  stake-Evolves now later tid amount staker = elim (Option-cases (lookup k c.disputes)) [
    | inl missing ↦ ground (arith, stay d (lookup id c.disputes) h)
    | inr (e, found) ↦ elim (Option-cases (lookup tid e.participants)) [
      | inl absent ↦ ground (arith, stay d (lookup id c.disputes) h)
      | inr (p, present) ↦
          let e' = record_stake tid amount p e in
          ground (
            arith,
            stay d (lookup id c.disputes) h,
            all_paid_from e.status,
            put-Evolves id k d e e' c.disputes h found,
            put-Evolves id k d e (start_voting later c.voting_period e') c.disputes h found,
          )
    ]
  ]

  pub escrow_funds-Evolves :
      (tid : ℕ) (amount : ℤ) (token : Option Text) (depositor : Text)
      → Evolves d (lookup id (escrow_funds k tid amount token depositor c).0.disputes)
  unfolding escrow_funds
  escrow_funds-Evolves tid amount token depositor = elim (Option-cases (lookup k c.disputes)) [
    | inl missing ↦ ground (arith, stay d (lookup id c.disputes) h)
    | inr (e, found) ↦ elim (Option-cases (lookup tid e.participants)) [
      | inl absent ↦ ground (arith, stay d (lookup id c.disputes) h)
      | inr (p, present) ↦ ground (
        arith,
        stay d (lookup id c.disputes) h,
        put-Evolves id k d e (record_escrow tid amount token p e) c.disputes h found,
      )
    ]
  ]

  pub create_proposal-Evolves :
      (hexdigest : Text → Text) (now stamp tid : ℕ) (ptype : ProposalType)
      (title description uri : Text) (shares : List ℤ) (proposer : Text)
      → Evolves d (
          lookup id
            (create_proposal hexdigest now stamp k tid ptype title description uri shares proposer
              c).0.disputes)
  unfolding create_proposal
  create_proposal-Evolves hexdigest now stamp tid ptype title description uri shares proposer =
      elim (Option-cases (lookup k c.disputes)) [
        | inl missing ↦ ground (arith, stay d (lookup id c.disputes) h)
        | inr (e, found) ↦ elim (Option-cases (lookup tid e.participants)) [
          | inl absent ↦ ground (arith, stay d (lookup id c.disputes) h)
          | inr (p, present) ↦
              let pr =
                new_proposal hexdigest stamp k tid ptype title description uri shares
                  (length e.proposals) in
              ground (
                arith,
                stay d (lookup id c.disputes) h,
                put-Evolves id k d e (record e { proposals = e.proposals ++ pr ∷ [] }) c.disputes h
                    found,
              )
        ]
      ]

  pub vote-Evolves :
      (now : ℕ) (pid : ℤ) (tid : ℕ) (choice : VoteChoice) (voter : Text)
      → Evolves d (lookup id (vote now k pid tid choice voter c).0.disputes)
  unfolding vote
  vote-Evolves now pid tid choice voter = elim (Option-cases (lookup k c.disputes)) [
    | inl missing ↦ ground (arith, stay d (lookup id c.disputes) h)
    | inr (e, found) ↦ elim (Option-cases (subscript e.proposals pid)) [
      | inl outside ↦ ground (arith, stay d (lookup id c.disputes) h)
      | inr ((i, pr), at) ↦ elim (Option-cases (lookup tid e.participants)) [
        | inl absent ↦ ground (arith, stay d (lookup id c.disputes) h)
        | inr (p, present) ↦
            let prs = set e.proposals i (record_vote tid choice p.voting_weight pr) in
            let e' = record e { proposals = prs } in
            ground (
              arith,
              stay d (lookup id c.disputes) h,
              consensus_from e.status,
              put-Evolves id k d e e' c.disputes h found,
              put-Evolves id k d e (resolve pid e') c.disputes h found,
            )
      ]
    ]
  ]

  pub finalize_voting-Evolves :
      (now : ℕ) → Evolves d (lookup id (finalize_voting now k c).0.disputes)
  unfolding finalize_voting
  finalize_voting-Evolves now = elim (Option-cases (lookup k c.disputes)) [
    | inl missing ↦ ground (arith, stay d (lookup id c.disputes) h)
    | inr (e, found) ↦ elim (Option-cases (pick_winner 0 (pos 0) none e.proposals)) [
      | inl nobody ↦ ground (
        arith,
        stay d (lookup id c.disputes) h,
        out_of_time_from e.status,
        put-Evolves id k d e (record e { status = expired }) c.disputes h found,
      )
      | inr (w, winner) ↦ ground (
        arith,
        stay d (lookup id c.disputes) h,
        consensus_from e.status,
        put-Evolves id k d e (resolve (pos w) e) c.disputes h found,
      )
    ]
  ]

  pub request_mediation-Evolves :
      (tid : ℕ) (requester : Text)
      → Evolves d (lookup id (request_mediation k tid requester c).0.disputes)
  unfolding request_mediation
  request_mediation-Evolves tid requester = elim (Option-cases (lookup k c.disputes)) [
    | inl missing ↦ ground (arith, stay d (lookup id c.disputes) h)
    | inr (e, found) ↦ ground (
      arith,
      stay d (lookup id c.disputes) h,
      escalated_from e.status,
      put-Evolves id k d e (record e { status = mediation }) c.disputes h found,
    )
  ]

  pub mediator_resolve-Evolves :
      (pid : ℤ) → Evolves d (lookup id (mediator_resolve k pid c).0.disputes)
  unfolding mediator_resolve
  mediator_resolve-Evolves pid = elim (Option-cases (lookup k c.disputes)) [
    | inl missing ↦ ground (arith, stay d (lookup id c.disputes) h)
    | inr (e, found) ↦ ground (
      arith,
      stay d (lookup id c.disputes) h,
      mediated_from e.status,
      put-Evolves id k d e (resolve pid e) c.disputes h found,
    )
  ]

  pub execute_resolution-Evolves : Evolves d (lookup id (execute_resolution k c).0.disputes)
  unfolding execute_resolution
  execute_resolution-Evolves = elim (Option-cases (lookup k c.disputes)) [
    | inl missing ↦ ground (arith, stay d (lookup id c.disputes) h)
    | inr (e, found) ↦ elim (Option-cases e.winning_proposal) [
      | inl nobody ↦ ground (arith, stay d (lookup id c.disputes) h)
      | inr (w, won) ↦ elim (Option-cases (subscript e.proposals w)) [
        | inl outside ↦ ground (arith, stay d (lookup id c.disputes) h)
        | inr ((i, pr), at) ↦
            let prs = set e.proposals i (record pr { executed = true }) in
            ground (
              arith,
              stay d (lookup id c.disputes) h,
              paid_out_from e.status,
              put-Evolves id k d e (record e { proposals = prs; status = executed }) c.disputes h
                  found,
            )
      ]
    ]
  ]

  -- A new dispute takes an id that is not in use.
  pub create_dispute-Evolves :
      (now creator : ℕ) (involved : List ℕ) (title uri address : Text) (binding : Bool)
      → lookup k c.disputes ≡ none
      → Evolves d
          (lookup id (create_dispute k now creator involved title uri address binding c).0.disputes)
  unfolding create_dispute
  create_dispute-Evolves now creator involved title uri address binding fresh =
      let e = new_dispute k now c.staking_period creator (creator ∷ involved) title uri binding in
      ground (
        arith,
        stay d (lookup id c.disputes) h,
        stay d (lookup id (insert k e c.disputes))
            (lookup-insert_ne id k e c.disputes (λ same. cc) ∙ h),
      )
