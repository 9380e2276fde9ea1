-- ===== src/Treasury/System.antt =====
-- The coordinator of coordinator.py as a system: any sequence of calls, each with the clock
-- readings and the fresh ids that it draws.
use rra_module.Prelude.{ℕ, Bool, Option, List, [], ◌∷◌, arith, Text}
use rra_module.Prelude.Int.{ℤ}
use rra_module.Treasury.Types.{TreasuryType, ProposalType, VoteChoice, Coordinator}
use rra_module.Treasury.Registry.{
  new, register_treasury, update_treasury_signers, deactivate_treasury,
}
use rra_module.Treasury.Disputes.{create_dispute, stake, escrow_funds}
use rra_module.Treasury.Voting.{create_proposal, vote}
use rra_module.Treasury.Resolution.{
  finalize_voting, request_mediation, mediator_resolve, execute_resolution, cancel_dispute,
}
use rra_module.Treasury.Queries.{
  set_on_dispute_created, set_on_voting_started, set_on_dispute_resolved,
}
use rra_module.Treasury.Soundness.{
  IsSound, create_dispute-IsSound, stake-IsSound, escrow_funds-IsSound, create_proposal-IsSound,
  vote-IsSound,
}
use rra_module.Treasury.Settlement.{
  finalize_voting-IsSound, request_mediation-IsSound, mediator_resolve-IsSound,
  cancel_dispute-IsSound, execute_resolution-IsSound,
}

-- The calls that change the coordinator, with their arguments.
pub data Request : Type 0 where
  register : ℕ → ℕ → Text → TreasuryType → List Text → ℤ → Request
  update_signers : ℕ → List Text → ℤ → Text → Request
  deactivate : ℕ → Text → Request
  open_dispute : ℕ → ℕ → ℕ → List ℕ → Text → Text → Text → Bool → Request
  pay_stake : ℕ → ℕ → ℕ → ℕ → ℤ → Text → Request
  escrow : ℕ → ℕ → ℤ → Option Text → Text → Request
  propose : ℕ → ℕ → ℕ → ℕ → ProposalType → Text → Text → Text → List ℤ → Text → Request
  cast : ℕ → ℕ → ℤ → ℕ → VoteChoice → Text → Request
  finalize : ℕ → ℕ → Request
  mediate : ℕ → ℕ → Text → Request
  settle : ℕ → ℤ → Request
  execute : ℕ → Request
  cancel : ℕ → Text → Request
  watch_created watch_started watch_resolved : Request

module _ (hexdigest : Text → Text) where
  -- The state after a call, also after one that raises.
  unfoldable pub apply : Request → Coordinator → Coordinator
  apply (register id now name ttype signers threshold) c =
      (register_treasury id now name ttype signers threshold c).0
  apply (update_signers id signers threshold requester) c =
      (update_treasury_signers id signers threshold requester c).0
  apply (deactivate id requester) c = (deactivate_treasury id requester c).0
  apply (open_dispute id now creator involved title uri address binding) c =
      (create_dispute id now creator involved title uri address binding c).0
  apply (pay_stake now later id tid amount staker) c = (stake now later id tid amount staker c).0
  apply (escrow id tid amount token depositor) c = (escrow_funds id tid amount token depositor c).0
  apply (propose now stamp id tid ptype title description uri shares proposer) c =
      (create_proposal hexdigest now stamp id tid ptype title description uri shares proposer c).0
  apply (cast now id pid tid choice voter) c = (vote now id pid tid choice voter c).0
  apply (finalize now id) c = (finalize_voting now id c).0
  apply (mediate id tid requester) c = (request_mediation id tid requester c).0
  apply (settle id pid) c = (mediator_resolve id pid c).0
  apply (execute id) c = (execute_resolution id c).0
  apply (cancel id requester) c = (cancel_dispute id requester c).0
  apply watch_created c = set_on_dispute_created c
  apply watch_started c = set_on_voting_started c
  apply watch_resolved c = set_on_dispute_resolved c

  unfoldable pub run : List Request → Coordinator → Coordinator
  run [] c = c
  run (r ∷ rs) c = run rs (apply r c)

  pub apply-IsSound : (r : Request) (c : Coordinator) → IsSound c → IsSound (apply r c)
  unfolding apply register_treasury update_treasury_signers deactivate_treasury
      set_on_dispute_created set_on_voting_started set_on_dispute_resolved
  apply-IsSound (register id now name ttype signers threshold) c h = ground arith
  apply-IsSound (update_signers id signers threshold requester) c h = ground arith
  apply-IsSound (deactivate id requester) c h = ground arith
  apply-IsSound (open_dispute id now creator involved title uri address binding) c h =
      create_dispute-IsSound id now creator involved title uri address binding c h
  apply-IsSound (pay_stake now later id tid amount staker) c h =
      stake-IsSound now later id tid amount staker c h
  apply-IsSound (escrow id tid amount token depositor) c h =
      escrow_funds-IsSound id tid amount token depositor c h
  apply-IsSound (propose now stamp id tid ptype title description uri shares proposer) c h =
      create_proposal-IsSound hexdigest now stamp id tid ptype title description uri shares proposer
        c h
  apply-IsSound (cast now id pid tid choice voter) c h =
      vote-IsSound now id pid tid choice voter c h
  apply-IsSound (finalize now id) c h = finalize_voting-IsSound now id c h
  apply-IsSound (mediate id tid requester) c h = request_mediation-IsSound id tid requester c h
  apply-IsSound (settle id pid) c h = mediator_resolve-IsSound id pid c h
  apply-IsSound (execute id) c h = execute_resolution-IsSound id c h
  apply-IsSound (cancel id requester) c h = cancel_dispute-IsSound id requester c h
  apply-IsSound watch_created c h = h
  apply-IsSound watch_started c h = h
  apply-IsSound watch_resolved c h = h

  pub run-IsSound_from : (rs : List Request) (c : Coordinator) → IsSound c → IsSound (run rs c)
  unfolding run
  run-IsSound_from [] c h = h
  run-IsSound_from (r ∷ rs) c h = run-IsSound_from rs (apply r c) (apply-IsSound r c h)

  -- Whatever calls are made on a new coordinator, in any order and with any arguments, every
  -- dispute is sound: its participants have distinct keys, its total stake and its total escrow
  -- are the sums over its participants, a participant's weight lies between nothing and its stake,
  -- which is at least the minimum if it has staked and nothing if not, the weights of a proposal
  -- are those of the participants who voted so, its payout shares passed the validation, and
  -- there is no proposal before the vote.
  pub run-IsSound :
      (staking_period voting_period : ℕ) (rs : List Request)
      → IsSound (run rs (new staking_period voting_period))
  unfolding new
  run-IsSound staking_period voting_period rs =
      run-IsSound_from rs (new staking_period voting_period) tt
