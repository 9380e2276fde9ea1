-- ===== src/Treasury/Tests.antt =====
-- Runs of the coordinator of coordinator.py, and the theorems at them.
use rra_module.Prelude.{
  AreDistinct, ℕ, ◌^◌, ◌≤◌, ◌≡◌, ◌⊎◌, refl, true, false, Option, none, some, List, [], ◌∷◌, arith,
  Text, number_key, text_key, get_elem?, Each-get_elem?, set, ◌+◌, ◌*◌, length,
}
use rra_module.Prelude.Int.{ℤ, pos, ◌+ℤ◌, ◌≤ℤ◌, ◌*ℤ◌}
use rra_module.Prelude.Dict.{Dict, lookup, AllValues-lookup}
use rra_module.Treasury.Types.{
  DisputeStatus, TreasuryType, ProposalType, VoteChoice, TreasuryDispute, Coordinator, Proposal,
  ret, min_stake,
}
use rra_module.Treasury.System.{
  Request, register, open_dispute, pay_stake, escrow, propose, cast, execute, cancel, apply, run,
  run-IsSound, run-IsSound_from,
}
use rra_module.Treasury.Registry.{new, register_treasury}
use rra_module.Treasury.Soundness.{IsSound}
use rra_module.Treasury.Invariant.{DisputeIsSound, ProposalIsSound}
use rra_module.Treasury.Subscript.{subscript-eq_some}
use rra_module.Treasury.Voting.{create_proposal, new_proposal, vote, subscript, resolve_dispute}
use rra_module.Treasury.Disputes.{put_dispute, new_dispute, create_dispute, stake, escrow_funds}
use rra_module.Treasury.Resolution.{execute_resolution, finalize_voting}
use rra_module.Treasury.Lifecycle.{Evolves}
use rra_module.Treasury.Lifecycle.Runs.{apply-Evolves, ◌⟶*◌, run-⟶*}
use rra_module.Treasury.Payout.{PaysOut, execute_resolution-PaysOut, execute_resolution_once}
use rra_module.Treasury.Winner.{IsEligible, IsFirstBest, finalize_voting-IsFirstBest}
use rra_module.Treasury.Votes.{vote_once}
use rra_module.Treasury.Staking.{OthersPaid, stake-starts_vote}

abbrev alice : Text
alice = b'A' ∷ b'l' ∷ []

abbrev bob : Text
bob = b'b' ∷ b'O' ∷ []

abbrev unit : ℕ
unit = 10 ^ 16

abbrev same_digest : Text → Text
same_digest t = t

-- Two treasuries, a dispute between them, both stakes, an escrow, a proposal and one vote for it.
abbrev opening : List Request
opening =
    register 1 5 alice TreasuryType.dao (alice ∷ []) (pos 1)
    ∷ register 2 6 bob TreasuryType.dao (bob ∷ alice ∷ []) (pos 2)
    ∷ open_dispute 7 10 1 (2 ∷ []) alice bob alice true
    ∷ pay_stake 11 12 7 1 (pos (3 * unit)) alice
    ∷ []

abbrev voting_phase : List Request
voting_phase =
    pay_stake 13 14 7 2 (pos unit) bob
    ∷ escrow 7 2 (pos 1001) none bob
    ∷ propose 15 16 7 1 ProposalType.custom alice bob alice (pos 2500 ∷ pos 7500 ∷ []) alice
    ∷ []

abbrev c_open : Coordinator
c_open = run same_digest opening (new 100 200)

abbrev c_voting : Coordinator
c_voting = run same_digest voting_phase c_open

abbrev c_voted : Coordinator
c_voted = run same_digest (cast 20 7 (pos 0) 1 VoteChoice.support alice ∷ []) c_voting

-- Three quarters of the stake support the proposal: it is resolved and pays 250 and 750.
payout_run : (execute_resolution 7 c_voted).1 ≡ ret (some ((1, pos 250) ∷ (2, pos 750) ∷ []))
unfolding run apply execute_resolution new ◌*ℤ◌ ◌+ℤ◌ register_treasury create_dispute stake
    escrow_funds create_proposal vote
payout_run = refl

abbrev pick : Option TreasuryDispute → TreasuryDispute
pick none = new_dispute 0 0 0 0 [] [] [] false
pick (some d) = d

abbrev d_open : TreasuryDispute
d_open = pick (lookup 7 c_open.disputes)

abbrev d_voting : TreasuryDispute
d_voting = pick (lookup 7 c_voting.disputes)

abbrev d_voted : TreasuryDispute
d_voted = pick (lookup 7 c_voted.disputes)

open_found : lookup 7 c_open.disputes ≡ some d_open
unfolding run apply new ◌+ℤ◌ register_treasury create_dispute stake
open_found = refl

voting_found : lookup 7 c_voting.disputes ≡ some d_voting
unfolding run apply new ◌+ℤ◌ register_treasury create_dispute stake escrow_funds create_proposal
    vote
voting_found = refl

voted_found : lookup 7 c_voted.disputes ≡ some d_voted
unfolding run apply new ◌*ℤ◌ ◌+ℤ◌ register_treasury create_dispute stake escrow_funds
    create_proposal vote
voted_found = refl

run-IsSound_example : IsSound (run same_digest opening (new 100 200))
run-IsSound_example = run-IsSound same_digest 100 200 opening

apply-Evolves_example :
    Evolves d_open (lookup 7 (apply same_digest (cancel 7 alice) c_open).disputes)
apply-Evolves_example = apply-Evolves same_digest (cancel 7 alice) c_open 7 d_open tt open_found

run-⟶*_example :
    (d' : TreasuryDispute) × (lookup 7 (run same_digest voting_phase c_open).disputes ≡ some d')
    × (d_open.status ⟶* d'.status)
    × (d'.involved_treasuries ≡ d_open.involved_treasuries)
run-⟶*_example = run-⟶* same_digest voting_phase c_open 7 d_open (tt, (tt, (tt, tt))) open_found

abbrev c_paid : Coordinator
c_paid = run same_digest (execute 7 ∷ []) c_voted

abbrev d_paid : TreasuryDispute
d_paid = pick (lookup 7 c_paid.disputes)

paid_found : (lookup 7 c_paid.disputes ≡ some d_paid) × (d_paid.status ≡ DisputeStatus.executed)
unfolding run apply new ◌*ℤ◌ ◌+ℤ◌ register_treasury create_dispute stake escrow_funds
    create_proposal vote execute_resolution
paid_found = (refl, refl)

voting_sound : DisputeIsSound d_voting
voting_sound =
    AllValues-lookup DisputeIsSound 7 c_voting.disputes
      (run-IsSound_from same_digest voting_phase c_open (run-IsSound same_digest 100 200 opening))
      voting_found

abbrev the_proposal : TreasuryDispute → Proposal
the_proposal d = elim (get_elem? d.proposals 0) [
  | some pr ↦ pr
  | none ↦ new_proposal same_digest 0 0 0 ProposalType.custom [] [] [] [] 0
]

voted_sound : DisputeIsSound d_voted
voted_sound =
    AllValues-lookup DisputeIsSound 7 c_voted.disputes
      (run-IsSound_from same_digest (cast 20 7 (pos 0) 1 VoteChoice.support alice ∷ []) c_voting (
        run-IsSound_from same_digest voting_phase c_open (run-IsSound same_digest 100 200 opening)))
      voted_found

voted_facts :
    (d_voted.status ≡ DisputeStatus.resolved)
    × (d_voted.winning_proposal ≡ some (pos 0))
    × (subscript d_voted.proposals (pos 0) ≡ some (0, the_proposal d_voted))
    × ((the_proposal d_voted).executed ≡ false)
    × (length (the_proposal d_voted).payout_shares ≡ 2)
    × (d_voted.involved_treasuries ≡ 1 ∷ 2 ∷ [])
    × (d_voted.total_stake ≡ pos (4 * unit))
    × ((the_proposal d_voted).support_weight ≡ pos (3 * unit))
unfolding run apply new ◌*ℤ◌ ◌+ℤ◌ register_treasury create_dispute stake escrow_funds
    create_proposal vote
voted_facts = (refl, refl, refl, refl, refl, refl, refl, refl)

voted_distinct : AreDistinct d_voted.involved_treasuries
voted_distinct = rw voted_facts.5 (omega arith)

execute_resolution-PaysOut_example :
    (m : Dict ℕ ℤ) × (execute_resolution 7 c_voted ≡ (
      put_dispute 7
          (record d_voted {
            proposals = set d_voted.proposals 0 (record (the_proposal d_voted) { executed = true });
            status = DisputeStatus.executed;
          })
          c_voted,
      ret (some m),
    ))
    × PaysOut d_voted m
execute_resolution-PaysOut_example =
    execute_resolution-PaysOut 7 0 (pos 0) (the_proposal d_voted) d_voted c_voted voted_sound
      voted_found voted_facts.0 voted_facts.1 voted_facts.2 voted_facts.3
      (λ e. absurd (ground (arith, e, voted_facts.4))) voted_distinct

execute_resolution_once_example :
    execute_resolution 7 (execute_resolution 7 c_voted).0
    ≡ ((execute_resolution 7 c_voted).0, ret none)
execute_resolution_once_example = execute_resolution_once 7 c_voted payout_run

voting_facts : (d_voting.status ≡ DisputeStatus.voting) × (d_voting.voting_deadline ≡ some 214)
unfolding run apply new ◌+ℤ◌ register_treasury create_dispute stake escrow_funds create_proposal
voting_facts = (refl, refl)

finalize_voting-IsFirstBest_example :
    ((k : ℕ) × (pr : Proposal) × (finalize_voting 300 7 c_voting
        ≡ (resolve_dispute 7 d_voting (pos k) c_voting, true))
      × IsFirstBest (pos 0) d_voting.proposals k pr)
    ⊎ ((finalize_voting 300 7 c_voting
          ≡ (put_dispute 7 (record d_voting { status = DisputeStatus.expired }) c_voting, false))
        × ((j : ℕ) (q : Proposal)
            → get_elem? d_voting.proposals j ≡ some q
            → IsEligible q
            → q.support_weight ≤ℤ pos 0))
finalize_voting-IsFirstBest_example =
    finalize_voting-IsFirstBest 300 7 214 d_voting c_voting voting_found voting_facts.0
      voting_facts.1 (omega arith)

vote_accepted : (vote 20 7 (pos 0) 1 VoteChoice.support alice c_voting).1 ≡ ret true
unfolding run apply new ◌*ℤ◌ ◌+ℤ◌ register_treasury create_dispute stake escrow_funds
    create_proposal vote
vote_accepted = refl

vote_once_example :
    vote 21 7
      (pos 0)
      1
      VoteChoice.oppose
      bob
      (vote 20 7 (pos 0) 1 VoteChoice.support alice c_voting).0
    ≡ ((vote 20 7 (pos 0) 1 VoteChoice.support alice c_voting).0, ret false)
vote_once_example =
    vote_once 20 21 7 (pos 0) 1 VoteChoice.support VoteChoice.oppose alice bob c_voting
      vote_accepted

-- The same dispute with two thirds of the stake behind the proposal.
abbrev d_thirds : TreasuryDispute
d_thirds = record d_voted { total_stake = pos (3 * unit) }

abbrev pr_thirds : Proposal
pr_thirds = record (the_proposal d_voted) { support_weight = pos (2 * unit) }

stake_accepted : (stake 13 14 7 2 (pos unit) bob c_open).1 ≡ true
unfolding run apply new ◌+ℤ◌ register_treasury create_dispute stake
stake_accepted = refl

open_sound : DisputeIsSound d_open
open_sound =
    AllValues-lookup DisputeIsSound 7 c_open.disputes (run-IsSound same_digest 100 200 opening)
      open_found

stake-starts_vote_example :
    (d_open.status ≡ DisputeStatus.created)
    × (13 ≤ d_open.staking_deadline)
    × (pos min_stake ≤ℤ pos unit)
    × (d' : TreasuryDispute) × (lookup 7 (stake 13 14 7 2 (pos unit) bob c_open).0.disputes
        ≡ some d')
    × (d'.total_stake ≡ d_open.total_stake +ℤ pos unit)
    × (((d'.status ≡ DisputeStatus.voting)
          × (d'.voting_deadline ≡ some (14 + c_open.voting_period))
          × OthersPaid 2 d_open.participants)
        ⊎ ((d'.status ≡ DisputeStatus.created) × ¬ OthersPaid 2 d_open.participants))
stake-starts_vote_example =
    stake-starts_vote 13 14 7 2 (pos unit) bob d_open c_open open_sound open_found stake_accepted

voted_proposal_sound :
    ProposalIsSound d_voted.participants d_voted.involved_treasuries (the_proposal d_voted)
voted_proposal_sound =
    Each-get_elem? (ProposalIsSound d_voted.participants d_voted.involved_treasuries)
      d_voted.proposals 0 voted_sound.proposals_sound
      (subscript-eq_some d_voted.proposals (pos 0) voted_facts.2)
