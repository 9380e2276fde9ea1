-- ===== src/Treasury/Invariant.antt =====
-- What holds of every dispute that the operations of coordinator.py have made.
use rra_module.Prelude.{
  ℕ, ◌≡◌, refl, sym, ◌∙◌, true, false, Option, none, some, List, [], arith, Each, Each-map,
  number_key,
}
use rra_module.Prelude.Int.{ℤ, ◌+ℤ◌, ◌≤ℤ◌, int_laws}
use rra_module.Prelude.Dict.{
  Dict, lookup, insert, IsNodup, insert-IsNodup, AllValues, AllValues-insert, AllValues-lookup,
}
use rra_module.Treasury.Types.{
  VoteChoice, support, oppose, abstain, amend, DisputeStatus, ProposalType, TreasuryParticipant,
  Proposal, TreasuryDispute, is_created,
}
use rra_module.Treasury.Disputes.{record_escrow}
use rra_module.Treasury.Voting.{record_vote, shares_valid, new_proposal}
use rra_module.Treasury.Weights.{
  sum_by, sum_by-insert, sum_by-insert_same, backing, backing-nobody, backing-insert,
  backing-update, backing-le, ParticipantIsSound,
}

-- A proposal's weights are those of the participants who voted so, and its shares are valid.
pub record ProposalIsSound (ps : Dict ℕ TreasuryParticipant) (involved : List ℕ) (pr : Proposal)
    : Type 0 where
  pub support_exact : pr.support_weight ≡ backing support pr.votes ps
  pub oppose_exact : pr.oppose_weight ≡ backing oppose pr.votes ps
  pub shares_exact : shares_valid pr.payout_shares involved ≡ true

pub record DisputeIsSound (d : TreasuryDispute) : Type 0 where
  pub keys_distinct : IsNodup d.participants
  pub stake_exact : d.total_stake ≡ sum_by (λ p. p.stake_amount) d.participants
  pub escrow_exact : d.total_escrow ≡ sum_by (λ p. p.escrowed_amount) d.participants
  pub participants_sound : AllValues ParticipantIsSound d.participants
  pub proposals_sound : Each (ProposalIsSound d.participants d.involved_treasuries) d.proposals
  pub no_early_proposal : is_created d.status ≡ true → d.proposals ≡ []

pub record_escrow-IsSound :
    (tid : ℕ) (amount : ℤ) (token : Option (List ℕ)) (p : TreasuryParticipant) (d : TreasuryDispute)
    → DisputeIsSound d
    → lookup tid d.participants ≡ some p
    → DisputeIsSound (record_escrow tid amount token p d)
unfolding record_escrow
record_escrow-IsSound tid amount token p d s found =
    let sound = AllValues-lookup ParticipantIsSound tid d.participants s.participants_sound found in
    let p' : TreasuryParticipant = record p {
      escrowed_amount = p.escrowed_amount +ℤ amount;
      escrow_token = token;
    } in
    record {
      keys_distinct = insert-IsNodup tid p' d.participants s.keys_distinct;
      stake_exact =
          s.stake_exact
          ∙ sym (sum_by-insert_same (λ q. q.stake_amount) tid p' p d.participants found refl);
      escrow_exact = grind (
        int_laws,
        s.escrow_exact,
        sum_by-insert (λ q. q.escrowed_amount) tid p' p d.participants found,
      );
      participants_sound =
          AllValues-insert ParticipantIsSound tid p' d.participants s.participants_sound
            (ground (arith, sound));
      proposals_sound =
          Each-map (ProposalIsSound d.participants d.involved_treasuries)
            (ProposalIsSound (insert tid p' d.participants) d.involved_treasuries) d.proposals
            (λ pr h. record {
              support_exact =
                  h.support_exact
                  ∙ sym (backing-update support pr.votes tid p' p d.participants found refl);
              oppose_exact =
                  h.oppose_exact
                  ∙ sym (backing-update oppose pr.votes tid p' p d.participants found refl);
              shares_exact = h.shares_exact;
            })
            s.proposals_sound;
      no_early_proposal = s.no_early_proposal;
    }

-- A first vote of a participant moves its whole weight, and nothing else, into the tally.
pub record_vote-IsSound :
    (choice : VoteChoice) (tid : ℕ) (p : TreasuryParticipant) (ps : Dict ℕ TreasuryParticipant)
    (involved : List ℕ) (pr : Proposal)
    → ProposalIsSound ps involved pr
    → IsNodup ps
    → lookup tid ps ≡ some p
    → lookup tid pr.votes ≡ none
    → ProposalIsSound ps involved (record_vote tid choice p.voting_weight pr)
unfolding record_vote
record_vote-IsSound support tid p ps involved pr s distinct found new = grind (
  int_laws,
  s.support_exact,
  backing-insert support support tid pr.votes p ps new distinct found,
  backing-insert oppose support tid pr.votes p ps new distinct found,
)
record_vote-IsSound oppose tid p ps involved pr s distinct found new = grind (
  int_laws,
  s.oppose_exact,
  backing-insert support oppose tid pr.votes p ps new distinct found,
  backing-insert oppose oppose tid pr.votes p ps new distinct found,
)
record_vote-IsSound abstain tid p ps involved pr s distinct found new = grind (
  int_laws,
  backing-insert support abstain tid pr.votes p ps new distinct found,
  backing-insert oppose abstain tid pr.votes p ps new distinct found,
)
record_vote-IsSound amend tid p ps involved pr s distinct found new = grind (
  int_laws,
  backing-insert support amend tid pr.votes p ps new distinct found,
  backing-insert oppose amend tid pr.votes p ps new distinct found,
)

-- The support and the opposition of a proposal never add up to more than the total stake.
pub weights-le-stake :
    (d : TreasuryDispute) (pr : Proposal)
    → DisputeIsSound d
    → ProposalIsSound d.participants d.involved_treasuries pr
    → pr.support_weight +ℤ pr.oppose_weight ≤ℤ d.total_stake
weights-le-stake d pr s h =
    rw (h.support_exact, h.oppose_exact, s.stake_exact)
      (backing-le pr.votes d.participants s.participants_sound)

-- After the start of the vote, a new status keeps the dispute sound.
pub settle-IsSound :
    (status : DisputeStatus) (winning : Option ℤ) (d : TreasuryDispute)
    → DisputeIsSound d
    → is_created status ≡ false
    → DisputeIsSound (record d { status = status; winning_proposal = winning })
settle-IsSound status winning d s late = record {
  keys_distinct = s.keys_distinct;
  stake_exact = s.stake_exact;
  escrow_exact = s.escrow_exact;
  participants_sound = s.participants_sound;
  proposals_sound = s.proposals_sound;
  no_early_proposal = λ h. cc;
}

-- So does a new list of sound proposals.
pub revise-IsSound :
    (prs : List Proposal) (d : TreasuryDispute)
    → DisputeIsSound d
    → is_created d.status ≡ false
    → Each (ProposalIsSound d.participants d.involved_treasuries) prs
    → DisputeIsSound (record d { proposals = prs })
revise-IsSound prs d s late ok = record {
  keys_distinct = s.keys_distinct;
  stake_exact = s.stake_exact;
  escrow_exact = s.escrow_exact;
  participants_sound = s.participants_sound;
  proposals_sound = ok;
  no_early_proposal = λ h. cc;
}

-- A new proposal has no votes, so its weights are nil.
pub new_proposal-IsSound :
    (hexdigest : List ℕ → List ℕ) (stamp id tid : ℕ) (ptype : ProposalType)
    (title description uri : List ℕ) (shares : List ℤ) (number : ℕ)
    (ps : Dict ℕ TreasuryParticipant) (involved : List ℕ)
    → shares_valid shares involved ≡ true
    → ProposalIsSound ps involved
        (new_proposal hexdigest stamp id tid ptype title description uri shares number)
unfolding new_proposal
new_proposal-IsSound hexdigest stamp id tid ptype title description uri shares number ps involved
      ok =
    record {
      support_exact = sym (backing-nobody support ps);
      oppose_exact = sym (backing-nobody oppose ps);
      shares_exact = ok;
    }
