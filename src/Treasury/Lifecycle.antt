-- ===== src/Treasury/Lifecycle.antt =====
-- The life of a dispute in src/rra/treasury/coordinator.py: which statuses follow one another.
pub mod Steps
pub mod Runs
use rra_module.Prelude.{
  ℕ, ◌≡◌, ◌≢◌, ◌⊎◌, refl, subst, ◌∙◌, ◌++◌, set, length, Bool-cases, same_number, same_number_iff,
  inl, inr, Bool, true, false, Option, none, some, List, [], ◌∷◌, arith, Text, Option-cases,
  number_key,
}
use rra_module.Prelude.Int.{ℤ, pos}
use rra_module.Prelude.Dict.{Dict, lookup, insert, lookup-insert, lookup-insert_ne}
use rra_module.Treasury.Types.{
  DisputeStatus, created, voting, mediation, resolved, executed, expired, cancelled,
  TreasuryDispute, Coordinator, TreasuryType, ProposalType, VoteChoice, is_created, is_voting,
  is_mediation, is_resolved,
}
use rra_module.Treasury.Registry.{register_treasury, update_treasury_signers, deactivate_treasury}
use rra_module.Treasury.Disputes.{
  create_dispute, new_dispute, stake, escrow_funds, start_voting, record_stake, record_escrow,
}
use rra_module.Treasury.Voting.{
  create_proposal, new_proposal, vote, record_vote, subscript, resolve,
}
use rra_module.Treasury.Resolution.{
  finalize_voting, request_mediation, mediator_resolve, execute_resolution, cancel_dispute,
  pick_winner, can_mediate, can_cancel,
}
use rra_module.Treasury.Queries.{
  set_on_dispute_created, set_on_voting_started, set_on_dispute_resolved,
}
use rra_module.Treasury.System.{
  Request, register, update_signers, deactivate, open_dispute, pay_stake, escrow, propose, cast,
  finalize, mediate, settle, execute, cancel, watch_created, watch_started, watch_resolved, apply,
  run,
}

-- The transitions that the methods make.
infix 40 ◌⟶◌
pub data ◌⟶◌ : DisputeStatus → DisputeStatus → Type 0 where
  all_paid : created ⟶ voting
  withdrawn : created ⟶ cancelled
  withdrawn_late : DisputeStatus.staking ⟶ cancelled
  consensus : voting ⟶ resolved
  out_of_time : voting ⟶ expired
  escalated : voting ⟶ mediation
  revived : expired ⟶ mediation
  mediated : mediation ⟶ resolved
  paid_out : resolved ⟶ executed

abbrev pub Follows : TreasuryDispute → TreasuryDispute → Type 0
Follows e e' =
    ((e'.status ≡ e.status) ⊎ (e.status ⟶ e'.status))
    × (e'.involved_treasuries ≡ e.involved_treasuries)
    × (e'.creator_treasury ≡ e.creator_treasury)
    × (e'.is_binding ≡ e.is_binding)

-- What a call may do to the dispute stored under an id: it is still there, and its status is the
-- same or one that the diagram allows next; who takes part, who created it and whether it binds
-- never change.
abbrev pub Evolves : TreasuryDispute → Option TreasuryDispute → Type 0
Evolves d none = ⊥
Evolves d (some d') = Follows d d'

pub stay : (d : TreasuryDispute) (later : Option TreasuryDispute) → later ≡ some d → Evolves d later
stay d later e = rw e (inl refl, refl, refl, refl)

follow : (e e' d : TreasuryDispute) → e ≡ d → Follows e e' → Evolves d (some e')
follow e e' d same f = subst (λ x. Follows x e') same f

-- A write to one dispute: the one watched follows from itself, or is not touched.
pub put-Evolves :
    (id k : ℕ) (d e e' : TreasuryDispute) (ds : Dict ℕ TreasuryDispute)
    → lookup id ds ≡ some d
    → lookup k ds ≡ some e
    → Follows e e'
    → Evolves d (lookup id (insert k e' ds))
put-Evolves id k d e e' ds h found f = elim (Bool-cases (same_number k id)) [
  | inl same ↦
      rw (lookup-insert id k e' ds, same) (follow e e' d (ground (arith, same_number_iff k id)) f)
  | inr other ↦ rw (lookup-insert id k e' ds, other) (stay d (lookup id ds) h)
]

pub all_paid_from : (s : DisputeStatus) → is_created s ≡ true → s ⟶ voting
all_paid_from created h = all_paid
all_paid_from _ h = cc

pub consensus_from : (s : DisputeStatus) → is_voting s ≡ true → s ⟶ resolved
consensus_from voting h = consensus
consensus_from _ h = cc

pub out_of_time_from : (s : DisputeStatus) → is_voting s ≡ true → s ⟶ expired
out_of_time_from voting h = out_of_time
out_of_time_from _ h = cc

pub escalated_from : (s : DisputeStatus) → can_mediate s ≡ true → s ⟶ mediation
escalated_from voting h = escalated
escalated_from expired h = revived
escalated_from _ h = cc

pub mediated_from : (s : DisputeStatus) → is_mediation s ≡ true → s ⟶ resolved
mediated_from mediation h = mediated
mediated_from _ h = cc

pub paid_out_from : (s : DisputeStatus) → is_resolved s ≡ true → s ⟶ executed
paid_out_from resolved h = paid_out
paid_out_from _ h = cc

pub withdrawn_from : (s : DisputeStatus) → can_cancel s ≡ true → s ⟶ cancelled
withdrawn_from created h = withdrawn
withdrawn_from DisputeStatus.staking h = withdrawn_late
withdrawn_from _ h = cc
