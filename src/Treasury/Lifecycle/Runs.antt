-- ===== src/Treasury/Lifecycle/Runs.antt =====
-- What any sequence of calls does to a dispute of coordinator.py.
use rra_module.Prelude.{
  ℕ, ◌≡◌, ◌∙◌, ◌⊎◌, refl, subst, inl, inr, none, some, List, [], ◌∷◌, arith, Text, Option-cases,
  number_key,
}
use rra_module.Prelude.Dict.{lookup}
use rra_module.Treasury.Types.{DisputeStatus, executed, cancelled, TreasuryDispute, Coordinator}
use rra_module.Treasury.Registry.{register_treasury, update_treasury_signers, deactivate_treasury}
use rra_module.Treasury.Queries.{
  set_on_dispute_created, set_on_voting_started, set_on_dispute_resolved,
}
use rra_module.Treasury.System.{
  Request, register, update_signers, deactivate, open_dispute, pay_stake, escrow, propose, cast,
  finalize, mediate, settle, execute, cancel, watch_created, watch_started, watch_resolved, apply,
  run,
}
use rra_module.Treasury.Lifecycle.{
  ◌⟶◌, all_paid, withdrawn, withdrawn_late, consensus, out_of_time, escalated, revived, mediated,
  paid_out, Evolves, stay,
}
use rra_module.Treasury.Lifecycle.Steps.{
  cancel_dispute-Evolves, stake-Evolves, escrow_funds-Evolves, create_proposal-Evolves,
  vote-Evolves, finalize_voting-Evolves, request_mediation-Evolves, mediator_resolve-Evolves,
  execute_resolution-Evolves, create_dispute-Evolves,
}

-- The ids that a call draws are not in use: the source takes 96 bits of a SHA-256 digest of fresh
-- random bytes.
abbrev pub DrawsFresh : Request → Coordinator → Type 0
DrawsFresh (open_dispute id now creator involved title uri address binding) c =
    lookup id c.disputes ≡ none
DrawsFresh _ c = Unit

-- Whatever the call, a dispute that was there is still there, its status is as it was or one
-- step further in the diagram `◌⟶◌`, and its parties, its creator and its binding force are as
-- they were, provided that a new dispute draws an id not in use.
pub apply-Evolves :
    (hexdigest : Text → Text) (r : Request) (c : Coordinator) (id : ℕ) (d : TreasuryDispute)
    → DrawsFresh r c
    → lookup id c.disputes ≡ some d
    → Evolves d (lookup id (apply hexdigest r c).disputes)
unfolding apply register_treasury update_treasury_signers deactivate_treasury set_on_dispute_created
    set_on_voting_started set_on_dispute_resolved
apply-Evolves hexdigest (register rid now name ttype signers threshold) c id d fresh h =
    ground (arith, stay d (lookup id c.disputes) h)
apply-Evolves hexdigest (update_signers tid signers threshold requester) c id d fresh h =
    ground (arith, stay d (lookup id c.disputes) h)
apply-Evolves hexdigest (deactivate tid requester) c id d fresh h =
    ground (arith, stay d (lookup id c.disputes) h)
apply-Evolves hexdigest (open_dispute k now creator involved title uri address binding) c id d fresh
      h =
    create_dispute-Evolves id k c d h now creator involved title uri address binding fresh
apply-Evolves hexdigest (pay_stake now later k tid amount staker) c id d fresh h =
    stake-Evolves id k c d h now later tid amount staker
apply-Evolves hexdigest (escrow k tid amount token depositor) c id d fresh h =
    escrow_funds-Evolves id k c d h tid amount token depositor
apply-Evolves hexdigest (propose now stamp k tid ptype title description uri shares proposer) c id d
      fresh h =
    create_proposal-Evolves id k c d h hexdigest now stamp tid ptype title description uri shares
      proposer
apply-Evolves hexdigest (cast now k pid tid choice voter) c id d fresh h =
    vote-Evolves id k c d h now pid tid choice voter
apply-Evolves hexdigest (finalize now k) c id d fresh h = finalize_voting-Evolves id k c d h now
apply-Evolves hexdigest (mediate k tid requester) c id d fresh h =
    request_mediation-Evolves id k c d h tid requester
apply-Evolves hexdigest (settle k pid) c id d fresh h = mediator_resolve-Evolves id k c d h pid
apply-Evolves hexdigest (execute k) c id d fresh h = execute_resolution-Evolves id k c d h
apply-Evolves hexdigest (cancel k requester) c id d fresh h =
    cancel_dispute-Evolves id k c d h requester
apply-Evolves hexdigest watch_created c id d fresh h = stay d (lookup id c.disputes) h
apply-Evolves hexdigest watch_started c id d fresh h = stay d (lookup id c.disputes) h
apply-Evolves hexdigest watch_resolved c id d fresh h = stay d (lookup id c.disputes) h

-- Every call of the run draws fresh ids, each at the state that it finds.
abbrev pub AllFresh : (Text → Text) → List Request → Coordinator → Type 0
AllFresh hexdigest [] c = Unit
AllFresh hexdigest (r ∷ rs) c = DrawsFresh r c × AllFresh hexdigest rs (apply hexdigest r c)

-- Reachability in the diagram.
infix 40 ◌⟶*◌
pub data ◌⟶*◌ : DisputeStatus → DisputeStatus → Type 0 where
  here : {s : DisputeStatus} → s ⟶* s
  then : {s t u : DisputeStatus} → s ⟶ t → t ⟶* u → s ⟶* u

prepend : (s t u : DisputeStatus) → (t ≡ s) ⊎ (s ⟶ t) → t ⟶* u → s ⟶* u
prepend s t u (inl same) r = subst (λ x. x ⟶* u) same r
prepend s t u (inr edge) r = then edge r

-- Over any run of calls, a dispute stays in store, its status moves along the diagram `◌⟶◌` only,
-- and its parties stay the same, provided that new disputes draw ids not in use.
pub run-⟶* :
    (hexdigest : Text → Text) (rs : List Request) (c : Coordinator) (id : ℕ) (d : TreasuryDispute)
    → AllFresh hexdigest rs c
    → lookup id c.disputes ≡ some d
    → (d' : TreasuryDispute) × (lookup id (run hexdigest rs c).disputes ≡ some d')
      × (d.status ⟶* d'.status)
      × (d'.involved_treasuries ≡ d.involved_treasuries)
unfolding run
run-⟶* hexdigest [] c id d fresh h = (d, h, here, refl)
run-⟶* hexdigest (r ∷ rs) c id d fresh h =
    elim (Option-cases (lookup id (apply hexdigest r c).disputes)) [
      | inl gone ↦ absurd (rw gone at (apply-Evolves hexdigest r c id d fresh.0 h))
      | inr (e, found) ↦
          let moved : Evolves d (some e) =
            rw found at (apply-Evolves hexdigest r c id d fresh.0 h) in
          let (d', found', reach, parties) =
            run-⟶* hexdigest rs (apply hexdigest r c) id e fresh.1 found in
          (d', found', prepend d.status e.status d'.status moved.0 reach, parties ∙ moved.1)
    ]

-- Executed and cancelled are final.
abbrev IsFinal : DisputeStatus → Type 0
IsFinal s = (s ≡ executed) ⊎ (s ≡ cancelled)

IsFinal-⟶ : {s t : DisputeStatus} → s ⟶ t → ¬ IsFinal s
IsFinal-⟶ all_paid f = grind arith
IsFinal-⟶ withdrawn f = grind arith
IsFinal-⟶ withdrawn_late f = grind arith
IsFinal-⟶ consensus f = grind arith
IsFinal-⟶ out_of_time f = grind arith
IsFinal-⟶ escalated f = grind arith
IsFinal-⟶ revived f = grind arith
IsFinal-⟶ mediated f = grind arith
IsFinal-⟶ paid_out f = grind arith

IsFinal-⟶* : {s t : DisputeStatus} → s ⟶* t → IsFinal s → t ≡ s
IsFinal-⟶* here f = refl
IsFinal-⟶* (then e r) f = absurd (IsFinal-⟶ e f)

-- An executed or cancelled dispute stays executed or cancelled, whatever is called afterwards, if
-- new disputes draw ids not in use.
pub run-final :
    (hexdigest : Text → Text) (rs : List Request) (c : Coordinator) (id : ℕ) (d : TreasuryDispute)
    → AllFresh hexdigest rs c
    → lookup id c.disputes ≡ some d
    → IsFinal d.status
    → (d' : TreasuryDispute) × (lookup id (run hexdigest rs c).disputes ≡ some d')
      × (d'.status ≡ d.status)
run-final hexdigest rs c id d fresh h f =
    let (d', found, reach, parties) = run-⟶* hexdigest rs c id d fresh h in
    (d', found, IsFinal-⟶* reach f)
