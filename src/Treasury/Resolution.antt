-- ===== src/Treasury/Resolution.antt =====
-- Finalising, mediation, execution and cancellation in src/rra/treasury/coordinator.py.
use rra_module.Prelude.{
  ℕ, suc, Bool, true, false, not, ◌&&◌, Option, none, some, List, [], ◌∷◌, Text, ltb, if◌then◌else◌,
  length, set, number_key,
}
use rra_module.Prelude.Int.{ℤ, pos, ◌*ℤ◌, floor_div, ltb_ℤ, leb_ℤ}
use rra_module.Prelude.Dict.{Dict, lookup, insert}
use rra_module.Treasury.Types.{
  DisputeStatus, created, staking, voting, expired, mediation, executed, cancelled, Proposal,
  percentage_base, Coordinator, Outcome, ret, raise, index_error, is_voting, is_mediation,
  is_resolved,
}
use rra_module.Treasury.Registry.{is_authorized}
use rra_module.Treasury.Disputes.{put_dispute}
use rra_module.Treasury.Voting.{subscript, resolve_dispute}

-- The loop of `finalize_voting`: `i` is the index of the first proposal left, `highest` and
-- `winning` the loop's variables.
unfoldable pub pick_winner : ℕ → ℤ → Option ℕ → List Proposal → Option ℕ
pick_winner i highest winning [] = winning
pick_winner i highest winning (pr ∷ prs) =
    let better = ltb_ℤ highest pr.support_weight && ltb_ℤ pr.oppose_weight pr.support_weight in
    pick_winner (suc i) (if better then pr.support_weight else highest)
      (if better then some i else winning) prs

-- `dispute.voting_deadline and now < dispute.voting_deadline`
abbrev pub voting_running : ℕ → Option ℕ → Bool
voting_running now none = false
voting_running now (some deadline) = ltb now deadline

unfoldable pub finalize_voting : ℕ → ℕ → Coordinator → Coordinator × Bool
unfolding pick_winner resolve_dispute
finalize_voting now dispute_id c = elim (lookup dispute_id c.disputes) [
  | none ↦ (c, false)
  | some d ↦
      if not (is_voting d.status)
      then (c, false)
      else if voting_running now d.voting_deadline
      then (c, false)
      else elim (pick_winner 0 (pos 0) none d.proposals) [
        | some winning ↦ (resolve_dispute dispute_id d (pos winning) c, true)
        | none ↦ (put_dispute dispute_id (record d { status = expired }) c, false)
      ]
]

abbrev pub can_mediate : DisputeStatus → Bool
can_mediate voting = true
can_mediate expired = true
can_mediate _ = false

-- Also `escalate_to_mediation`, which only calls it.
unfoldable pub request_mediation : ℕ → ℕ → Text → Coordinator → Coordinator × Bool
unfolding is_authorized
request_mediation dispute_id treasury_id requester c = elim (lookup dispute_id c.disputes) [
  | none ↦ (c, false)
  | some d ↦
      if not (can_mediate d.status)
      then (c, false)
      else if not (is_authorized treasury_id requester c)
      then (c, false)
      else (put_dispute dispute_id (record d { status = mediation }) c, true)
]

unfoldable pub mediator_resolve : ℕ → ℤ → Coordinator → Coordinator × Bool
unfolding resolve_dispute
mediator_resolve dispute_id proposal_id c = elim (lookup dispute_id c.disputes) [
  | none ↦ (c, false)
  | some d ↦
      if not (is_mediation d.status)
      then (c, false)
      else if leb_ℤ (pos (length d.proposals)) proposal_id
      then (c, false)
      else (resolve_dispute dispute_id d proposal_id c, true)
]

-- What a share in basis points is worth.
unfoldable pub payout : ℤ → ℤ → ℤ
unfolding floor_div
payout total_escrow share = floor_div (total_escrow *ℤ share) percentage_base

-- The loop of `execute_resolution`: `payout_shares[i]` for the i-th treasury.
unfoldable pub distribute : ℤ → List ℕ → List ℤ → Dict ℕ ℤ → Outcome (Dict ℕ ℤ)
unfolding payout
distribute escrow [] shares distribution = ret distribution
distribute escrow (tid ∷ tids) [] distribution = raise index_error
distribute escrow (tid ∷ tids) (s ∷ shares) distribution =
    distribute escrow tids shares (insert tid (payout escrow s) distribution)

abbrev pub as_result : Outcome (Dict ℕ ℤ) → Outcome (Option (Dict ℕ ℤ))
as_result (ret m) = ret (some m)
as_result (raise e) = raise e

abbrev pub is_empty {ℓ} : {A : Type ℓ} → List A → Bool
is_empty [] = true
is_empty (x ∷ xs) = false

unfoldable pub execute_resolution : ℕ → Coordinator → Coordinator × Outcome (Option (Dict ℕ ℤ))
unfolding distribute
execute_resolution dispute_id c = elim (lookup dispute_id c.disputes) [
  | none ↦ (c, ret none)
  | some d ↦ if not (is_resolved d.status) then (c, ret none) else elim d.winning_proposal [
    | none ↦ (c, ret none)
    | some w ↦ elim (subscript d.proposals w) [
      | none ↦ (c, raise index_error)
      | some (i, pr) ↦
          if pr.executed
          then (c, ret none)
          else if is_empty pr.payout_shares
          then (c, ret none)
          else (
            put_dispute dispute_id
                (record d {
                  proposals = set d.proposals i (record pr { executed = true });
                  status = executed;
                })
                c,
            as_result (distribute d.total_escrow d.involved_treasuries pr.payout_shares []),
          )
    ]
  ]
]

abbrev pub can_cancel : DisputeStatus → Bool
can_cancel created = true
can_cancel staking = true
can_cancel _ = false

unfoldable pub cancel_dispute : ℕ → Text → Coordinator → Coordinator × Bool
unfolding is_authorized
cancel_dispute dispute_id requester c = elim (lookup dispute_id c.disputes) [
  | none ↦ (c, false)
  | some d ↦
      if not (can_cancel d.status)
      then (c, false)
      else if not (is_authorized d.creator_treasury requester c)
      then (c, false)
      else (put_dispute dispute_id (record d { status = cancelled }) c, true)
]
