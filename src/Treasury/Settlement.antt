-- ===== src/Treasury/Settlement.antt =====
-- The methods of coordinator.py that end a vote or a dispute keep every dispute sound.
use rra_module.Prelude.{
  ℕ, refl, inl, inr, true, none, some, arith, Each-set, Each-get_elem?, Option-cases, Text, set,
  number_key,
}
use rra_module.Prelude.Int.{ℤ, pos}
use rra_module.Prelude.Dict.{lookup, AllValues-insert, AllValues-lookup}
use rra_module.Treasury.Types.{Coordinator, expired, resolved, mediation, cancelled, executed}
use rra_module.Treasury.Voting.{resolve, subscript}
use rra_module.Treasury.Resolution.{
  finalize_voting, request_mediation, mediator_resolve, execute_resolution, cancel_dispute,
  pick_winner,
}
use rra_module.Treasury.Subscript.{subscript-eq_some}
use rra_module.Treasury.Invariant.{ProposalIsSound, DisputeIsSound, settle-IsSound, revise-IsSound}
use rra_module.Treasury.Soundness.{IsSound}

pub finalize_voting-IsSound :
    (now id : ℕ) (c : Coordinator) → IsSound c → IsSound (finalize_voting now id c).0
unfolding finalize_voting
finalize_voting-IsSound now id c h = elim (Option-cases (lookup id c.disputes)) [
  | inl missing ↦ ground arith
  | inr (d, found) ↦
      let s = AllValues-lookup DisputeIsSound id c.disputes h found in
      elim (Option-cases (pick_winner 0 (pos 0) none d.proposals)) [
        | inl nobody ↦ ground (
          arith,
          AllValues-insert DisputeIsSound id (record d { status = expired }) c.disputes h
              (settle-IsSound expired d.winning_proposal d s refl),
        )
        | inr (w, winner) ↦ ground (
          arith,
          AllValues-insert DisputeIsSound id (resolve (pos w) d) c.disputes h
              (settle-IsSound resolved (some (pos w)) d s refl),
        )
      ]
]

pub request_mediation-IsSound :
    (id tid : ℕ) (requester : Text) (c : Coordinator)
    → IsSound c
    → IsSound (request_mediation id tid requester c).0
unfolding request_mediation
request_mediation-IsSound id tid requester c h = elim (Option-cases (lookup id c.disputes)) [
  | inl missing ↦ ground arith
  | inr (d, found) ↦
      let s = AllValues-lookup DisputeIsSound id c.disputes h found in
      ground (
        arith,
        AllValues-insert DisputeIsSound id (record d { status = mediation }) c.disputes h
            (settle-IsSound mediation d.winning_proposal d s refl),
      )
]

pub mediator_resolve-IsSound :
    (id : ℕ) (pid : ℤ) (c : Coordinator) → IsSound c → IsSound (mediator_resolve id pid c).0
unfolding mediator_resolve
mediator_resolve-IsSound id pid c h = elim (Option-cases (lookup id c.disputes)) [
  | inl missing ↦ ground arith
  | inr (d, found) ↦
      let s = AllValues-lookup DisputeIsSound id c.disputes h found in
      ground (
        arith,
        AllValues-insert DisputeIsSound id (resolve pid d) c.disputes h
            (settle-IsSound resolved (some pid) d s refl),
      )
]

pub cancel_dispute-IsSound :
    (id : ℕ) (requester : Text) (c : Coordinator)
    → IsSound c
    → IsSound (cancel_dispute id requester c).0
unfolding cancel_dispute
cancel_dispute-IsSound id requester c h = elim (Option-cases (lookup id c.disputes)) [
  | inl missing ↦ ground arith
  | inr (d, found) ↦
      let s = AllValues-lookup DisputeIsSound id c.disputes h found in
      ground (
        arith,
        AllValues-insert DisputeIsSound id (record d { status = cancelled }) c.disputes h
            (settle-IsSound cancelled d.winning_proposal d s refl),
      )
]

pub execute_resolution-IsSound :
    (id : ℕ) (c : Coordinator) → IsSound c → IsSound (execute_resolution id c).0
unfolding execute_resolution
execute_resolution-IsSound id c h = elim (Option-cases (lookup id c.disputes)) [
  | inl missing ↦ ground arith
  | inr (d, found) ↦ elim (Option-cases d.winning_proposal) [
    | inl nobody ↦ ground arith
    | inr (w, won) ↦ elim (Option-cases (subscript d.proposals w)) [
      | inl outside ↦ ground arith
      | inr ((i, pr), at) ↦
          let s = AllValues-lookup DisputeIsSound id c.disputes h found in
          let P = ProposalIsSound d.participants d.involved_treasuries in
          let sound =
            Each-get_elem? P d.proposals i s.proposals_sound (subscript-eq_some d.proposals w at) in
          let pr' = record pr { executed = true } in
          let prs = set d.proposals i pr' in
          let d' = record d { proposals = prs } in
          ground (
            arith,
            Each-set P d.proposals i pr' s.proposals_sound (record {
              support_exact = sound.support_exact;
              oppose_exact = sound.oppose_exact;
              shares_exact = sound.shares_exact;
            }),
            revise-IsSound prs d s,
            settle-IsSound executed d.winning_proposal d',
            AllValues-insert DisputeIsSound id (record d' { status = executed }) c.disputes h,
          )
    ]
  ]
]
