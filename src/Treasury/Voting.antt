-- ===== src/Treasury/Voting.antt =====
-- Proposals and votes in src/rra/treasury/coordinator.py.
use rra_module.Prelude.{
  ℕ, ◌+◌, ◌-◌, suc, Bool, true, false, not, Option, none, some, List, [], ◌∷◌, ◌++◌, Text, ltb,
  if◌then◌else◌, length, get_elem?, set, take, number_key, same_number,
}
use rra_module.Prelude.Int.{ℤ, pos, negsuc, ◌+ℤ◌, ◌*ℤ◌, floor_div, ltb_ℤ, leb_ℤ, eqb_ℤ}
use rra_module.Prelude.Dict.{Dict, lookup, insert, contains}
use rra_module.Treasury.Types.{
  ProposalType, ProposalStatus, VoteChoice, support, oppose, abstain, amend, Treasury, Proposal,
  TreasuryDispute, percentage_base, consensus_threshold, dispute_resolved, Coordinator, Outcome,
  ret, raise, index_error, is_voting, resolved,
}
use rra_module.Treasury.Registry.{is_authorized}
use rra_module.Treasury.Disputes.{notify, put_dispute}

-- `xs[i]` with Python's negative subscripts, as the position and the item; `none` is `IndexError`.
abbrev pub at_position {ℓ} : {A : Type ℓ} → ℕ → List A → Option (ℕ × A)
at_position i xs = elim (get_elem? xs i) [ none ↦ none | some x ↦ some (i, x) ]

abbrev pub subscript {ℓ} : {A : Type ℓ} → List A → ℤ → Option (ℕ × A)
subscript xs (pos i) = at_position i xs
subscript xs (negsuc i) = if ltb i (length xs) then at_position (length xs - suc i) xs else none

-- `dispute.voting_deadline and now > dispute.voting_deadline`
abbrev pub voting_over : ℕ → Option ℕ → Bool
voting_over now none = false
voting_over now (some deadline) = ltb deadline now

-- Python's `sum`.
abbrev pub sum : List ℤ → ℤ
sum [] = pos 0
sum (x ∷ xs) = x +ℤ sum xs

-- `payout_shares` is empty, or has a share for each treasury and adds up to 100%.
unfoldable pub shares_valid : List ℤ → List ℕ → Bool
shares_valid [] involved = true
shares_valid (s ∷ shares) involved =
    if not (same_number (length (s ∷ shares)) (length involved))
    then false
    else eqb_ℤ (sum (s ∷ shares)) (pos percentage_base)

-- The text that is hashed: title, description and URI, with colons between.
abbrev pub content : Text → Text → Text → Text
content title description uri = title ++ (b':' ∷ description ++ (b':' ∷ uri))

-- The record that `create_proposal` builds; `hexdigest` is SHA-256 in hexadecimal.
unfoldable pub new_proposal :
    (Text → Text) → ℕ → ℕ → ℕ → ProposalType → Text → Text → Text → List ℤ → ℕ → Proposal
new_proposal hexdigest stamp dispute_id treasury_id ptype title description uri shares number =
    record {
      proposal_id = number;
      dispute_id = dispute_id;
      proposer_treasury = treasury_id;
      proposal_type = ptype;
      content_hash = take 32 (hexdigest (content title description uri));
      ipfs_uri = uri;
      title = title;
      description = description;
      created_at = stamp;
      support_weight = pos 0;
      oppose_weight = pos 0;
      payout_shares = shares;
      executed = false;
      votes = [];
      status = ProposalStatus.pending;
      stake_approved = 0;
      stake_rejected = 0;
      stake_abstained = 0;
    }

-- `stamp` is the clock's reading for the record.
unfoldable pub create_proposal :
    (Text → Text)
    → ℕ
    → ℕ
    → ℕ
    → ℕ
    → ProposalType
    → Text
    → Text
    → Text
    → List ℤ
    → Text
    → Coordinator
    → Coordinator × Option Proposal
unfolding is_authorized shares_valid new_proposal
create_proposal hexdigest now stamp dispute_id treasury_id ptype title description uri shares
      proposer c =
    elim (lookup dispute_id c.disputes) [
      | none ↦ (c, none)
      | some d ↦
          if not (is_voting d.status)
          then (c, none)
          else if voting_over now d.voting_deadline
          then (c, none)
          else if not (is_authorized treasury_id proposer c)
          then (c, none)
          else elim (lookup treasury_id d.participants) [
            | none ↦ (c, none)
            | some p ↦
                if not p.has_staked
                then (c, none)
                else if not (shares_valid shares d.involved_treasuries)
                then (c, none)
                else let proposal =
                    new_proposal hexdigest stamp dispute_id treasury_id ptype title description uri
                      shares (length d.proposals) in
                  (
                    put_dispute dispute_id (record d { proposals = d.proposals ++ proposal ∷ [] })
                        c,
                    some proposal,
                  )
          ]
    ]

-- The vote written into the proposal.
unfoldable pub record_vote : ℕ → VoteChoice → ℤ → Proposal → Proposal
record_vote tid support weight pr = record pr {
  votes = insert tid support pr.votes;
  support_weight = pr.support_weight +ℤ weight;
}
record_vote tid oppose weight pr = record pr {
  votes = insert tid oppose pr.votes;
  oppose_weight = pr.oppose_weight +ℤ weight;
}
record_vote tid abstain weight pr = record pr { votes = insert tid abstain pr.votes }
record_vote tid amend weight pr = record pr { votes = insert tid amend pr.votes }

-- The loop over the involved treasuries in `_resolve_dispute`.
unfoldable pub count_resolved : List ℕ → Dict ℕ Treasury → Dict ℕ Treasury
count_resolved [] treasuries = treasuries
count_resolved (tid ∷ tids) treasuries = count_resolved tids (elim (lookup tid treasuries) [
  | none ↦ treasuries
  | some t ↦ insert tid (record t { resolved_disputes = t.resolved_disputes + 1 }) treasuries
])

-- What `_resolve_dispute` does to the dispute.
abbrev pub resolve : ℤ → TreasuryDispute → TreasuryDispute
resolve winning d = record d { status = resolved; winning_proposal = some winning }

-- `_resolve_dispute` on the dispute `d`, which is stored under `dispute_id`.
unfoldable pub resolve_dispute : ℕ → TreasuryDispute → ℤ → Coordinator → Coordinator
unfolding count_resolved
resolve_dispute dispute_id d winning c = record c {
  disputes = insert dispute_id (resolve winning d) c.disputes;
  treasuries = count_resolved d.involved_treasuries c.treasuries;
  notices = notify c.on_dispute_resolved (dispute_resolved (resolve winning d)) c.notices;
}

-- Python's `a // b` for a positive `b`; the product is divided by the total stake, which is
-- tested to be positive first.
unfoldable pub support_percentage : ℤ → ℤ → ℤ
unfolding floor_div
support_percentage weight (pos total) = floor_div (weight *ℤ pos percentage_base) total
support_percentage weight (negsuc total) = pos 0

-- More than 66.66% of the total stake supports the proposal.
unfoldable pub has_consensus : TreasuryDispute → Proposal → Bool
unfolding support_percentage
has_consensus d pr =
    if ltb_ℤ (pos 0) d.total_stake
    then ltb_ℤ (pos consensus_threshold) (support_percentage pr.support_weight d.total_stake)
    else false

unfoldable pub vote : ℕ → ℕ → ℤ → ℕ → VoteChoice → Text → Coordinator → Coordinator × Outcome Bool
unfolding is_authorized record_vote resolve_dispute has_consensus
vote now dispute_id proposal_id treasury_id choice voter c = elim (lookup dispute_id c.disputes) [
  | none ↦ (c, ret false)
  | some d ↦
      if not (is_voting d.status)
      then (c, ret false)
      else if voting_over now d.voting_deadline
      then (c, ret false)
      else if not (is_authorized treasury_id voter c)
      then (c, ret false)
      else if leb_ℤ (pos (length d.proposals)) proposal_id
      then (c, ret false)
      else elim (subscript d.proposals proposal_id) [
        | none ↦ (c, raise index_error)
        | some (i, pr) ↦
            if contains treasury_id pr.votes
            then (c, ret false)
            else elim (lookup treasury_id d.participants) [
              | none ↦ (c, ret false)
              | some p ↦
                  if not p.has_staked
                  then (c, ret false)
                  else let pr' = record_vote treasury_id choice p.voting_weight pr in
                    let d' = record d { proposals = set d.proposals i pr' } in
                    if has_consensus d' pr'
                    then (resolve_dispute dispute_id d' proposal_id c, ret true)
                    else (put_dispute dispute_id d' c, ret true)
            ]
      ]
]
