-- ===== src/Treasury/Disputes.antt =====
-- Dispute creation, staking, escrow and the start of voting in src/rra/treasury/coordinator.py.
-- A method returns the coordinator and its result; a clock reading is an argument.
use rra_module.Prelude.{
  ℕ, ◌+◌, Bool, true, false, not, ◌&&◌, Option, none, some, List, [], ◌∷◌, Text, ltb, if◌then◌else◌,
  length, number_key,
}
use rra_module.Prelude.Int.{ℤ, pos, ◌+ℤ◌, ltb_ℤ}
use rra_module.Prelude.Dict.{Dict, lookup, insert}
use rra_module.Treasury.Types.{
  DisputeStatus, created, staking, voting, abstain, Treasury, TreasuryParticipant, TreasuryDispute,
  min_stake, Notice, dispute_created, voting_started, Coordinator, Outcome, ret, raise,
  unauthorized, inactive_creator, too_few, too_many, bad_treasury, is_created,
}
use rra_module.Treasury.Registry.{is_signer, is_authorized}

-- A callback is called if one is set.
abbrev pub notify : Bool → Notice → List Notice → List Notice
notify set n notices = if set then n ∷ notices else notices

abbrev pub put_dispute : ℕ → TreasuryDispute → Coordinator → Coordinator
put_dispute dispute_id d c = record c { disputes = insert dispute_id d c.disputes }

-- `TreasuryParticipant(treasury_id=tid)`
abbrev pub new_participant : ℕ → TreasuryParticipant
new_participant tid = record {
  treasury_id = tid;
  stake_amount = pos 0;
  voting_weight = pos 0;
  has_staked = false;
  has_voted = false;
  vote = abstain;
  escrowed_amount = pos 0;
  escrow_token = none;
}

-- `for tid in all_treasury_ids: participants[tid] = TreasuryParticipant(treasury_id=tid)`
unfoldable pub init_participants : List ℕ → Dict ℕ TreasuryParticipant → Dict ℕ TreasuryParticipant
init_participants [] participants = participants
init_participants (tid ∷ tids) participants =
    init_participants tids (insert tid (new_participant tid) participants)

-- The first involved treasury that is not registered or not active.
unfoldable pub first_invalid : List ℕ → Dict ℕ Treasury → Option ℕ
first_invalid [] treasuries = none
first_invalid (tid ∷ tids) treasuries =
    let rest = first_invalid tids treasuries in
    elim (lookup tid treasuries) [
      | none ↦ some tid
      | some t ↦ if t.is_active then rest else some tid
    ]

unfoldable pub new_dispute : ℕ → ℕ → ℕ → ℕ → List ℕ → Text → Text → Bool → TreasuryDispute
unfolding init_participants
new_dispute dispute_id now staking_period creator ids title description_uri is_binding = record {
  dispute_id = dispute_id;
  creator_treasury = creator;
  involved_treasuries = ids;
  title = title;
  description_uri = description_uri;
  status = created;
  created_at = now;
  staking_deadline = now + staking_period;
  voting_deadline = none;
  total_stake = pos 0;
  total_escrow = pos 0;
  winning_proposal = none;
  is_binding = is_binding;
  mediator = none;
  participants = init_participants ids [];
  proposals = [];
}

-- `dispute_id` is the digest that the source draws.
unfoldable pub create_dispute :
    ℕ
    → ℕ
    → ℕ
    → List ℕ
    → Text
    → Text
    → Text
    → Bool
    → Coordinator
    → Coordinator × Outcome TreasuryDispute
unfolding is_signer first_invalid new_dispute
create_dispute dispute_id now creator_id involved title uri address is_binding c =
    elim (lookup creator_id c.treasuries) [
      | none ↦ (c, raise unauthorized)
      | some creator ↦
          if not (is_signer creator address)
          then (c, raise unauthorized)
          else if not creator.is_active
          then (c, raise inactive_creator)
          else if ltb (length involved) 1
          then (c, raise too_few)
          else if ltb 10 (length (creator_id ∷ involved))
          then (c, raise too_many)
          else elim (first_invalid involved c.treasuries) [
            | some tid ↦ (c, raise (bad_treasury tid))
            | none ↦
                let d =
                  new_dispute dispute_id now c.staking_period creator_id (creator_id ∷ involved)
                    title uri is_binding in
                (
                  record c {
                    disputes = insert dispute_id d c.disputes;
                    treasuries =
                        insert creator_id
                          (record creator { total_disputes = creator.total_disputes + 1 })
                          c.treasuries;
                    notices = notify c.on_dispute_created (dispute_created d) c.notices;
                  },
                  ret d,
                )
          ]
    ]

unfoldable pub get_dispute : ℕ → Coordinator → Option TreasuryDispute
get_dispute dispute_id c = lookup dispute_id c.disputes

-- `dispute.all_staked`
unfoldable pub all_staked : Dict ℕ TreasuryParticipant → Bool
all_staked [] = true
all_staked ((tid, p) ∷ ps) = p.has_staked && all_staked ps

-- The loop of `_start_voting`.
unfoldable pub set_weights : Dict ℕ TreasuryParticipant → Dict ℕ TreasuryParticipant
set_weights [] = []
set_weights ((tid, p) ∷ ps) = (tid, record p { voting_weight = p.stake_amount }) ∷ set_weights ps

-- What `_start_voting` does to the dispute.
unfoldable pub start_voting : ℕ → ℕ → TreasuryDispute → TreasuryDispute
unfolding set_weights
start_voting now voting_period d = record d {
  status = voting;
  voting_deadline = some (now + voting_period);
  participants = set_weights d.participants;
}

-- The stake written into the dispute, before it is known whether all have staked.
unfoldable pub record_stake : ℕ → ℤ → TreasuryParticipant → TreasuryDispute → TreasuryDispute
record_stake treasury_id amount p d = record d {
  participants =
      insert treasury_id (record p { stake_amount = amount; has_staked = true }) d.participants;
  total_stake = d.total_stake +ℤ amount;
}

-- `now` is the clock at the check of the deadline, `later` at the start of the vote.
unfoldable pub stake : ℕ → ℕ → ℕ → ℕ → ℤ → Text → Coordinator → Coordinator × Bool
unfolding is_authorized all_staked start_voting record_stake
stake now later dispute_id treasury_id amount staker c = elim (lookup dispute_id c.disputes) [
  | none ↦ (c, false)
  | some d ↦
      if not (is_created d.status)
      then (c, false)
      else if ltb d.staking_deadline now
      then (c, false)
      else if not (is_authorized treasury_id staker c)
      then (c, false)
      else elim (lookup treasury_id d.participants) [
        | none ↦ (c, false)
        | some p ↦
            if p.has_staked
            then (c, false)
            else if ltb_ℤ amount (pos min_stake)
            then (c, false)
            else let staked = record_stake treasury_id amount p d in
              let started = start_voting later c.voting_period staked in
              if all_staked staked.participants
              then (
                record c {
                  disputes = insert dispute_id started c.disputes;
                  notices = notify c.on_voting_started (voting_started started) c.notices;
                },
                true,
              )
              else (put_dispute dispute_id staked c, true)
      ]
]

abbrev pub takes_escrow : DisputeStatus → Bool
takes_escrow created = true
takes_escrow staking = true
takes_escrow voting = true
takes_escrow _ = false

unfoldable pub record_escrow :
    ℕ → ℤ → Option Text → TreasuryParticipant → TreasuryDispute → TreasuryDispute
record_escrow treasury_id amount token p d = record d {
  participants =
      insert treasury_id
        (record p { escrowed_amount = p.escrowed_amount +ℤ amount; escrow_token = token })
        d.participants;
  total_escrow = d.total_escrow +ℤ amount;
}

unfoldable pub escrow_funds : ℕ → ℕ → ℤ → Option Text → Text → Coordinator → Coordinator × Bool
unfolding is_authorized record_escrow
escrow_funds dispute_id treasury_id amount token depositor c = elim (lookup dispute_id c.disputes) [
  | none ↦ (c, false)
  | some d ↦
      if not (takes_escrow d.status)
      then (c, false)
      else if not (is_authorized treasury_id depositor c)
      then (c, false)
      else elim (lookup treasury_id d.participants) [
        | none ↦ (c, false)
        | some p ↦ (put_dispute dispute_id (record_escrow treasury_id amount token p d) c, true)
      ]
]
