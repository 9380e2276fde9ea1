-- ===== src/Treasury/Staking.antt =====
-- The start of the vote in `stake` of coordinator.py.
use rra_module.Prelude.{
  ℕ, ◌+◌, ◌≤◌, ◌≡◌, ◌≢◌, ◌↔◌, ◌⊎◌, refl, inl, inr, true, some, [], ◌∷◌, arith, Option-cases,
  Bool-cases, Text, number_key, same_number, same_number_iff,
}
use rra_module.Prelude.Int.{ℤ, pos, ◌+ℤ◌, ◌≤ℤ◌}
use rra_module.Prelude.Dict.{
  Dict, lookup, insert, lookup-insert, lookup-insert_self, lookup-insert_ne, IsNodup,
  insert-IsNodup,
}
use rra_module.Treasury.Types.{
  created, voting, TreasuryParticipant, TreasuryDispute, Coordinator, min_stake,
}
use rra_module.Treasury.Disputes.{all_staked, start_voting, record_stake, stake}
use rra_module.Treasury.Invariant.{DisputeIsSound}

abbrev Paid : Dict ℕ TreasuryParticipant → Type 0
Paid ps = (k : ℕ) (q : TreasuryParticipant) → lookup k ps ≡ some q → q.has_staked ≡ true

Paid-of-all_staked : (ps : Dict ℕ TreasuryParticipant) → all_staked ps ≡ true → Paid ps
unfolding all_staked
Paid-of-all_staked [] h k q e = cc
Paid-of-all_staked ((j, p) ∷ ps) h k q e = ground (arith, Paid-of-all_staked ps (ground arith) k q)

all_staked-of-Paid : (ps : Dict ℕ TreasuryParticipant) → IsNodup ps → Paid ps → all_staked ps ≡ true
unfolding all_staked
all_staked-of-Paid [] n h = refl
all_staked-of-Paid ((j, p) ∷ ps) n h =
    let head : p.has_staked ≡ true = h j p (ground (arith, same_number_iff j j)) in
    let rest : Paid ps = λ k q e. elim (Bool-cases (same_number j k)) [
      | inl same ↦ ground (arith, n.0)
      | inr other ↦ h k q (ground arith)
    ] in
    ground (arith, head, all_staked-of-Paid ps n.1 rest)

-- Everybody else has staked.
abbrev pub OthersPaid : ℕ → Dict ℕ TreasuryParticipant → Type 0
OthersPaid tid ps =
    (k : ℕ) (q : TreasuryParticipant) → k ≢ tid → lookup k ps ≡ some q → q.has_staked ≡ true

all_staked-insert :
    (tid : ℕ) (p : TreasuryParticipant) (ps : Dict ℕ TreasuryParticipant)
    → IsNodup ps
    → p.has_staked ≡ true
    → (all_staked (insert tid p ps) ≡ true) ↔ OthersPaid tid ps
all_staked-insert tid p ps n paid = (
  λ h k q ne e.
      Paid-of-all_staked (insert tid p ps) h k q (ground (arith, lookup-insert_ne k tid p ps ne)),
  λ others. all_staked-of-Paid (insert tid p ps) (insert-IsNodup tid p ps n) (λ k q e.
      elim (Bool-cases (same_number tid k)) [
        | inl same ↦ ground (arith, lookup-insert k tid p ps)
        | inr other ↦ others k q (ground arith) (ground (arith, lookup-insert k tid p ps))
      ]),
)

-- A stake is taken only from a participant that has not staked, before the vote, within the
-- deadline and at least the minimum; it adds its amount to the total stake, and the vote starts,
-- with its deadline one voting period later, exactly if all other participants have staked.
-- Otherwise the dispute stays as created.
pub stake-starts_vote :
    (now later id tid : ℕ) (amount : ℤ) (staker : Text) (d : TreasuryDispute) (c : Coordinator)
    → DisputeIsSound d
    → lookup id c.disputes ≡ some d
    → (stake now later id tid amount staker c).1 ≡ true
    → (d.status ≡ created)
      × (now ≤ d.staking_deadline)
      × (pos min_stake ≤ℤ amount)
      × (d' : TreasuryDispute) × (lookup id (stake now later id tid amount staker c).0.disputes
          ≡ some d')
      × (d'.total_stake ≡ d.total_stake +ℤ amount)
      × (((d'.status ≡ voting)
            × (d'.voting_deadline ≡ some (later + c.voting_period))
            × OthersPaid tid d.participants)
          ⊎ ((d'.status ≡ created) × ¬ OthersPaid tid d.participants))
unfolding stake
stake-starts_vote now later id tid amount staker d c sound found ok =
    elim (Option-cases (lookup tid d.participants)) [
      | inl absent ↦ absurd (ground arith)
      | inr (p, present) ↦
          let p' : TreasuryParticipant = record p { stake_amount = amount; has_staked = true } in
          let d' = record_stake tid amount p d in
          let split = all_staked-insert tid p' d.participants sound.keys_distinct refl in
          elim (Bool-cases (all_staked d'.participants)) [
            | inl everybody ↦ (
              ground arith,
              ground arith,
              ground arith,
              start_voting later c.voting_period d',
              ground
                  (arith, lookup-insert_self id (start_voting later c.voting_period d') c.disputes),
              refl,
              inl (refl, refl, split.0 everybody),
            )
            | inr somebody ↦ (
              ground arith,
              ground arith,
              ground arith,
              d',
              ground (arith, lookup-insert_self id d' c.disputes),
              refl,
              inr (ground arith, λ others. ground (arith, split.1 others)),
            )
          ]
    ]
