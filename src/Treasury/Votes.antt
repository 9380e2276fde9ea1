-- ===== src/Treasury/Votes.antt =====
-- What a vote in coordinator.py does, and what it takes to resolve a dispute by consensus.
use rra_module.Prelude.{
  ℕ, ◌+◌, ◌*◌, ◌≤◌, ◌<◌, ◌≡◌, ◌↔◌, inl, inr, true, false, some, arith, set, Option-cases,
  Bool-cases, Text, number_key,
}
use native.Mathlib.Nat.{le-div_iff_mul-le}
use rra_module.Prelude.Int.{ℤ, pos, negsuc, pos_part, neg_part, ◌*ℤ◌, ltb_ℤ, floor_div}
use rra_module.Prelude.Dict.{lookup, lookup-insert_self}
use rra_module.Treasury.Types.{
  VoteChoice, support, oppose, abstain, amend, Proposal, TreasuryDispute, Coordinator, ret,
  consensus_threshold,
}
use rra_module.Treasury.Voting.{
  subscript, record_vote, support_percentage, has_consensus, vote, resolve,
}
use rra_module.Treasury.Subscript.{subscript-set}

support_percentage-gt :
    (w : ℤ) (t : ℕ)
    → 0 < t
    → (ltb_ℤ (pos consensus_threshold) (support_percentage w (pos t)) ≡ true)
      ↔ (6667 * t + 10000 * neg_part w ≤ 10000 * pos_part w)
unfolding support_percentage ◌*ℤ◌ floor_div
support_percentage-gt (pos w) t h = ground (
  arith,
  (le-div_iff_mul-le {x = 6667} {y = w * 10000} h).0,
  (le-div_iff_mul-le {x = 6667} {y = w * 10000} h).1,
)
support_percentage-gt (negsuc w) t h = ground arith

-- With something at stake, a proposal has consensus exactly if its support is at least 66.67% of
-- the total stake, to be compared without rounding.
pub has_consensus_iff :
    (d : TreasuryDispute) (pr : Proposal) (t : ℕ)
    → 0 < t
    → d.total_stake ≡ pos t
    → (has_consensus d pr ≡ true)
      ↔ (6667 * t + 10000 * neg_part pr.support_weight ≤ 10000 * pos_part pr.support_weight)
unfolding has_consensus
has_consensus_iff d pr t h e = rw e (ground (arith, support_percentage-gt pr.support_weight t h))

-- The support of exactly two thirds of the stake is no consensus.
pub two_thirds-no_consensus :
    (d : TreasuryDispute) (pr : Proposal) (n : ℕ)
    → 0 < n
    → d.total_stake ≡ pos (3 * n)
    → pr.support_weight ≡ pos (2 * n)
    → has_consensus d pr ≡ false
two_thirds-no_consensus d pr n h e s = elim (Bool-cases (has_consensus d pr)) [
  | inl reached ↦
      absurd (omega (arith, rw s at ((has_consensus_iff d pr (3 * n) (omega arith) e).0 reached)))
  | inr short ↦ short
]

votes-record_vote :
    (tid : ℕ) (choice : VoteChoice) (w : ℤ) (pr : Proposal)
    → lookup tid (record_vote tid choice w pr).votes ≡ some choice
unfolding record_vote
votes-record_vote tid support w pr = lookup-insert_self tid support pr.votes
votes-record_vote tid oppose w pr = lookup-insert_self tid oppose pr.votes
votes-record_vote tid abstain w pr = lookup-insert_self tid abstain pr.votes
votes-record_vote tid amend w pr = lookup-insert_self tid amend pr.votes

-- Whoever has a vote on record is refused, in any status.
vote_refused :
    (now id : ℕ) (pid : ℤ) (tid i : ℕ) (choice cast : VoteChoice) (voter : Text) (pr : Proposal)
    (d : TreasuryDispute) (c : Coordinator)
    → lookup id c.disputes ≡ some d
    → subscript d.proposals pid ≡ some (i, pr)
    → lookup tid pr.votes ≡ some cast
    → vote now id pid tid choice voter c ≡ (c, ret false)
unfolding vote
vote_refused now id pid tid i choice cast voter pr d c found at voted = ground arith

-- What a recorded vote leaves behind.
abbrev Recorded : ℕ → ℤ → ℕ → VoteChoice → Coordinator → Type 0
Recorded id pid tid choice c =
    (d : TreasuryDispute) × (i : ℕ) × (pr : Proposal) × (lookup id c.disputes ≡ some d)
    × (subscript d.proposals pid ≡ some (i, pr))
    × (lookup tid pr.votes ≡ some choice)

vote-Recorded :
    (now id : ℕ) (pid : ℤ) (tid : ℕ) (choice : VoteChoice) (voter : Text) (c : Coordinator)
    → (vote now id pid tid choice voter c).1 ≡ ret true
    → Recorded id pid tid choice (vote now id pid tid choice voter c).0
unfolding vote
vote-Recorded now id pid tid choice voter c ok = elim (Option-cases (lookup id c.disputes)) [
  | inl missing ↦ absurd (ground arith)
  | inr (d, found) ↦ elim (Option-cases (subscript d.proposals pid)) [
    | inl outside ↦ absurd (ground arith)
    | inr ((i, pr), at) ↦ elim (Option-cases (lookup tid d.participants)) [
      | inl absent ↦ absurd (ground arith)
      | inr (p, present) ↦
          let pr' = record_vote tid choice p.voting_weight pr in
          let d' = record d { proposals = set d.proposals i pr' } in
          elim (Bool-cases (has_consensus d' pr')) [
            | inl reached ↦ (
              resolve pid d',
              i,
              pr',
              ground (arith, lookup-insert_self id (resolve pid d') c.disputes),
              subscript-set d.proposals pid pr' at,
              votes-record_vote tid choice p.voting_weight pr,
            )
            | inr short ↦ (
              d',
              i,
              pr',
              ground (arith, lookup-insert_self id d' c.disputes),
              subscript-set d.proposals pid pr' at,
              votes-record_vote tid choice p.voting_weight pr,
            )
          ]
    ]
  ]
]

-- A treasury votes once on a proposal: after a vote that was recorded, another by the same
-- treasury on the same proposal is refused, whoever signs it, whenever and for whatever choice,
-- and changes nothing.
pub vote_once :
    (now now' id : ℕ) (pid : ℤ) (tid : ℕ) (choice choice' : VoteChoice) (voter voter' : Text)
    (c : Coordinator)
    → (vote now id pid tid choice voter c).1 ≡ ret true
    → let c' = (vote now id pid tid choice voter c).0 in
      vote now' id pid tid choice' voter' c' ≡ (c', ret false)
vote_once now now' id pid tid choice choice' voter voter' c ok =
    let (d, i, pr, found, at, voted) = vote-Recorded now id pid tid choice voter c ok in
    vote_refused now' id pid tid i choice' choice voter' pr d (vote now id pid tid choice voter c).0
      found at voted
