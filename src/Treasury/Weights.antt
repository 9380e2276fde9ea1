-- ===== src/Treasury/Weights.antt =====
-- Sums over the participants of a dispute, and how the writes of coordinator.py change them.
use rra_module.Prelude.{
  ℕ, ◌≡◌, refl, Bool, true, false, Option, none, some, [], ◌∷◌, arith, if◌then◌else◌, number_key,
}
use rra_module.Prelude.Int.{ℤ, pos, ◌+ℤ◌, ◌≤ℤ◌, int_laws}
use rra_module.Prelude.Dict.{Dict, lookup, insert, lookup-insert, IsNodup, AllValues}
use rra_module.Treasury.Types.{
  VoteChoice, support, oppose, abstain, amend, TreasuryParticipant, min_stake,
}
use rra_module.Treasury.Disputes.{set_weights}

abbrev pub sum_by {ℓ} : {V : Type ℓ} → (V → ℤ) → Dict ℕ V → ℤ
sum_by f [] = pos 0
sum_by f ((k, v) ∷ d) = f v +ℤ sum_by f d

pub sum_by-insert {ℓ} :
    {V : Type ℓ} (f : V → ℤ) (k : ℕ) (v old : V) (d : Dict ℕ V)
    → lookup k d ≡ some old
    → sum_by f (insert k v d) +ℤ f old ≡ sum_by f d +ℤ f v
sum_by-insert f k v old [] h = cc
sum_by-insert f k v old ((j, w) ∷ d) h = grind (int_laws, sum_by-insert f k v old d)

pub sum_by-insert_same {ℓ} :
    {V : Type ℓ} (f : V → ℤ) (k : ℕ) (v old : V) (d : Dict ℕ V)
    → lookup k d ≡ some old
    → f v ≡ f old
    → sum_by f (insert k v d) ≡ sum_by f d
sum_by-insert_same f k v old d h e = grind (int_laws, sum_by-insert f k v old d h, e)

abbrev backs : VoteChoice → Option VoteChoice → Bool
backs support (some support) = true
backs oppose (some oppose) = true
backs _ _ = false

-- The weight of the participants whose vote is `choice`.
abbrev pub backing : VoteChoice → Dict ℕ VoteChoice → Dict ℕ TreasuryParticipant → ℤ
backing choice votes [] = pos 0
backing choice votes ((k, p) ∷ ps) =
    (if backs choice (lookup k votes) then p.voting_weight else pos 0) +ℤ backing choice votes ps

pub backing-nobody :
    (choice : VoteChoice) (ps : Dict ℕ TreasuryParticipant) → backing choice [] ps ≡ pos 0
backing-nobody choice [] = refl
backing-nobody support ((k, p) ∷ ps) = grind (int_laws, backing-nobody support ps)
backing-nobody oppose ((k, p) ∷ ps) = grind (int_laws, backing-nobody oppose ps)
backing-nobody abstain ((k, p) ∷ ps) = grind (int_laws, backing-nobody abstain ps)
backing-nobody amend ((k, p) ∷ ps) = grind (int_laws, backing-nobody amend ps)

-- A vote by somebody who is not a participant adds nothing.
backing-insert_absent :
    (choice cast : VoteChoice) (tid : ℕ) (votes : Dict ℕ VoteChoice)
    (ps : Dict ℕ TreasuryParticipant)
    → lookup tid ps ≡ none
    → backing choice (insert tid cast votes) ps ≡ backing choice votes ps
backing-insert_absent choice cast tid votes [] h = refl
backing-insert_absent choice cast tid votes ((k, p) ∷ ps) h =
    ground (arith, lookup-insert k tid cast votes, backing-insert_absent choice cast tid votes ps)

-- A first vote adds the participant's weight to the choice that was cast.
pub backing-insert :
    (choice cast : VoteChoice) (tid : ℕ) (votes : Dict ℕ VoteChoice) (p : TreasuryParticipant)
    (ps : Dict ℕ TreasuryParticipant)
    → lookup tid votes ≡ none
    → IsNodup ps
    → lookup tid ps ≡ some p
    → backing choice (insert tid cast votes) ps
      ≡ backing choice votes ps +ℤ (if backs choice (some cast) then p.voting_weight else pos 0)
backing-insert choice cast tid votes p [] new h e = cc
backing-insert choice cast tid votes p ((k, q) ∷ ps) new h e = grind (
  int_laws,
  lookup-insert k tid cast votes,
  backing-insert_absent choice cast tid votes ps,
  backing-insert choice cast tid votes p ps new h.1,
)

-- Rewriting a participant at the same weight changes no tally.
pub backing-update :
    (choice : VoteChoice) (votes : Dict ℕ VoteChoice) (tid : ℕ) (v old : TreasuryParticipant)
    (ps : Dict ℕ TreasuryParticipant)
    → lookup tid ps ≡ some old
    → v.voting_weight ≡ old.voting_weight
    → backing choice votes (insert tid v ps) ≡ backing choice votes ps
backing-update choice votes tid v old [] h e = cc
backing-update choice votes tid v old ((k, q) ∷ ps) h e =
    ground (arith, backing-update choice votes tid v old ps)

-- Between nothing and the stake, which is at least the minimum once it is paid.
pub record ParticipantIsSound (p : TreasuryParticipant) : Type 0 where
  pub weight_nonneg : pos 0 ≤ℤ p.voting_weight
  pub weight_le : p.voting_weight ≤ℤ p.stake_amount
  pub paid : p.has_staked ≡ true → pos min_stake ≤ℤ p.stake_amount
  pub unpaid : p.has_staked ≡ false → p.stake_amount ≡ pos 0

pub backing-le :
    (votes : Dict ℕ VoteChoice) (ps : Dict ℕ TreasuryParticipant)
    → AllValues ParticipantIsSound ps
    → backing support votes ps +ℤ backing oppose votes ps ≤ℤ sum_by (λ p. p.stake_amount) ps
backing-le votes [] h = omega int_laws
backing-le votes ((k, p) ∷ ps) h = grind (int_laws, backing-le votes ps h.1)

pub sum_by-set_weights :
    (ps : Dict ℕ TreasuryParticipant) (f : TreasuryParticipant → ℤ)
    → ((p : TreasuryParticipant) → f (record p { voting_weight = p.stake_amount }) ≡ f p)
    → sum_by f (set_weights ps) ≡ sum_by f ps
unfolding set_weights
sum_by-set_weights [] f h = refl
sum_by-set_weights ((k, p) ∷ ps) f h = rw (h p, sum_by-set_weights ps f h)

pub lookup-set_weights :
    (tid : ℕ) (ps : Dict ℕ TreasuryParticipant)
    → lookup tid (set_weights ps) ≡ elim (lookup tid ps) [
      | none ↦ none
      | some p ↦ some (record p { voting_weight = p.stake_amount })
    ]
unfolding set_weights
lookup-set_weights tid [] = refl
lookup-set_weights tid ((k, p) ∷ ps) = ground (arith, lookup-set_weights tid ps)

pub set_weights-IsNodup : (ps : Dict ℕ TreasuryParticipant) → IsNodup ps → IsNodup (set_weights ps)
unfolding set_weights
set_weights-IsNodup [] h = tt
set_weights-IsNodup ((k, p) ∷ ps) h =
    (rw (lookup-set_weights k ps, h.0) refl, set_weights-IsNodup ps h.1)

pub set_weights_sound :
    (ps : Dict ℕ TreasuryParticipant)
    → AllValues ParticipantIsSound ps
    → AllValues ParticipantIsSound (set_weights ps)
unfolding set_weights
set_weights_sound [] h = tt
set_weights_sound ((k, p) ∷ ps) h = (ground (arith, h.0), set_weights_sound ps h.1)
