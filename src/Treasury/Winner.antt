-- ===== src/Treasury/Winner.antt =====
-- The choice of the winning proposal in `finalize_voting` of coordinator.py.
use rra_module.Prelude.{
  ℕ, zero, suc, ◌+◌, ◌≤◌, ◌<◌, number_key, ◌≡◌, refl, ◌∙◌, subst, ◌⊎◌, inl, inr, Option, none, some,
  List, [], ◌∷◌, arith, ap, get_elem?, true, false, ◌&&◌, Bool-cases,
}
use rra_module.Prelude.Int.{ℤ, pos, ◌≤ℤ◌, ◌<ℤ◌, ltb_ℤ}
use rra_module.Prelude.Dict.{lookup}
use rra_module.Treasury.Types.{Proposal, TreasuryDispute, Coordinator, voting, expired}
use rra_module.Treasury.Disputes.{put_dispute}
use rra_module.Treasury.Voting.{resolve_dispute}
use rra_module.Treasury.Resolution.{pick_winner, finalize_voting}

-- A proposal that may win: more support than opposition.
abbrev pub IsEligible : Proposal → Type 0
IsEligible pr = pr.oppose_weight <ℤ pr.support_weight

-- No eligible proposal has more support than `highest`.
abbrev NoneAbove : ℤ → List Proposal → Type 0
NoneAbove highest prs =
    (j : ℕ) (q : Proposal) → get_elem? prs j ≡ some q → IsEligible q → q.support_weight ≤ℤ highest

-- The proposal at `k` is eligible and above `highest`, no eligible one has more support, and
-- every eligible one before it has less.
pub record IsFirstBest (highest : ℤ) (prs : List Proposal) (k : ℕ) (pr : Proposal) : Type 0 where
  pub at : get_elem? prs k ≡ some pr
  pub eligible : IsEligible pr
  pub above : highest <ℤ pr.support_weight
  pub best :
      (j : ℕ) (q : Proposal)
      → get_elem? prs j ≡ some q
      → IsEligible q
      → q.support_weight ≤ℤ pr.support_weight
  pub first :
      (j : ℕ) (q : Proposal)
      → j < k
      → get_elem? prs j ≡ some q
      → IsEligible q
      → q.support_weight <ℤ pr.support_weight

-- How the loop ends: as it began, or at the first best of what was left.
abbrev Ends : ℕ → ℤ → Option ℕ → List Proposal → Type 0
Ends i highest winning prs =
    ((pick_winner i highest winning prs ≡ winning) × NoneAbove highest prs)
    ⊎ ((k : ℕ) × (pr : Proposal) × (pick_winner i highest winning prs ≡ some (k + i))
        × IsFirstBest highest prs k pr)

-- What holds of the head, and of each item behind it, holds of the whole list.
at_cons :
    (R : ℕ → Proposal → Type 0) (pr : Proposal) (prs : List Proposal)
    → R zero pr
    → ((j : ℕ) (q : Proposal) → get_elem? prs j ≡ some q → R (suc j) q)
    → (j : ℕ) (q : Proposal) → get_elem? (pr ∷ prs) j ≡ some q
    → R j q
at_cons R pr prs h t zero q e = let same : pr ≡ q = cc in subst (R zero) same h
at_cons R pr prs h t (suc j) q e = t j q e

module _ (i : ℕ) (highest : ℤ) (winning : Option ℕ) (pr : Proposal) (prs : List Proposal) where
  pick_better :
      IsEligible pr
      → highest <ℤ pr.support_weight
      → pick_winner i highest winning (pr ∷ prs)
        ≡ pick_winner (suc i) pr.support_weight (some i) prs
  unfolding pick_winner
  pick_better e a = ground arith

  pick_worse :
      (IsEligible pr → pr.support_weight ≤ℤ highest)
      → pick_winner i highest winning (pr ∷ prs) ≡ pick_winner (suc i) highest winning prs
  unfolding pick_winner
  pick_worse n = ground arith

  better_lem :
      IsEligible pr
      → highest <ℤ pr.support_weight
      → Ends (suc i) pr.support_weight (some i) prs
      → Ends i highest winning (pr ∷ prs)
  better_lem e a (inl (same, below)) = inr (
    0,
    pr,
    pick_better e a ∙ same ∙ ap some (omega arith),
    record {
      at = refl;
      eligible = e;
      above = a;
      best =
          at_cons (λ j q. IsEligible q → q.support_weight ≤ℤ pr.support_weight) pr prs
            (λ _. omega arith) below;
      first = λ j q lt. absurd (omega arith);
    },
  )
  better_lem e a (inr (k, w, picked, found)) = inr (
    suc k,
    w,
    pick_better e a ∙ picked ∙ ap some (omega arith),
    record {
      at = found.at;
      eligible = found.eligible;
      above = omega (arith, found.above);
      best =
          at_cons (λ j q. IsEligible q → q.support_weight ≤ℤ w.support_weight) pr prs
            (λ _. omega (arith, found.above)) found.best;
      first = λ j q lt at.
          at_cons (λ j q. j < suc k → IsEligible q → q.support_weight <ℤ w.support_weight) pr prs
            (λ _ _. found.above) (λ j q at lt. found.first j q (omega arith) at) j q at lt;
    },
  )

  worse_lem :
      (IsEligible pr → pr.support_weight ≤ℤ highest)
      → Ends (suc i) highest winning prs
      → Ends i highest winning (pr ∷ prs)
  worse_lem n (inl (same, below)) = inl (
    pick_worse n ∙ same,
    at_cons (λ j q. IsEligible q → q.support_weight ≤ℤ highest) pr prs n below,
  )
  worse_lem n (inr (k, w, picked, found)) = inr (
    suc k,
    w,
    pick_worse n ∙ picked ∙ ap some (omega arith),
    record {
      at = found.at;
      eligible = found.eligible;
      above = found.above;
      best =
          at_cons (λ j q. IsEligible q → q.support_weight ≤ℤ w.support_weight) pr prs
            (λ e. omega (arith, n e, found.above)) found.best;
      first = λ j q lt at.
          at_cons (λ j q. j < suc k → IsEligible q → q.support_weight <ℤ w.support_weight) pr prs
            (λ _ e. omega (arith, n e, found.above)) (λ j q at lt. found.first j q (omega arith) at)
            j q at lt;
    },
  )

ends_lem :
    (i : ℕ) (highest : ℤ) (winning : Option ℕ) (prs : List Proposal) → Ends i highest winning prs
unfolding pick_winner
ends_lem i highest winning [] = inl (refl, λ j q at. cc)
ends_lem i highest winning (pr ∷ prs) =
    elim (Bool-cases
      (ltb_ℤ highest pr.support_weight && ltb_ℤ pr.oppose_weight pr.support_weight)) [
        | inl better ↦
            better_lem i highest winning pr prs (ground arith) (ground arith)
              (ends_lem (suc i) pr.support_weight (some i) prs)
        | inr worse ↦
            worse_lem i highest winning pr prs (ground arith) (ends_lem (suc i) highest winning prs)
      ]

-- The loop of `finalize_voting` finds the first of the proposals with the most support among those
-- with more support than opposition, whose support is positive; it finds none only if no proposal
-- with more support than opposition has positive support.
pub pick_winner-IsFirstBest :
    (prs : List Proposal)
    → ((pick_winner 0 (pos 0) none prs ≡ none)
        × ((j : ℕ) (q : Proposal)
            → get_elem? prs j ≡ some q
            → IsEligible q
            → q.support_weight ≤ℤ pos 0))
      ⊎ ((k : ℕ) × (pr : Proposal) × (pick_winner 0 (pos 0) none prs ≡ some k)
          × IsFirstBest (pos 0) prs k pr)
pick_winner-IsFirstBest prs = elim (ends_lem 0 (pos 0) none prs) [
  | inl nobody ↦ inl nobody
  | inr (k, pr, picked, best) ↦ inr (k, pr, picked ∙ ap some (omega arith), best)
]

-- Finalising a vote whose deadline has passed either resolves the dispute in favour of the first
-- best eligible proposal and returns true, or, if no eligible proposal has positive support, marks
-- it as expired, changes nothing else and returns false.
pub finalize_voting-IsFirstBest :
    (now id deadline : ℕ) (d : TreasuryDispute) (c : Coordinator)
    → lookup id c.disputes ≡ some d
    → d.status ≡ voting
    → d.voting_deadline ≡ some deadline
    → deadline ≤ now
    → ((k : ℕ) × (pr : Proposal) × (finalize_voting now id c
          ≡ (resolve_dispute id d (pos k) c, true))
        × IsFirstBest (pos 0) d.proposals k pr)
      ⊎ ((finalize_voting now id c ≡ (put_dispute id (record d { status = expired }) c, false))
          × ((j : ℕ) (q : Proposal)
              → get_elem? d.proposals j ≡ some q
              → IsEligible q
              → q.support_weight ≤ℤ pos 0))
unfolding finalize_voting
finalize_voting-IsFirstBest now id deadline d c found st due past =
    elim (pick_winner-IsFirstBest d.proposals) [
      | inl (nobody, below) ↦ inr (ground arith, below)
      | inr (k, pr, picked, best) ↦ inl (k, pr, ground arith, best)
    ]
