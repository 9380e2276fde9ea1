-- ===== src/Treasury/Payout.antt =====
-- The distribution of the escrow by `execute_resolution` of coordinator.py.
use rra_module.Prelude.{
  Absent, AreDistinct, ℕ, ◌+◌, ◌*◌, ◌≤◌, ◌<◌, ◌≡◌, ◌≢◌, refl, ◌∙◌, inl, inr, true, false, none,
  some, List, [], ◌∷◌, arith, length, set, Each-get_elem?, Option-cases, number_key,
}
use rra_module.Prelude.Int.{
  ℤ, pos, pos_part, neg_part, ◌+ℤ◌, ◌*ℤ◌, ◌≤ℤ◌, ◌<ℤ◌, int_laws, eq_of_parts, *ℤ_parts, *ℤ_distrib,
  *ℤ_zero, floor_div_bounds,
}
use rra_module.Prelude.Dict.{Dict, lookup, insert, lookup-insert_ne, lookup-insert_self}
use rra_module.Treasury.Types.{TreasuryDispute, Proposal, Coordinator, ret, resolved, executed}
use rra_module.Treasury.Disputes.{put_dispute}
use rra_module.Treasury.Voting.{sum, shares_valid, subscript}
use rra_module.Treasury.Resolution.{payout, distribute, execute_resolution}
use rra_module.Treasury.Weights.{sum_by}
use rra_module.Treasury.Invariant.{DisputeIsSound, ProposalIsSound}
use rra_module.Treasury.Subscript.{subscript-eq_some}

-- What all the shares of an escrow are worth.
abbrev payouts : ℤ → List ℤ → ℤ
payouts escrow [] = pos 0
payouts escrow (s ∷ shares) = payout escrow s +ℤ payouts escrow shares

-- Each share is rounded down, so it loses less than one unit.
payouts_bounds :
    (escrow : ℤ) (shares : List ℤ)
    → let paid = payouts escrow shares in
      let whole = escrow *ℤ sum shares in
      (10000 * pos_part paid + neg_part whole ≤ pos_part whole + 10000 * neg_part paid)
      × (pos_part whole + 10000 * neg_part paid
          ≤ 10000 * pos_part paid + neg_part whole + 9999 * length shares)
unfolding payout
payouts_bounds escrow [] = rw (*ℤ_zero escrow) (omega arith)
payouts_bounds escrow (s ∷ shares) =
    rw (*ℤ_distrib escrow s (sum shares))
      (omega (int_laws, floor_div_bounds (escrow *ℤ s), payouts_bounds escrow shares))

-- Each the basis points together are worth the escrow, less at most one unit for each share.
payouts_whole :
    (escrow : ℤ) (shares : List ℤ)
    → 0 < length shares
    → sum shares ≡ pos 10000
    → (payouts escrow shares ≤ℤ escrow) × (escrow <ℤ payouts escrow shares +ℤ pos (length shares))
payouts_whole escrow shares some_share h =
    omega (int_laws, rw h at (payouts_bounds escrow shares), *ℤ_parts escrow (pos 10000))

abbrev NoneIn : List ℕ → Dict ℕ ℤ → Type 0
NoneIn [] m = Unit
NoneIn (t ∷ tids) m = (lookup t m ≡ none) × NoneIn tids m

NoneIn-nil : (tids : List ℕ) → NoneIn tids []
NoneIn-nil [] = tt
NoneIn-nil (t ∷ tids) = (refl, NoneIn-nil tids)

NoneIn-insert :
    (t : ℕ) (v : ℤ) (tids : List ℕ) (m : Dict ℕ ℤ)
    → Absent t tids
    → NoneIn tids m
    → NoneIn tids (insert t v m)
NoneIn-insert t v [] m a h = tt
NoneIn-insert t v (x ∷ tids) m a h =
    (lookup-insert_ne x t v m a.0 ∙ h.0, NoneIn-insert t v tids m a.1 h.1)

abbrev pub total_of : Dict ℕ ℤ → ℤ
total_of = sum_by (λ amount. amount)

total_of-insert :
    (t : ℕ) (v : ℤ) (m : Dict ℕ ℤ) → lookup t m ≡ none → total_of (insert t v m) ≡ total_of m +ℤ v
total_of-insert t v [] h = grind int_laws
total_of-insert t v ((k, w) ∷ m) h = grind (int_laws, total_of-insert t v m)

-- With a share for each treasury, the loop returns, and what it returns adds up.
distribute-total :
    (escrow : ℤ) (tids : List ℕ) (shares : List ℤ) (m : Dict ℕ ℤ)
    → length shares ≡ length tids
    → AreDistinct tids
    → NoneIn tids m
    → (m' : Dict ℕ ℤ) × (distribute escrow tids shares m ≡ ret m')
      × (total_of m' ≡ total_of m +ℤ payouts escrow shares)
unfolding distribute
distribute-total escrow [] [] m len distinct new = (m, refl, grind int_laws)
distribute-total escrow [] (s ∷ shares) m len distinct new = absurd (omega arith)
distribute-total escrow (t ∷ tids) [] m len distinct new = absurd (omega arith)
distribute-total escrow (t ∷ tids) (s ∷ shares) m len distinct new =
    let (m', returns, adds) =
      distribute-total escrow tids shares (insert t (payout escrow s) m) (omega arith) distinct.1
        (NoneIn-insert t (payout escrow s) tids m distinct.0 new.1) in
    (m', returns, grind (int_laws, adds, total_of-insert t (payout escrow s) m new.0))

shares_valid-sum :
    (s : ℤ) (shares : List ℤ) (involved : List ℕ)
    → shares_valid (s ∷ shares) involved ≡ true
    → (length (s ∷ shares) ≡ length involved) × (sum (s ∷ shares) ≡ pos 10000)
unfolding shares_valid
shares_valid-sum s shares involved h = ground (arith, eq_of_parts (s +ℤ sum shares) (pos 10000))

-- What `execute_resolution` hands out when it pays: a map that adds up to the escrow, less than
-- one unit short for each treasury and never over it.
pub record PaysOut (d : TreasuryDispute) (m : Dict ℕ ℤ) : Type 0 where
  pub within : total_of m ≤ℤ d.total_escrow
  pub nearly_all : d.total_escrow <ℤ total_of m +ℤ pos (length d.involved_treasuries)

distribute-PaysOut :
    (d : TreasuryDispute) (shares : List ℤ)
    → shares ≢ []
    → shares_valid shares d.involved_treasuries ≡ true
    → AreDistinct d.involved_treasuries
    → (m : Dict ℕ ℤ) × (distribute d.total_escrow d.involved_treasuries shares [] ≡ ret m)
      × PaysOut d m
distribute-PaysOut d [] some_share valid distinct = absurd (some_share refl)
distribute-PaysOut d (s ∷ shares) some_share valid distinct =
    let (len, whole) = shares_valid-sum s shares d.involved_treasuries valid in
    let (m, returns, adds) =
      distribute-total d.total_escrow d.involved_treasuries (s ∷ shares) [] len distinct
        (NoneIn-nil d.involved_treasuries) in
    let bounds = payouts_whole d.total_escrow (s ∷ shares) (omega arith) whole in
    let exact : total_of m ≡ payouts d.total_escrow (s ∷ shares) = grind (int_laws, adds) in
    (m, returns, record { within = rw exact bounds.0; nearly_all = rw (exact, ← len) bounds.1 })

-- A resolved dispute among distinct treasuries, whose winning proposal has payout shares and has
-- not been executed, is paid out: the call returns a distribution, never an error, the amounts
-- add up to the escrow without passing it and less than one unit short for each treasury, the
-- proposal is marked as executed, and the dispute is executed.
pub execute_resolution-PaysOut :
    (id i : ℕ) (w : ℤ) (pr : Proposal) (d : TreasuryDispute) (c : Coordinator)
    → DisputeIsSound d
    → lookup id c.disputes ≡ some d
    → d.status ≡ resolved
    → d.winning_proposal ≡ some w
    → subscript d.proposals w ≡ some (i, pr)
    → pr.executed ≡ false
    → pr.payout_shares ≢ []
    → AreDistinct d.involved_treasuries
    → (m : Dict ℕ ℤ) × (execute_resolution id c ≡ (
      put_dispute id
          (record d {
            proposals = set d.proposals i (record pr { executed = true });
            status = executed;
          })
          c,
      ret (some m),
    ))
      × PaysOut d m
unfolding execute_resolution
execute_resolution-PaysOut id i w pr d c sound found st won at fresh some_share distinct =
    let P = ProposalIsSound d.participants d.involved_treasuries in
    let good =
      Each-get_elem? P d.proposals i sound.proposals_sound (subscript-eq_some d.proposals w at) in
    let (m, returns, pays) =
      distribute-PaysOut d pr.payout_shares some_share good.shares_exact distinct in
    (m, ground (arith, returns), pays)

-- A dispute is paid out once: after a call that returned a distribution, the next one changes
-- nothing and returns nothing.
pub execute_resolution_once :
    (id : ℕ) (c : Coordinator) {m : Dict ℕ ℤ}
    → (execute_resolution id c).1 ≡ ret (some m)
    → execute_resolution id (execute_resolution id c).0 ≡ ((execute_resolution id c).0, ret none)
unfolding execute_resolution
execute_resolution_once id c paid = elim (Option-cases (lookup id c.disputes)) [
  | inl missing ↦ ground arith
  | inr (d, found) ↦ elim (Option-cases d.winning_proposal) [
    | inl nobody ↦ ground arith
    | inr (w, won) ↦ elim (Option-cases (subscript d.proposals w)) [
      | inl outside ↦ ground arith
      | inr ((i, pr), at) ↦
          let prs = set d.proposals i (record pr { executed = true }) in
          ground (
            arith,
            lookup-insert_self id (record d { proposals = prs; status = executed }) c.disputes,
          )
    ]
  ]
]
