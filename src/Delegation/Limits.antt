-- ===== src/Delegation/Limits.antt =====
-- What the delegations of delegation.py let an agent spend.
use rra_module.Prelude.{
  ℕ, ◌≡◌, ◌↔◌, inl, inr, Bool, true, false, Option, none, some, arith, Option-cases, Bool-cases,
  Text, text_key, number_key,
}
use rra_module.Prelude.Int.{ℤ, pos, pos_part, ◌+ℤ◌, ◌-ℤ◌, ◌≤ℤ◌, +ℤ_parts, -ℤ_parts, ltb_ℤ, leb_ℤ}
use rra_module.Prelude.Dict.{
  lookup, AllValues, AllValues-insert, AllValues-lookup, lookup-insert_self,
}
use rra_module.Delegation.Scope.{
  ActionType, lower, TokenLimit, remaining, can_spend, spend, DelegationScope, is_valid, pay,
  use_scope, revoke, eth_remaining, left, can_spend_eth, can_spend_token, can_perform_action,
}
use rra_module.Delegation.Manager.{
  ScopedDelegation, use_delegation, check_delegation, check_amount, allowed, revoke_delegation,
}

-- No more is spent than the limit, and nothing where the limit is negative.
abbrev pub IsWithin : ℤ → ℤ → Type 0
IsWithin limit spent = (spent ≤ℤ pos (pos_part limit)) × (pos 0 ≤ℤ spent)

abbrev pub LimitIsWithin : TokenLimit → Type 0
LimitIsWithin l = IsWithin l.max_amount l.spent_amount

pub record ScopeIsWithin (d : DelegationScope) : Type 0 where
  pub eth : IsWithin d.eth_limit d.eth_spent
  pub tokens : AllValues LimitIsWithin d.token_limits

spend-IsWithin :
    (limit spent amount : ℤ)
    → IsWithin limit spent
    → leb_ℤ amount (left limit spent) ≡ true
    → ltb_ℤ (pos 0) amount ≡ true
    → IsWithin limit (spent +ℤ amount)
spend-IsWithin limit spent amount w fits positive =
    elim (Bool-cases (ltb_ℤ (pos 0) (limit -ℤ spent))) [
      | inl some_left ↦ (
        ground (arith, w, +ℤ_parts spent amount, -ℤ_parts limit spent),
        ground (arith, w.1, +ℤ_parts spent amount),
      )
      | inr nothing_left ↦ absurd (ground arith)
    ]

can_spend_eth_lem :
    (amount : ℤ) (d : DelegationScope)
    → can_spend_eth amount d ≡ true
    → leb_ℤ amount (left d.eth_limit d.eth_spent) ≡ true
unfolding can_spend_eth eth_remaining
can_spend_eth_lem amount d fits = fits

can_spend_token_lem :
    (token : Text) (amount : ℤ) (d : DelegationScope) {l : TokenLimit}
    → lookup (lower token) d.token_limits ≡ some l
    → can_spend_token token amount d ≡ true
    → can_spend l amount ≡ true
unfolding can_spend_token
can_spend_token_lem token amount d listed fits = ground arith

spend_lem :
    (l : TokenLimit) (amount : ℤ)
    → LimitIsWithin l
    → can_spend l amount ≡ true
    → ltb_ℤ (pos 0) amount ≡ true
    → LimitIsWithin (spend l amount).0
unfolding spend can_spend remaining
spend_lem l amount w fits positive =
    rw fits (spend-IsWithin l.max_amount l.spent_amount amount w fits positive)

pay-ScopeIsWithin :
    (token : Option Text) (amount : ℤ) (d : DelegationScope)
    → ScopeIsWithin d
    → ltb_ℤ (pos 0) amount ≡ true
    → ScopeIsWithin (pay token amount d).0
unfolding pay
pay-ScopeIsWithin none amount d s positive = elim (Bool-cases (can_spend_eth amount d)) [
  | inl fits ↦ rw fits (record {
    eth =
        spend-IsWithin d.eth_limit d.eth_spent amount s.eth (can_spend_eth_lem amount d fits)
          positive;
    tokens = s.tokens;
  })
  | inr short ↦ rw short s
]
pay-ScopeIsWithin (some token) amount d s positive =
    elim (Bool-cases (can_spend_token token amount d)) [
      | inr short ↦ rw short s
      | inl fits ↦ rw fits (elim (Option-cases (lookup (lower token) d.token_limits)) [
        | inl unlisted ↦ rw unlisted s
        | inr (l, listed) ↦ rw listed (record {
          eth = s.eth;
          tokens =
              AllValues-insert LimitIsWithin (lower token) (spend l amount).0 d.token_limits
                s.tokens
                (spend_lem l amount
                  (AllValues-lookup LimitIsWithin (lower token) d.token_limits s.tokens listed)
                  (can_spend_token_lem token amount d listed fits) positive);
        })
      ])
    ]

-- Where no more is spent of any currency than its limit, so it is after a use of the delegation,
-- whatever the action, the currency, the amount and the time.
pub use_scope-ScopeIsWithin :
    (now : ℕ) (action : ActionType) (token : Option Text) (amount : ℤ) (d : DelegationScope)
    → ScopeIsWithin d
    → ScopeIsWithin (use_scope now action token amount d).0
unfolding use_scope
use_scope-ScopeIsWithin now action token amount d s = elim (Bool-cases (is_valid now d)) [
  | inr lapsed ↦ rw lapsed s
  | inl valid ↦ rw valid (elim (Bool-cases (can_perform_action action d)) [
    | inr refused ↦ rw refused s
    | inl allowed_lem ↦ rw allowed_lem (elim (Bool-cases (ltb_ℤ (pos 0) amount)) [
      | inr free ↦ rw free s
      | inl positive ↦ rw positive (pay-ScopeIsWithin token amount d s positive)
    ])
  ])
]

-- The check without spending agrees with the use: it says that an action is allowed exactly if the
-- use at the same instant succeeds.
pub check_delegation-use :
    (now id : ℕ) (action : ActionType) (token : Option Text) (amount : ℤ) (m : ScopedDelegation)
    → ((k : ℕ) × (fresh : Bool) × (check_delegation now id action token amount m ≡ allowed k fresh))
      ↔ ((use_delegation now id action token amount m).1 ≡ true)
unfolding check_delegation use_delegation use_scope pay check_amount can_spend_eth can_spend_token
    can_spend
check_delegation-use now id action none amount m = elim (Option-cases (lookup id m.delegations)) [
  | inl missing ↦ ((λ (k, fresh, e). ground arith), (λ used. absurd (ground arith)))
  | inr (d, found) ↦
      ((λ (k, fresh, e). ground arith), (λ used. (id, d.requires_fresh_signature, ground arith)))
]
check_delegation-use now id action (some token) amount m =
    elim (Option-cases (lookup id m.delegations)) [
      | inl missing ↦ ((λ (k, fresh, e). ground arith), (λ used. absurd (ground arith)))
      | inr (d, found) ↦ elim (Option-cases (lookup (lower token) d.token_limits)) [
        | inl unlisted ↦ (
          (λ (k, fresh, e). ground arith),
          (λ used. (id, d.requires_fresh_signature, ground arith)),
        )
        | inr (l, listed) ↦ (
          (λ (k, fresh, e). ground arith),
          (λ used. (id, d.requires_fresh_signature, ground arith)),
        )
      ]
    ]

-- After a revocation that succeeded, every use of the delegation is refused, whatever the action,
-- the currency, the amount and the time.
pub revoke_delegation-use :
    (now id : ℕ) (delegator : Text) (action : ActionType) (token : Option Text) (amount : ℤ)
    (m : ScopedDelegation)
    → (revoke_delegation id delegator m).1 ≡ true
    → (use_delegation now id action token amount (revoke_delegation id delegator m).0).1 ≡ false
unfolding revoke_delegation use_delegation
revoke_delegation-use now id delegator action token amount m ok =
    elim (Option-cases (lookup id m.delegations)) [
      | inl missing ↦ absurd (ground arith)
      | inr (d, found) ↦ ground (arith, lookup-insert_self id (revoke d) m.delegations)
    ]
