-- ===== src/Delegation/Scope.antt =====
-- Spending limits and delegations of src/rra/auth/delegation.py. Amounts are Python integers; a
-- clock reading is an argument, in microseconds. Addresses are ASCII texts.
use rra_module.Prelude.{
  ℕ, ◌+◌, Bool, true, false, not, ◌&&◌, Option, none, some, List, map, any, Text, leb, ltb,
  if◌then◌else◌, text_key, number_key, same_number,
}
use rra_module.Prelude.Int.{ℤ, pos, ◌+ℤ◌, ◌-ℤ◌, ltb_ℤ, leb_ℤ}
use rra_module.Prelude.Dict.{Dict, lookup, insert}

pub data ActionType : Type 0 where
  market_match dispute_stake license_transfer metadata_update withdraw negotiate custom : ActionType

-- The value of the enumeration, by which members are compared.
abbrev pub value : ActionType → ℕ
value market_match = 1
value dispute_stake = 2
value license_transfer = 3
value metadata_update = 4
value withdraw = 5
value negotiate = 6
value custom = 7

abbrev pub lower_code : ℕ → ℕ
lower_code c = if leb b'A' c && leb c b'Z' then c + 32 else c

abbrev pub lower : Text → Text
lower = map lower_code

pub record TokenLimit : Type 0 where
  pub token_address : Text
  pub max_amount : ℤ
  pub spent_amount : ℤ

-- `max(0, limit - spent)`
abbrev pub left : ℤ → ℤ → ℤ
left limit spent = if ltb_ℤ (pos 0) (limit -ℤ spent) then limit -ℤ spent else pos 0

unfoldable pub remaining : TokenLimit → ℤ
remaining l = left l.max_amount l.spent_amount

unfoldable pub can_spend : TokenLimit → ℤ → Bool
unfolding remaining
can_spend l amount = leb_ℤ amount (remaining l)

unfoldable pub spend : TokenLimit → ℤ → TokenLimit × Bool
unfolding can_spend
spend l amount =
    if not (can_spend l amount)
    then (l, false)
    else (record l { spent_amount = l.spent_amount +ℤ amount }, true)

-- `custom_actions` is never read.
pub record DelegationScope : Type 0 where
  pub delegation_id : ℕ
  pub delegator : Text
  pub agent : Text
  pub credential_id_hash : Text
  pub allowed_actions : List ActionType
  pub token_limits : Dict Text TokenLimit
  pub eth_limit : ℤ
  pub eth_spent : ℤ
  pub created_at : ℕ
  pub expires_at : Option ℕ
  pub active : Bool
  pub requires_fresh_signature : Bool
  pub description : Text

unfoldable pub is_expired : ℕ → DelegationScope → Bool
is_expired now d = elim d.expires_at [ none ↦ false | some t ↦ ltb t now ]

unfoldable pub is_valid : ℕ → DelegationScope → Bool
unfolding is_expired
is_valid now d = d.active && not (is_expired now d)

unfoldable pub eth_remaining : DelegationScope → ℤ
eth_remaining d = left d.eth_limit d.eth_spent

unfoldable pub can_perform_action : ActionType → DelegationScope → Bool
can_perform_action action d = any (λ a. same_number (value a) (value action)) d.allowed_actions

unfoldable pub can_spend_eth : ℤ → DelegationScope → Bool
unfolding eth_remaining
can_spend_eth amount d = leb_ℤ amount (eth_remaining d)

unfoldable pub can_spend_token : Text → ℤ → DelegationScope → Bool
unfolding can_spend
can_spend_token token amount d = elim (lookup (lower token) d.token_limits) [
  | none ↦ false
  | some l ↦ can_spend l amount
]

-- What `use` does once the action is allowed; the limit of a token is found, since the guard has
-- found it.
unfoldable pub pay : Option Text → ℤ → DelegationScope → DelegationScope × Bool
unfolding can_spend_eth can_spend_token spend
pay none amount d =
    if not (can_spend_eth amount d)
    then (d, false)
    else (record d { eth_spent = d.eth_spent +ℤ amount }, true)
pay (some token) amount d =
    if not (can_spend_token token amount d)
    then (d, false)
    else elim (lookup (lower token) d.token_limits) [
      | none ↦ (d, false)
      | some l ↦
          (record d { token_limits = insert (lower token) (spend l amount).0 d.token_limits }, true)
    ]

-- `DelegationScope.use`
unfoldable pub use_scope :
    ℕ → ActionType → Option Text → ℤ → DelegationScope → DelegationScope × Bool
unfolding is_valid can_perform_action pay
use_scope now action token amount d =
    if not (is_valid now d)
    then (d, false)
    else if not (can_perform_action action d)
    then (d, false)
    else if ltb_ℤ (pos 0) amount
    then pay token amount d
    else (d, true)

-- `DelegationScope.revoke`
unfoldable pub revoke : DelegationScope → DelegationScope
revoke d = record d { active = false }
