-- ===== src/Delegation/Tests.antt =====
-- Uses of a delegation of delegation.py, and the theorems at them.
use rra_module.Prelude.{
  ℕ, List, ◌≡◌, ◌↔◌, refl, Bool, true, false, none, some, [], ◌∷◌, arith, Text, number_key,
  text_key,
}
use rra_module.Prelude.Int.{pos, ◌+ℤ◌, ◌-ℤ◌}
use rra_module.Delegation.Scope.{ActionType, DelegationScope, use_scope}
use rra_module.Delegation.Manager.{
  ScopedDelegation, new, create_delegation, use_delegation, check_delegation, allowed,
  revoke_delegation,
}
use rra_module.Delegation.System.{
  Request, grant, spend_on, revoke_all, run, AllWithin, run-AllWithin,
}
use rra_module.Delegation.Limits.{ScopeIsWithin, check_delegation-use, revoke_delegation-use}

abbrev user : Text
user = b'U' ∷ []

abbrev coin : Text
coin = b'0' ∷ b'x' ∷ b'A' ∷ []

abbrev granted : ScopedDelegation × DelegationScope
granted =
    create_delegation 7 100 user (b'a' ∷ []) [] (ActionType.withdraw ∷ []) ((coin, pos 50) ∷ [])
      (pos 20) 60 false [] new

abbrev calls : List Request
calls =
    grant 7 100 user (b'a' ∷ []) [] (ActionType.withdraw ∷ []) ((coin, pos 50) ∷ []) (pos 20) 60
      false []
    ∷ spend_on 200 7 ActionType.withdraw (some coin) (pos 30)
    ∷ revoke_all 300 user (b'a' ∷ [])
    ∷ []

abbrev m_granted : ScopedDelegation
m_granted = granted.0

abbrev scope : DelegationScope
scope = granted.1

scope-ScopeIsWithin : ScopeIsWithin scope
unfolding create_delegation
scope-ScopeIsWithin = record {
  eth = (omega arith, omega arith);
  tokens = ((omega arith, omega arith), tt);
}

revoked_once : (revoke_delegation 7 user m_granted).1 ≡ true
unfolding create_delegation new revoke_delegation
revoked_once = refl

-- A second use of 30 would pass the limit of 50.
second_use_refused :
    (use_scope 300 ActionType.withdraw
      (some coin)
      (pos 30)
      (use_scope 200 ActionType.withdraw (some coin) (pos 30) scope).0).1
    ≡ false
unfolding create_delegation use_scope ◌+ℤ◌ ◌-ℤ◌
second_use_refused = refl

check_delegation-use_example :
    ((k : ℕ) × (fresh : Bool) × (check_delegation 200 7 ActionType.withdraw none (pos 5) m_granted
        ≡ allowed k fresh))
    ↔ ((use_delegation 200 7 ActionType.withdraw none (pos 5) m_granted).1 ≡ true)
check_delegation-use_example = check_delegation-use 200 7 ActionType.withdraw none (pos 5) m_granted

run-AllWithin_example : AllWithin (run calls new)
run-AllWithin_example = run-AllWithin calls

revoke_delegation-use_example :
    (use_delegation 200 7 ActionType.withdraw none (pos 5) (revoke_delegation 7 user m_granted).0).1
    ≡ false
revoke_delegation-use_example =
    revoke_delegation-use 200 7 user ActionType.withdraw none (pos 5) m_granted revoked_once
