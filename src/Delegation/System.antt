-- ===== src/Delegation/System.antt =====
-- Any sequence of calls on the manager of delegation.py.
use rra_module.Prelude.{
  ℕ, inl, inr, Bool, Option, List, [], ◌∷◌, arith, Option-cases, Bool-cases, Each, select, Text,
  ◌==◌, text_key, number_key,
}
use rra_module.Prelude.Int.{ℤ, pos}
use rra_module.Prelude.Dict.{Dict, lookup, AllValues, AllValues-insert, AllValues-lookup}
use rra_module.Delegation.Scope.{
  ActionType, lower, TokenLimit, DelegationScope, is_valid, use_scope, revoke,
}
use rra_module.Delegation.Manager.{
  ScopedDelegation, new, init_limits, create_delegation, fetch, get_delegator_delegations, ids_of,
  use_delegation, revoke_delegation, revoke_each, revoke_all_for_agent,
}
use rra_module.Delegation.Limits.{LimitIsWithin, ScopeIsWithin, use_scope-ScopeIsWithin}

-- The calls that change the manager, with the clock readings and ids that they draw.
pub data Request : Type 0 where
  grant : ℕ → ℕ → Text → Text → Text → List ActionType → Dict Text ℤ → ℤ → ℕ → Bool → Text → Request
  spend_on : ℕ → ℕ → ActionType → Option Text → ℤ → Request
  revoke_one : ℕ → Text → Request
  revoke_all : ℕ → Text → Text → Request

unfoldable pub apply : Request → ScopedDelegation → ScopedDelegation
apply (grant id now delegator agent credential actions limits eth_limit duration fresh text) m =
    (create_delegation id now delegator agent credential actions limits eth_limit duration fresh
      text m).0
apply (spend_on now id action token amount) m = (use_delegation now id action token amount m).0
apply (revoke_one id delegator) m = (revoke_delegation id delegator m).0
apply (revoke_all now delegator agent) m = (revoke_all_for_agent now delegator agent m).0

unfoldable pub run : List Request → ScopedDelegation → ScopedDelegation
unfolding apply
run [] m = m
run (r ∷ rs) m = run rs (apply r m)

abbrev pub AllWithin : ScopedDelegation → Type 0
AllWithin m = AllValues ScopeIsWithin m.delegations

init_limits-LimitIsWithin :
    (given : Dict Text ℤ) (limits : Dict Text TokenLimit)
    → AllValues LimitIsWithin limits
    → AllValues LimitIsWithin (init_limits given limits)
unfolding init_limits
init_limits-LimitIsWithin [] limits h = h
init_limits-LimitIsWithin ((address, limit) ∷ given) limits h =
    let entry : TokenLimit = record {
      token_address = lower address;
      max_amount = limit;
      spent_amount = pos 0;
    } in
    init_limits-LimitIsWithin given _
      (AllValues-insert LimitIsWithin (lower address) entry limits h (omega arith, omega arith))

fetch-Each :
    (ids : List ℕ) (store : Dict ℕ DelegationScope)
    → AllValues ScopeIsWithin store
    → Each ScopeIsWithin (fetch ids store)
unfolding fetch
fetch-Each [] store h = tt
fetch-Each (id ∷ ids) store h = elim (Option-cases (lookup id store)) [
  | inl missing ↦ rw (missing, fetch) (fetch-Each ids store h)
  | inr (d, found) ↦
      rw (found, fetch) (AllValues-lookup ScopeIsWithin id store h found, fetch-Each ids store h)
]

select-Each :
    {A : Type 0} (P : A → Type 0) (f : A → Bool) (xs : List A) → Each P xs → Each P (select f xs)
select-Each P f [] h = tt
select-Each P f (x ∷ xs) h = elim (Bool-cases (f x)) [
  | inl chosen ↦ rw chosen (h.0, select-Each P f xs h.1)
  | inr left_out ↦ rw left_out (select-Each P f xs h.1)
]

revoke-ScopeIsWithin : (d : DelegationScope) → ScopeIsWithin d → ScopeIsWithin (revoke d)
unfolding revoke
revoke-ScopeIsWithin d s = record { eth = s.eth; tokens = s.tokens }

revoke_each-AllWithin :
    (agent : Text) (ds : List DelegationScope) (count : ℕ) (m : ScopedDelegation)
    → Each ScopeIsWithin ds
    → AllWithin m
    → AllWithin (revoke_each agent ds count m).0
unfolding revoke_each
revoke_each-AllWithin agent [] count m each h = h
revoke_each-AllWithin agent (d ∷ ds) count m each h = elim (Bool-cases (d.agent == lower agent)) [
  | inl hit ↦
      rw (hit, revoke_each)
        (revoke_each-AllWithin agent ds _ _ each.1 (
          AllValues-insert ScopeIsWithin d.delegation_id (revoke d) m.delegations h
            (revoke-ScopeIsWithin d each.0)))
  | inr miss ↦ rw (miss, revoke_each) (revoke_each-AllWithin agent ds _ _ each.1 h)
]

use_delegation-AllWithin :
    (now id : ℕ) (action : ActionType) (token : Option Text) (amount : ℤ) (m : ScopedDelegation)
    → AllWithin m
    → AllWithin (use_delegation now id action token amount m).0
unfolding use_delegation
use_delegation-AllWithin now id action token amount m h =
    elim (Option-cases (lookup id m.delegations)) [
      | inl missing ↦ rw (missing, use_delegation) h
      | inr (d, found) ↦
          rw (found, use_delegation)
            (AllValues-insert ScopeIsWithin id (use_scope now action token amount d).0 m.delegations
              h
              (use_scope-ScopeIsWithin now action token amount d
                (AllValues-lookup ScopeIsWithin id m.delegations h found)))
    ]

revoke_delegation-AllWithin :
    (id : ℕ) (delegator : Text) (m : ScopedDelegation)
    → AllWithin m
    → AllWithin (revoke_delegation id delegator m).0
unfolding revoke_delegation
revoke_delegation-AllWithin id delegator m h = elim (Option-cases (lookup id m.delegations)) [
  | inl missing ↦ rw (missing, revoke_delegation) h
  | inr (d, found) ↦
      rw (found, revoke_delegation)
        (elim (Bool-cases (d.delegator == lower delegator)) [
          | inl own ↦ rw own (
              AllValues-insert ScopeIsWithin id (revoke d) m.delegations h
                (revoke-ScopeIsWithin d (AllValues-lookup ScopeIsWithin id m.delegations h found)))
          | inr other ↦ rw other h
        ])
]

apply-AllWithin : (r : Request) (m : ScopedDelegation) → AllWithin m → AllWithin (apply r m)
unfolding apply create_delegation revoke_all_for_agent get_delegator_delegations
apply-AllWithin
      (grant id now delegator agent credential actions limits eth_limit duration fresh text) m h =
    AllValues-insert ScopeIsWithin id _ m.delegations h
      (record { eth = (omega arith, omega arith); tokens = init_limits-LimitIsWithin limits [] tt })
apply-AllWithin (spend_on now id action token amount) m h =
    use_delegation-AllWithin now id action token amount m h
apply-AllWithin (revoke_one id delegator) m h = revoke_delegation-AllWithin id delegator m h
apply-AllWithin (revoke_all now delegator agent) m h =
    let ids = ids_of (lower delegator) m.delegator_delegations in
    revoke_each-AllWithin agent (select (is_valid now) (fetch ids m.delegations)) 0 m
      (select-Each ScopeIsWithin (is_valid now) (fetch ids m.delegations)
        (fetch-Each ids m.delegations h))
      h

run-AllWithin_from : (rs : List Request) (m : ScopedDelegation) → AllWithin m → AllWithin (run rs m)
unfolding run
run-AllWithin_from [] m h = h
run-AllWithin_from (r ∷ rs) m h = run-AllWithin_from rs (apply r m) (apply-AllWithin r m h)

-- Whatever calls are made on a new manager, in any order and with any arguments, no delegation in
-- store has spent more of a currency than its limit for it, or anything where the limit is
-- negative.
pub run-AllWithin : (rs : List Request) → AllWithin (run rs new)
unfolding new
run-AllWithin rs = run-AllWithin_from rs new tt
