-- ===== src/Delegation/Manager.antt =====
-- The manager `ScopedDelegation` of src/rra/auth/delegation.py.
use rra_module.Prelude.{
  ℕ, ◌+◌, ◌*◌, ◌^◌, suc, Bool, true, false, not, Option, none, some, List, [], ◌∷◌, ◌++◌, select,
  Text, if◌then◌else◌, ◌==◌, text_key, number_key,
}
use rra_module.Prelude.Int.{ℤ, pos, ltb_ℤ}
use rra_module.Prelude.Dict.{Dict, lookup, insert}
use rra_module.Delegation.Scope.{
  ActionType, lower, TokenLimit, remaining, DelegationScope, is_expired, is_valid, eth_remaining,
  can_perform_action, use_scope, revoke,
}

pub record ScopedDelegation : Type 0 where
  pub delegations : Dict ℕ DelegationScope
  pub agent_delegations : Dict Text (List ℕ)
  pub delegator_delegations : Dict Text (List ℕ)

unfoldable pub new : ScopedDelegation
new = record { delegations = []; agent_delegations = []; delegator_delegations = [] }

-- `{addr.lower(): TokenLimit(addr.lower(), limit) for addr, limit in token_limits.items()}`
unfoldable pub init_limits : Dict Text ℤ → Dict Text TokenLimit → Dict Text TokenLimit
init_limits [] limits = limits
init_limits ((address, limit) ∷ given) limits = init_limits given (
    insert (lower address)
      (record { token_address = lower address; max_amount = limit; spent_amount = pos 0 }) limits)

-- `if key not in index: index[key] = []` and `index[key].append(id)`
abbrev pub append_id : Text → ℕ → Dict Text (List ℕ) → Dict Text (List ℕ)
append_id key id index = elim (lookup key index) [
  | none ↦ insert key (id ∷ []) index
  | some ids ↦ insert key (ids ++ id ∷ []) index
]

-- `id` is the Keccak digest that the source takes, and the duration is in seconds, not negative.
-- The two clock readings, for creation and for expiry, are taken to be one.
unfoldable pub create_delegation :
    ℕ
    → ℕ
    → Text
    → Text
    → Text
    → List ActionType
    → Dict Text ℤ
    → ℤ
    → ℕ
    → Bool
    → Text
    → ScopedDelegation
    → ScopedDelegation × DelegationScope
unfolding init_limits
create_delegation id now delegator agent credential actions limits eth_limit duration fresh text m =
    let scope : DelegationScope = record {
      delegation_id = id;
      delegator = lower delegator;
      agent = lower agent;
      credential_id_hash = credential;
      allowed_actions = actions;
      token_limits = init_limits limits [];
      eth_limit = eth_limit;
      eth_spent = pos 0;
      created_at = now;
      expires_at = some (now + duration * 10 ^ 6);
      active = true;
      requires_fresh_signature = fresh;
      description = text;
    } in
    (
      record {
        delegations = insert id scope m.delegations;
        agent_delegations = append_id (lower agent) id m.agent_delegations;
        delegator_delegations = append_id (lower delegator) id m.delegator_delegations;
      },
      scope,
    )

unfoldable pub get_delegation : ℕ → ScopedDelegation → Option DelegationScope
get_delegation id m = lookup id m.delegations

abbrev pub ids_of : Text → Dict Text (List ℕ) → List ℕ
ids_of key index = elim (lookup key index) [ none ↦ [] | some ids ↦ ids ]

-- `[self.delegations[did] for did in ids if did in self.delegations]`
unfoldable pub fetch : List ℕ → Dict ℕ DelegationScope → List DelegationScope
fetch [] store = []
fetch (id ∷ ids) store =
    let rest = fetch ids store in elim (lookup id store) [ none ↦ rest | some d ↦ d ∷ rest ]

abbrev pub only_active : ℕ → Bool → List DelegationScope → List DelegationScope
only_active now true ds = select (is_valid now) ds
only_active now false ds = ds

unfoldable pub get_agent_delegations : ℕ → Text → Bool → ScopedDelegation → List DelegationScope
unfolding fetch is_valid
get_agent_delegations now agent active_only m =
    only_active now active_only (fetch (ids_of (lower agent) m.agent_delegations) m.delegations)

unfoldable pub get_delegator_delegations : ℕ → Text → Bool → ScopedDelegation → List DelegationScope
unfolding fetch is_valid
get_delegator_delegations now delegator active_only m =
    only_active now active_only
      (fetch (ids_of (lower delegator) m.delegator_delegations) m.delegations)

unfoldable pub use_delegation :
    ℕ → ℕ → ActionType → Option Text → ℤ → ScopedDelegation → ScopedDelegation × Bool
unfolding use_scope
use_delegation now id action token amount m = elim (lookup id m.delegations) [
  | none ↦ (m, false)
  | some d ↦
      let (d', done) = use_scope now action token amount d in
      (record m { delegations = insert id d' m.delegations }, done)
]

-- The results of `check_delegation`.
pub data Verdict : Type 0 where
  allowed : ℕ → Bool → Verdict
  unknown expired revoked action_not_allowed token_not_authorized : Verdict
  eth_exceeded token_exceeded : ℤ → ℤ → Verdict

-- The check of the amount, for an action that is allowed.
unfoldable pub check_amount : ℕ → Option Text → ℤ → DelegationScope → Verdict
unfolding eth_remaining remaining
check_amount id none amount d =
    if ltb_ℤ (eth_remaining d) amount
    then eth_exceeded amount (eth_remaining d)
    else allowed id d.requires_fresh_signature
check_amount id (some token) amount d = elim (lookup (lower token) d.token_limits) [
  | none ↦ token_not_authorized
  | some l ↦
      if ltb_ℤ (remaining l) amount
      then token_exceeded amount (remaining l)
      else allowed id d.requires_fresh_signature
]

unfoldable pub check_delegation : ℕ → ℕ → ActionType → Option Text → ℤ → ScopedDelegation → Verdict
unfolding is_valid is_expired can_perform_action check_amount
check_delegation now id action token amount m = elim (lookup id m.delegations) [
  | none ↦ unknown
  | some d ↦
      if not (is_valid now d)
      then (if is_expired now d then expired else revoked)
      else if not (can_perform_action action d)
      then action_not_allowed
      else if ltb_ℤ (pos 0) amount
      then check_amount id token amount d
      else allowed id d.requires_fresh_signature
]

unfoldable pub revoke_delegation : ℕ → Text → ScopedDelegation → ScopedDelegation × Bool
unfolding revoke
revoke_delegation id delegator m = elim (lookup id m.delegations) [
  | none ↦ (m, false)
  | some d ↦
      if not (d.delegator == lower delegator)
      then (m, false)
      else (record m { delegations = insert id (revoke d) m.delegations }, true)
]

-- The loop of `revoke_all_for_agent`, over the delegations that were listed.
unfoldable pub revoke_each :
    Text → List DelegationScope → ℕ → ScopedDelegation → ScopedDelegation × ℕ
unfolding revoke
revoke_each agent [] count m = (m, count)
revoke_each agent (d ∷ ds) count m =
    let hit = d.agent == lower agent in
    revoke_each agent ds (if hit then suc count else count) (
      if hit then record m { delegations = insert d.delegation_id (revoke d) m.delegations } else m)

unfoldable pub revoke_all_for_agent : ℕ → Text → Text → ScopedDelegation → ScopedDelegation × ℕ
unfolding get_delegator_delegations revoke_each
revoke_all_for_agent now delegator agent m =
    revoke_each agent (get_delegator_delegations now delegator true m) 0 m
