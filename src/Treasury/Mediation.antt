-- ===== src/Treasury/Mediation.antt =====
-- What `mediator_resolve` of coordinator.py accepts as a proposal.
use rra_module.Prelude.{ℕ, ◌≤◌, ◌≡◌, true, some, arith, length, number_key}
use rra_module.Prelude.Int.{negsuc}
use rra_module.Prelude.Dict.{lookup, lookup-insert_self}
use rra_module.Treasury.Types.{TreasuryDispute, Coordinator, raise, index_error, mediation}
use rra_module.Treasury.Voting.{resolve}
use rra_module.Treasury.Resolution.{mediator_resolve, execute_resolution}

-- A negative proposal id passes the mediator's test, whatever the proposals: the dispute is
-- resolved, and if the id reaches back beyond the first proposal, its execution raises an
-- `IndexError`.
pub mediator_resolve-negative :
    (id k : ℕ) (d : TreasuryDispute) (c : Coordinator)
    → lookup id c.disputes ≡ some d
    → d.status ≡ mediation
    → length d.proposals ≤ k
    → let (c', ok) = mediator_resolve id (negsuc k) c in
      (ok ≡ true)
      × (lookup id c'.disputes ≡ some (resolve (negsuc k) d))
      × (execute_resolution id c' ≡ (c', raise index_error))
unfolding mediator_resolve execute_resolution
mediator_resolve-negative id k d c found st far =
    let stored = lookup-insert_self id (resolve (negsuc k) d) c.disputes in
    (ground (arith, stored), ground (arith, stored), ground (arith, stored))
