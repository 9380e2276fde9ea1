-- ===== src/Treasury/Queries.antt =====
-- The queries and callback setters of src/rra/treasury/coordinator.py.
use rra_module.Prelude.{
  ℕ, Bool, true, false, List, ◌==◌, number_key, same_number, length, any, select, map,
}
use rra_module.Prelude.Int.{ℤ}
use rra_module.Prelude.Dict.{Dict}
use rra_module.Treasury.Types.{
  DisputeStatus, created, opened, staking, voting, mediation, resolved, executed, expired,
  cancelled, TreasuryDispute, Coordinator,
}
use rra_module.Treasury.Voting.{sum}

abbrev pub values {ℓ κ} : {K : Type ℓ} {V : Type κ} → Dict K V → List V
values = map (λ e. e.1)

-- `list_disputes`
unfoldable pub list_disputes : Coordinator → List TreasuryDispute
list_disputes c = values c.disputes

unfoldable pub get_disputes_by_treasury : ℕ → Coordinator → List TreasuryDispute
get_disputes_by_treasury treasury_id c =
    select (λ d. any (λ tid. tid == treasury_id) d.involved_treasuries) (values c.disputes)

abbrev pub is_active_status : DisputeStatus → Bool
is_active_status created = true
is_active_status staking = true
is_active_status voting = true
is_active_status mediation = true
is_active_status _ = false

unfoldable pub get_active_disputes : Coordinator → List TreasuryDispute
get_active_disputes c = select (λ d. is_active_status d.status) (values c.disputes)

-- The position of a status in the enumeration, by which two are compared.
abbrev pub ordinal : DisputeStatus → ℕ
ordinal created = 0
ordinal opened = 1
ordinal staking = 2
ordinal voting = 3
ordinal mediation = 4
ordinal resolved = 5
ordinal executed = 6
ordinal expired = 7
ordinal cancelled = 8

-- The result of `get_stats`; the counts by status as a function of the status.
pub record Stats : Type 0 where
  pub total_treasuries : ℕ
  pub active_treasuries : ℕ
  pub total_disputes : ℕ
  pub dispute_status_counts : DisputeStatus → ℕ
  pub total_staked : ℤ
  pub total_escrowed : ℤ

abbrev pub count_status : DisputeStatus → List TreasuryDispute → ℕ
count_status s ds = length (select (λ d. same_number (ordinal d.status) (ordinal s)) ds)

unfoldable pub get_stats : Coordinator → Stats
get_stats c = record {
  total_treasuries = length c.treasuries;
  active_treasuries = length (select (λ t. t.is_active) (values c.treasuries));
  total_disputes = length c.disputes;
  dispute_status_counts = λ s. count_status s (values c.disputes);
  total_staked = sum (map (λ d. d.total_stake) (values c.disputes));
  total_escrowed = sum (map (λ d. d.total_escrow) (values c.disputes));
}

unfoldable pub set_on_dispute_created : Coordinator → Coordinator
set_on_dispute_created c = record c { on_dispute_created = true }

unfoldable pub set_on_voting_started : Coordinator → Coordinator
set_on_voting_started c = record c { on_voting_started = true }

unfoldable pub set_on_dispute_resolved : Coordinator → Coordinator
set_on_dispute_resolved c = record c { on_dispute_resolved = true }
