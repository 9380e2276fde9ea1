-- ===== src/Treasury/SignerTests.antt =====
-- The registry and mediation of coordinator.py at concrete inputs, and their theorems there.
use rra_module.Prelude.{◌≡◌, refl, true, some, [], ◌∷◌, arith, Text, number_key, text_key, length}
use rra_module.Prelude.Int.{pos, negsuc}
use rra_module.Prelude.Dict.{lookup}
use rra_module.Treasury.Types.{
  TreasuryType, Treasury, TreasuryDispute, Coordinator, ret, raise, index_error, DisputeStatus,
}
use rra_module.Treasury.Registry.{new, new_treasury, register_treasury, update_treasury_signers}
use rra_module.Treasury.Disputes.{new_dispute}
use rra_module.Treasury.Voting.{resolve}
use rra_module.Treasury.Resolution.{mediator_resolve, execute_resolution}
use rra_module.Treasury.Mediation.{mediator_resolve-negative}

abbrev alice : Text
alice = b'A' ∷ b'l' ∷ []

abbrev carol : Text
carol = b'C' ∷ []

abbrev empty : Coordinator
empty = new 100 200

abbrev t_alice : Treasury
t_alice = new_treasury 1 5 alice TreasuryType.dao (alice ∷ []) (pos 1)

abbrev c_alice : Coordinator
c_alice = (register_treasury 1 5 alice TreasuryType.dao (alice ∷ []) (pos 1) empty).0

alice_registered :
    (register_treasury 1 5 alice TreasuryType.dao (alice ∷ []) (pos 1) empty).1 ≡ ret t_alice
unfolding register_treasury
alice_registered = refl

alice_found : lookup 1 c_alice.treasuries ≡ some t_alice
unfolding register_treasury new
alice_found = refl

carol_takes_over : (update_treasury_signers 1 (carol ∷ []) (pos 1) alice c_alice).1 ≡ true
unfolding register_treasury new update_treasury_signers
carol_takes_over = refl

-- A dispute in mediation with no proposal at all.
abbrev d_mediation : TreasuryDispute
d_mediation = record (new_dispute 7 10 100 1 (1 ∷ 2 ∷ []) alice carol true) {
  status = DisputeStatus.mediation;
}

abbrev c_mediation : Coordinator
c_mediation = record empty { disputes = (7, d_mediation) ∷ [] }

no_proposals : length d_mediation.proposals ≡ 0
unfolding new_dispute
no_proposals = refl

mediator_resolve-negative_example :
    let (c', ok) = mediator_resolve 7 (negsuc 0) c_mediation in
    (ok ≡ true)
    × (lookup 7 c'.disputes ≡ some (resolve (negsuc 0) d_mediation))
    × (execute_resolution 7 c' ≡ (c', raise index_error))
mediator_resolve-negative_example =
    mediator_resolve-negative 7 0 d_mediation c_mediation refl refl (omega (arith, no_proposals))
