-- ===== src/Confirmation/Tests.antt =====
-- Runs of the manager of confirmation.py, and the theorems at them.
use rra_module.Prelude.{
  ℕ, ◌≤◌, ◌≡◌, refl, true, false, Option, none, some, List, [], ◌∷◌, arith, Text, length,
  number_key, text_key, ◌+◌,
}
use rra_module.Prelude.Int.{pos}
use rra_module.Prelude.Dict.{lookup, erase}
use rra_module.Confirmation.Price.{
  ltb_decimal, zero_price, max_price, PriceCommitment, ok, create, verify,
}
use rra_module.Confirmation.Manager.{
  TransactionStatus, PendingTransaction, is_expired, Manager, Offer, new,
  create_pending_transaction,
}
use rra_module.Confirmation.Steps.{
  confirm_transaction, execute, confirmed_of, cleanup_expired, expired_ids,
}
use rra_module.Confirmation.Invariant.{IsSound}
use rra_module.Confirmation.Cleanup.{cleanup_expired-IsSound}
use rra_module.Confirmation.System.{Request, offer, apply, run, run-stores-IsSound}
use rra_module.Confirmation.Outcomes.{confirm_transaction-execute, create-verify}

abbrev price_text : Text
price_text = b'0' ∷ b'.' ∷ b'5' ∷ b' ' ∷ b'e' ∷ b't' ∷ b'h' ∷ []

abbrev purchase : Offer
purchase = record {
  buyer_id = b'b' ∷ [];
  seller_id = b's' ∷ [];
  repo_url = b'r' ∷ [];
  license_model = b'l' ∷ [];
  agreed_price = price_text;
  floor_price = b'0' ∷ b'.' ∷ b'4' ∷ [];
  target_price = b'1' ∷ [];
  timeout_seconds = some (pos 60);
}

abbrev m_new : Manager
m_new = new (pos 300) none none false none

abbrev calls : List Request
calls = offer 9 [] 1000 purchase ∷ []

abbrev m_open : Manager
m_open = run calls m_new

abbrev pick : Option PendingTransaction → PendingTransaction
pick (some tx) = tx
pick none = record {
  transaction_id = 0;
  buyer_id = [];
  seller_id = [];
  repo_url = [];
  license_model = [];
  price_commitment = record {
    amount = zero_price;
    currency = [];
    commitment_hash = [];
    created_at = 0;
  };
  floor_price = zero_price;
  target_price = zero_price;
  created_at = 0;
  expires_at = 0;
  status = TransactionStatus.failed;
  confirmation_count = 0;
  required_confirmations = 0;
  cancellation_reason = none;
  price_warnings = [];
}

abbrev tx_open : PendingTransaction
tx_open = pick (lookup 9 m_open.pending_transactions)

open_found : lookup 9 m_open.pending_transactions ≡ some tx_open
unfolding run apply new create_pending_transaction
open_found = refl

open_late : is_expired 60001001 tx_open ≡ true
unfolding run apply new create_pending_transaction
open_late = refl

open_confirmed : (confirm_transaction 2000 9 m_open).1 ≡ execute (confirmed_of tx_open)
unfolding run apply new create_pending_transaction confirm_transaction
open_confirmed = refl

run-stores-IsSound_example : IsSound (run calls (new (pos 300) none none false none))
unfolding new
run-stores-IsSound_example = run-stores-IsSound (pos 300) none none false none calls (refl, tt)

m_open-IsSound : IsSound m_open
unfolding new
m_open-IsSound = run-stores-IsSound (pos 300) none none false none calls (refl, tt)

cleanup_expired-IsSound_example :
    (m' : Manager) × (cleanup_expired 60001001 m_open
      ≡ some (m', length (expired_ids 60001001 m_open.pending_transactions)))
    × IsSound m'
    × ((j : ℕ) (tx : PendingTransaction)
        → lookup j m'.pending_transactions ≡ some tx
        → (lookup j m_open.pending_transactions ≡ some tx) × (is_expired 60001001 tx ≡ false))
cleanup_expired-IsSound_example = cleanup_expired-IsSound 60001001 m_open m_open-IsSound

confirm_transaction-execute_example :
    (tx : PendingTransaction) × (lookup 9 m_open.pending_transactions ≡ some tx)
    × (2000 ≤ tx.expires_at)
    × (tx.confirmation_count + 1 ≡ tx.required_confirmations)
    × (confirmed_of tx_open ≡ confirmed_of tx)
    × ((confirm_transaction 2000 9 m_open).0.pending_transactions
        ≡ erase 9 m_open.pending_transactions)
    × (lookup 9 (confirm_transaction 2000 9 m_open).0.completed_transactions
        ≡ some (confirmed_of tx_open))
confirm_transaction-execute_example =
    confirm_transaction-execute 2000 9 m_open m_open-IsSound open_confirmed

abbrev half_ether : PriceCommitment
half_ether = record {
  amount = record { coefficient = 5; places = 1 };
  currency = b'E' ∷ b'T' ∷ b'H' ∷ [];
  commitment_hash = [];
  created_at = 7;
}

half_ether_made : create [] 7 price_text ≡ ok half_ether
unfolding create
half_ether_made = refl

create-verify_example :
    (verify half_ether price_text ≡ true)
    × (ltb_decimal zero_price half_ether.amount ≡ true)
    × (ltb_decimal max_price half_ether.amount ≡ false)
create-verify_example = create-verify [] 7 price_text half_ether_made

default_minimum : m_new.min_timeout ≤ 3600
unfolding new
default_minimum = omega arith
