-- ===== src/Confirmation/Invariant.antt =====
-- What holds of the two stores of confirmation.py between two calls.
use rra_module.Prelude.{
  ℕ, ◌≤◌, ◌<◌, ◌≡◌, ◌⊎◌, refl, inl, inr, false, none, some, arith, Option-cases, Bool-cases,
  number_key, same_number, same_number_iff, subst,
}
use rra_module.Prelude.Dict.{
  Dict, lookup, insert, erase, IsNodup, insert-IsNodup, erase-IsNodup, lookup-insert,
  lookup-erase_self, lookup-erase_ne, AllEntries, AllEntries-insert, AllEntries-erase,
}
use rra_module.Confirmation.Price.{ltb_decimal}
use rra_module.Confirmation.Manager.{
  TransactionStatus, CancellationReason, timeout_expired, PendingTransaction, Callback, Manager,
  log_action, call,
}

-- A transaction in the pending store: it is stored under its id, its status says so, it lacks a
-- confirmation, no reason for cancellation is noted, and its price is not below the floor.
pub record Waits (id : ℕ) (tx : PendingTransaction) : Type 0 where
  pub own_id : tx.transaction_id ≡ id
  pub waiting : tx.status ≡ TransactionStatus.pending_confirmation
  pub lacking : tx.confirmation_count < tx.required_confirmations
  pub no_reason : tx.cancellation_reason ≡ none
  pub above_floor : ltb_decimal tx.price_commitment.amount tx.floor_price ≡ false

-- How a completed transaction ended.
abbrev pub Ended : PendingTransaction → Type 0
Ended tx =
    ((tx.status ≡ TransactionStatus.confirmed)
      × (tx.required_confirmations ≤ tx.confirmation_count)
      × (tx.cancellation_reason ≡ none))
    ⊎ ((tx.status ≡ TransactionStatus.cancelled)
        × ((why : CancellationReason) × (tx.cancellation_reason ≡ some why)))
    ⊎ ((tx.status ≡ TransactionStatus.expired) × (tx.cancellation_reason ≡ some timeout_expired))

pub record Settled (id : ℕ) (tx : PendingTransaction) : Type 0 where
  pub own_id : tx.transaction_id ≡ id
  pub ended : Ended tx
  pub above_floor : ltb_decimal tx.price_commitment.amount tx.floor_price ≡ false

pub record AreSound (pending completed : Dict ℕ PendingTransaction) : Type 0 where
  pub pending_distinct : IsNodup pending
  pub completed_distinct : IsNodup completed
  pub pending_sound : AllEntries Waits pending
  pub completed_sound : AllEntries Settled completed
  pub apart :
      (id : ℕ) (tx : PendingTransaction) → lookup id pending ≡ some tx → lookup id completed ≡ none

abbrev pub IsSound : Manager → Type 0
IsSound m = AreSound m.pending_transactions m.completed_transactions

pub call-stores :
    (f : Callback) (now : ℕ) (tx : PendingTransaction) (m : Manager)
    → ((call f now tx m).pending_transactions ≡ m.pending_transactions)
      × ((call f now tx m).completed_transactions ≡ m.completed_transactions)
unfolding call log_action
call-stores none now tx m = (refl, refl)
call-stores (some f) now tx m = elim (Option-cases (f tx)) [
  | inl fine ↦ (ground arith, ground arith)
  | inr (text, raised) ↦ (ground arith, ground arith)
]

-- Moving a transaction from one store to the other.
pub move-AreSound :
    (id : ℕ) (tx : PendingTransaction) (pending completed : Dict ℕ PendingTransaction)
    → AreSound pending completed
    → Settled id tx
    → AreSound (erase id pending) (insert id tx completed)
move-AreSound id tx pending completed s settled = record {
  pending_distinct = erase-IsNodup id pending s.pending_distinct;
  completed_distinct = insert-IsNodup id tx completed s.completed_distinct;
  pending_sound = AllEntries-erase Waits id pending s.pending_sound;
  completed_sound = AllEntries-insert Settled id tx completed s.completed_sound settled;
  apart = λ j other found. elim (Bool-cases (same_number id j)) [
    | inl same ↦
        absurd
          (ground (arith, same_number_iff id j, lookup-erase_self id pending s.pending_distinct))
    | inr differ ↦
        ground
          (arith, lookup-insert j id tx completed, lookup-erase_ne j id pending, s.apart j other)
  ];
}

-- Writing a pending transaction that is not among the completed ones.
pub put-AreSound :
    (id : ℕ) (tx : PendingTransaction) (pending completed : Dict ℕ PendingTransaction)
    → AreSound pending completed
    → Waits id tx
    → lookup id completed ≡ none
    → AreSound (insert id tx pending) completed
put-AreSound id tx pending completed s waits fresh = record {
  pending_distinct = insert-IsNodup id tx pending s.pending_distinct;
  completed_distinct = s.completed_distinct;
  pending_sound = AllEntries-insert Waits id tx pending s.pending_sound waits;
  completed_sound = s.completed_sound;
  apart = λ j other found. elim (Bool-cases (same_number id j)) [
    | inl same ↦ subst (λ x. lookup x completed ≡ none) ((same_number_iff id j).0 same) fresh
    | inr differ ↦ s.apart j other (ground (arith, lookup-insert j id tx pending))
  ];
}
