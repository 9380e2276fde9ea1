-- ===== src/Confirmation/Steps.antt =====
-- Confirming, cancelling and expiring in src/rra/transaction/confirmation.py, and its queries.
use rra_module.Prelude.{
  ℕ, suc, ◌+◌, ◌-◌, Bool, true, false, not, Option, none, some, List, [], ◌∷◌, map, Text,
  if◌then◌else◌, ◌==◌, number_key, text_key, same_number, length, select, drop,
}
use rra_module.Prelude.Int.{ℤ, pos, negsuc}
use rra_module.Prelude.Dict.{Dict, lookup, insert, erase}
use rra_module.Confirmation.Manager.{
  TransactionStatus, CancellationReason, timeout_expired, PendingTransaction, is_expired, awaits,
  is_fully_confirmed, Action, nothing, remaining, reason, Entry, Manager, log_action, call,
}

abbrev pub expired_of : PendingTransaction → PendingTransaction
expired_of tx = record tx {
  status = TransactionStatus.expired;
  cancellation_reason = some timeout_expired;
}

-- `_expire_transaction`
unfoldable pub expire_transaction : ℕ → PendingTransaction → Manager → Manager
unfolding log_action call
expire_transaction now tx m =
    let gone = expired_of tx in
    let moved = record m {
      completed_transactions = insert tx.transaction_id gone m.completed_transactions;
      pending_transactions = erase tx.transaction_id m.pending_transactions;
    } in
    call m.on_expired now gone (log_action now Action.expired gone nothing moved)

-- The results of `confirm_transaction`.
pub data Confirmed : Type 0 where
  not_found has_expired : Confirmed
  invalid_status : TransactionStatus → Confirmed
  execute : PendingTransaction → Confirmed
  confirm_again : PendingTransaction → ℕ → Confirmed

abbrev pub count_one : PendingTransaction → PendingTransaction
count_one tx = record tx { confirmation_count = tx.confirmation_count + 1 }

abbrev pub confirmed_of : PendingTransaction → PendingTransaction
confirmed_of tx = record (count_one tx) { status = TransactionStatus.confirmed }

-- `confirmation_code` is not used by the source.
unfoldable pub confirm_transaction : ℕ → ℕ → Manager → Manager × Confirmed
unfolding expire_transaction log_action call
confirm_transaction now id m = elim (lookup id m.pending_transactions) [
  | none ↦ (m, not_found)
  | some tx ↦
      if is_expired now tx
      then (expire_transaction now tx m, has_expired)
      else if not (awaits tx.status)
      then (m, invalid_status tx.status)
      else if is_fully_confirmed (count_one tx)
      then (
        call m.on_confirmed now (confirmed_of tx) (
            log_action now Action.confirmed (confirmed_of tx) nothing (record m {
              completed_transactions = insert id (confirmed_of tx) m.completed_transactions;
              pending_transactions = erase id m.pending_transactions;
            })),
        execute (confirmed_of tx),
      )
      else (
        log_action now Action.partial_confirm (count_one tx)
            (remaining (tx.required_confirmations - (tx.confirmation_count + 1)))
            (record m { pending_transactions = insert id (count_one tx) m.pending_transactions }),
        confirm_again (count_one tx) (tx.required_confirmations - (tx.confirmation_count + 1)),
      )
]

abbrev pub cancelled_of : CancellationReason → PendingTransaction → PendingTransaction
cancelled_of why tx = record tx {
  status = TransactionStatus.cancelled;
  cancellation_reason = some why;
}

unfoldable pub cancel_transaction : ℕ → ℕ → CancellationReason → Manager → Manager × Bool
unfolding log_action
cancel_transaction now id why m = elim (lookup id m.pending_transactions) [
  | none ↦ (m, false)
  | some tx ↦ (
    log_action now Action.cancelled (cancelled_of why tx) (reason why) (record m {
      completed_transactions = insert id (cancelled_of why tx) m.completed_transactions;
      pending_transactions = erase id m.pending_transactions;
    }),
    true,
  )
]

unfoldable pub get_pending_transaction : ℕ → ℕ → Manager → Manager × Option PendingTransaction
unfolding expire_transaction
get_pending_transaction now id m = elim (lookup id m.pending_transactions) [
  | none ↦ (m, none)
  | some tx ↦ if is_expired now tx then (expire_transaction now tx m, none) else (m, some tx)
]

-- `[tx_id for tx_id, tx in pending.items() if tx.is_expired]`
unfoldable pub expired_ids : ℕ → Dict ℕ PendingTransaction → List ℕ
expired_ids now [] = []
expired_ids now ((id, tx) ∷ pending) =
    let rest = expired_ids now pending in if is_expired now tx then id ∷ rest else rest

-- The loop over the ids; `none` is the `KeyError` of an id that is no longer there.
unfoldable pub expire_all : ℕ → List ℕ → Manager → Option Manager
unfolding expire_transaction
expire_all now [] m = some m
expire_all now (id ∷ ids) m = elim (lookup id m.pending_transactions) [
  | none ↦ none
  | some tx ↦ expire_all now ids (expire_transaction now tx m)
]

-- `cleanup_expired`, which calls `_cleanup_expired_internal`
unfoldable pub cleanup_expired : ℕ → Manager → Option (Manager × ℕ)
unfolding expired_ids expire_all
cleanup_expired now m =
    let ids = expired_ids now m.pending_transactions in
    elim (expire_all now ids m) [ none ↦ none | some m' ↦ some (m', length ids) ]

-- An absent or empty filter lets everything through.
abbrev pub wanted : Option Text → Text → Bool
wanted none t = true
wanted (some []) t = true
wanted (some (c ∷ s)) t = t == (c ∷ s)

abbrev pub values {ℓ} : {V : Type ℓ} → Dict ℕ V → List V
values = map (λ e. e.1)

unfoldable pub get_all_pending :
    ℕ → Option Text → Option Text → Manager → Option (Manager × List PendingTransaction)
unfolding cleanup_expired
get_all_pending now buyer seller m = elim (cleanup_expired now m) [
  | none ↦ none
  | some (m', n) ↦ some (
    m',
    select (λ tx. wanted seller tx.seller_id)
        (select (λ tx. wanted buyer tx.buyer_id) (values m'.pending_transactions)),
  )
]

-- `logs[-limit:]`
unfoldable pub last_entries : ℤ → List Entry → List Entry
last_entries (pos n) logs = if n == 0 then logs else drop (length logs - n) logs
last_entries (negsuc n) logs = drop (suc n) logs

unfoldable pub get_audit_log : Option ℕ → ℤ → Manager → List Entry
unfolding last_entries
get_audit_log none limit m = last_entries limit m.audit_log
get_audit_log (some id) limit m =
    last_entries limit (select (λ e. same_number e.transaction_id id) m.audit_log)

abbrev pub rank : TransactionStatus → ℕ
rank TransactionStatus.pending_confirmation = 0
rank TransactionStatus.confirmed = 1
rank TransactionStatus.executed = 2
rank TransactionStatus.cancelled = 3
rank TransactionStatus.expired = 4
rank TransactionStatus.failed = 5

abbrev pub count_status : TransactionStatus → List PendingTransaction → ℕ
count_status s txs = length (select (λ tx. same_number (rank tx.status) (rank s)) txs)

-- The counts of `get_stats`. Its two rates are the quotients of `confirmed` and `expired` by
-- `total_completed`, and 0 where that is 0.
pub record Stats : Type 0 where
  pub pending : ℕ
  pub confirmed : ℕ
  pub cancelled : ℕ
  pub expired : ℕ
  pub total_completed : ℕ

unfoldable pub get_stats : Manager → Stats
get_stats m = record {
  pending = length m.pending_transactions;
  confirmed = count_status TransactionStatus.confirmed (values m.completed_transactions);
  cancelled = count_status TransactionStatus.cancelled (values m.completed_transactions);
  expired = count_status TransactionStatus.expired (values m.completed_transactions);
  total_completed = length m.completed_transactions;
}
