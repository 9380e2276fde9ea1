-- ===== src/Confirmation/Outcomes.antt =====
-- What confirming, cancelling and pricing in confirmation.py guarantee.
use rra_module.Prelude.{
  ℕ, ◌+◌, ◌≤◌, ◌≡◌, ◌∙◌, ap, inl, inr, true, false, Option, none, some, [], ◌∷◌, ◌++◌, arith, Each,
  Option-cases, Bool-cases, Text, number_key, text_key, same_text_iff,
}
use mathlib.Core.List.{append-nil, append_assoc}
use rra_module.Prelude.Int.{ℤ, pos, negsuc}
use rra_module.Prelude.Dict.{lookup, insert, erase, lookup-insert_self, AllEntries-lookup}
use rra_module.Confirmation.Price.{
  ltb_decimal, is_digit, PriceCommitment, ok, Result-cases, zero_price, max_price, match_price,
  match_currency, read_price, create, verify,
}
use rra_module.Confirmation.Manager.{
  CancellationReason, PendingTransaction, is_expired, Manager, choose_timeout, call, log_action,
  Action, nothing, is_fully_confirmed,
}
use rra_module.Confirmation.Steps.{
  count_one, confirmed_of, confirm_transaction, execute, cancelled_of, cancel_transaction,
}
use rra_module.Confirmation.Invariant.{IsSound, Waits, call-stores}

-- A transaction is cleared for execution only if it was pending and its deadline had not passed,
-- and only by its last confirmation; its price, its parties and its deadline are those of the
-- pending transaction, and it has moved from the pending to the completed store.
pub confirm_transaction-execute :
    (now id : ℕ) (m : Manager) {done : PendingTransaction}
    → IsSound m
    → (confirm_transaction now id m).1 ≡ execute done
    → (tx : PendingTransaction) × (lookup id m.pending_transactions ≡ some tx)
      × (now ≤ tx.expires_at)
      × (tx.confirmation_count + 1 ≡ tx.required_confirmations)
      × (done ≡ confirmed_of tx)
      × ((confirm_transaction now id m).0.pending_transactions ≡ erase id m.pending_transactions)
      × (lookup id (confirm_transaction now id m).0.completed_transactions ≡ some done)
unfolding confirm_transaction log_action
confirm_transaction-execute now id m s cleared =
    elim (Option-cases (lookup id m.pending_transactions)) [
      | inl missing ↦ absurd (ground arith)
      | inr (tx, found) ↦
          let w = AllEntries-lookup Waits id m.pending_transactions s.pending_sound found in
          elim (Bool-cases (is_expired now tx)) [
            | inl late ↦ absurd (ground arith)
            | inr timely ↦ elim (Bool-cases (is_fully_confirmed (count_one tx))) [
              | inr short ↦ absurd (ground (arith, w.waiting))
              | inl full ↦
                  let moved = record m {
                    completed_transactions = insert id (confirmed_of tx) m.completed_transactions;
                    pending_transactions = erase id m.pending_transactions;
                  } in
                  let logged = log_action now Action.confirmed (confirmed_of tx) nothing moved in
                  let stores = call-stores m.on_confirmed now (confirmed_of tx) logged in
                  let step : confirm_transaction now id m ≡ (
                    call m.on_confirmed now (confirmed_of tx) logged,
                    execute (confirmed_of tx),
                  ) =
                    ground (arith, w.waiting) in
                  (
                    tx,
                    found,
                    ground arith,
                    ground (arith, w.lacking),
                    ground (arith, step),
                    rw step stores.0,
                    rw step (
                        rw stores.1 (
                          lookup-insert_self id (confirmed_of tx) m.completed_transactions
                          ∙ ap some (ground (arith, step)))),
                  )
            ]
          ]
    ]

-- Cancelling does not look at the deadline: a pending transaction whose time is over is recorded as
-- cancelled, with the reason that was given, and not as expired.
pub cancel_transaction-late :
    (now id : ℕ) (why : CancellationReason) (tx : PendingTransaction) (m : Manager)
    → lookup id m.pending_transactions ≡ some tx
    → is_expired now tx ≡ true
    → let (m', done) = cancel_transaction now id why m in
      (done ≡ true)
      × (lookup id m'.completed_transactions ≡ some (cancelled_of why tx))
      × (m'.pending_transactions ≡ erase id m.pending_transactions)
unfolding cancel_transaction log_action
cancel_transaction-late now id why tx m found late =
    let stored = lookup-insert_self id (cancelled_of why tx) m.completed_transactions in
    (ground (arith, stored), ground (arith, stored), ground arith)

-- A commitment is made only at a positive price of at most 10^18, and verifies against the text
-- that it was made from.
pub create-verify :
    (digest : Text) (now : ℕ) (price : Text) {p : PriceCommitment}
    → create digest now price ≡ ok p
    → (verify p price ≡ true)
      × (ltb_decimal zero_price p.amount ≡ true)
      × (ltb_decimal max_price p.amount ≡ false)
unfolding create verify
create-verify digest now price made = elim (Result-cases (read_price price)) [
  | inl (e, refused) ↦ absurd (ground arith)
  | inr ((amount, currency), read) ↦ (
    ground (arith, read, same_text_iff currency currency),
    ground (arith, read),
    ground (arith, read),
  )
]

-- The timeout of a transaction lies between the manager's minimum and one hour, whatever is asked
-- for, where the minimum is at most one hour.
pub choose_timeout_bounds :
    (timeout : Option ℤ) (m : Manager)
    → m.min_timeout ≤ 3600
    → (m.min_timeout ≤ choose_timeout timeout m) × (choose_timeout timeout m ≤ 3600)
unfolding choose_timeout
choose_timeout_bounds none m h = omega arith
choose_timeout_bounds (some (pos t)) m h = ground arith
choose_timeout_bounds (some (negsuc t)) m h = omega arith

abbrev pub AllDigits : Text → Type 0
AllDigits = Each (λ c. is_digit c ≡ true)

match_price-number :
    (n : ℕ) (number ds : Text) (d : ℕ)
    → AllDigits ds
    → is_digit d ≡ true
    → match_price (n ∷ number) (ds ++ d ∷ []) ≡ some ((n ∷ number) ++ ds, d ∷ [])
unfolding match_price match_currency
match_price-number n number [] d h last = ground (arith, append-nil (n ∷ number))
match_price-number n number (c ∷ ds) d h last = ground (
  arith,
  h.0,
  append_assoc (n ∷ number) (c ∷ []) ds,
  match_price-number n (number ++ c ∷ []) ds d h.1 last,
)

-- A price of two or more digits with no currency is accepted by the pattern: its last digit is
-- read as the currency and the others as the amount.
pub match_price-digits :
    (n : ℕ) (ds : Text) (d : ℕ)
    → AllDigits (n ∷ ds)
    → is_digit d ≡ true
    → match_price [] ((n ∷ ds) ++ d ∷ []) ≡ some (n ∷ ds, d ∷ [])
unfolding match_price
match_price-digits n ds d h last = ground (arith, h.0, match_price-number n [] ds d h.1 last)
