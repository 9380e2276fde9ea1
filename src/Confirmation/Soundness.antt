-- ===== src/Confirmation/Soundness.antt =====
-- The methods of confirmation.py keep the two stores sound.
use rra_module.Prelude.{
  ℕ, ◌≡◌, refl, inl, inr, true, false, none, some, arith, ap, ◌∙◌, Option-cases, Bool-cases, Text,
  number_key, subst,
}
use rra_module.Prelude.Dict.{lookup, insert, erase, AllEntries-lookup}
use rra_module.Confirmation.Price.{
  Decimal, PriceCommitment, ltb_decimal, ok, err, zero_price, Result-cases, create,
}
use rra_module.Confirmation.Manager.{
  CancellationReason, PendingTransaction, Manager, Action, nothing, is_expired, log_action, call,
  Offer, open_offer, accept_offer, new_pending, read_bound, is_fully_confirmed,
  create_pending_transaction,
}
use rra_module.Confirmation.Steps.{
  expired_of, expire_transaction, count_one, confirmed_of, confirm_transaction, cancelled_of,
  not_found, has_expired, execute, cancel_transaction, get_pending_transaction,
}
use rra_module.Confirmation.Invariant.{
  IsSound, Settled, Waits, call-stores, move-AreSound, put-AreSound,
}

-- Expiry moves the transaction, whatever the callback does.
pub expire_transaction-stores :
    (now id : ℕ) (tx : PendingTransaction) (m : Manager)
    → tx.transaction_id ≡ id
    → ((expire_transaction now tx m).pending_transactions ≡ erase id m.pending_transactions)
      × ((expire_transaction now tx m).completed_transactions
          ≡ insert id (expired_of tx) m.completed_transactions)
unfolding expire_transaction log_action
expire_transaction-stores now id tx m own =
    let moved = record m {
      completed_transactions = insert tx.transaction_id (expired_of tx) m.completed_transactions;
      pending_transactions = erase tx.transaction_id m.pending_transactions;
    } in
    let (same_p, same_c) =
      call-stores m.on_expired now (expired_of tx)
        (log_action now Action.expired (expired_of tx) nothing moved) in
    (
      same_p ∙ ap (λ k. erase k m.pending_transactions) own,
      same_c ∙ ap (λ k. insert k (expired_of tx) m.completed_transactions) own,
    )

expired_of-Settled : (id : ℕ) (tx : PendingTransaction) → Waits id tx → Settled id (expired_of tx)
expired_of-Settled id tx w = record {
  own_id = w.own_id;
  ended = inr (inr (refl, refl));
  above_floor = w.above_floor;
}

pub expire_transaction-IsSound :
    (now id : ℕ) (tx : PendingTransaction) (m : Manager)
    → IsSound m
    → lookup id m.pending_transactions ≡ some tx
    → IsSound (expire_transaction now tx m)
expire_transaction-IsSound now id tx m s found =
    let w = AllEntries-lookup Waits id m.pending_transactions s.pending_sound found in
    let stores = expire_transaction-stores now id tx m w.own_id in
    rw (stores.0, stores.1)
      (move-AreSound id (expired_of tx) m.pending_transactions m.completed_transactions s
        (expired_of-Settled id tx w))

-- A confirmed transaction has all its confirmations.
confirmed_of-Settled :
    (id : ℕ) (tx : PendingTransaction)
    → Waits id tx
    → is_fully_confirmed (count_one tx) ≡ true
    → Settled id (confirmed_of tx)
confirmed_of-Settled id tx w full = record {
  own_id = w.own_id;
  ended = inl (refl, ground arith, w.no_reason);
  above_floor = w.above_floor;
}

count_one-Waits :
    (id : ℕ) (tx : PendingTransaction)
    → Waits id tx
    → is_fully_confirmed (count_one tx) ≡ false
    → Waits id (count_one tx)
count_one-Waits id tx w short = ground (arith, w)

pub confirm_transaction-IsSound :
    (now id : ℕ) (m : Manager) → IsSound m → IsSound (confirm_transaction now id m).0
unfolding confirm_transaction log_action
confirm_transaction-IsSound now id m s = elim (Option-cases (lookup id m.pending_transactions)) [
  | inl missing ↦
      let step : confirm_transaction now id m ≡ (m, not_found) = ground arith in rw step s
  | inr (tx, found) ↦
      let w = AllEntries-lookup Waits id m.pending_transactions s.pending_sound found in
      elim (Bool-cases (is_expired now tx)) [
        | inl late ↦
            let step : confirm_transaction now id m ≡ (expire_transaction now tx m, has_expired) =
              ground arith in
            rw step (expire_transaction-IsSound now id tx m s found)
        | inr timely ↦ elim (Bool-cases (is_fully_confirmed (count_one tx))) [
          | inl full ↦
              let moved = record m {
                completed_transactions = insert id (confirmed_of tx) m.completed_transactions;
                pending_transactions = erase id m.pending_transactions;
              } in
              let logged = log_action now Action.confirmed (confirmed_of tx) nothing moved in
              let stores = call-stores m.on_confirmed now (confirmed_of tx) logged in
              let step : confirm_transaction now id m
                  ≡ (call m.on_confirmed now (confirmed_of tx) logged, execute (confirmed_of tx)) =
                ground (arith, w.waiting) in
              rw step (
                rw (stores.0, stores.1)
                  (move-AreSound id (confirmed_of tx) m.pending_transactions
                    m.completed_transactions s (confirmed_of-Settled id tx w full)))
          | inr short ↦
              let step : ((confirm_transaction now id m).0.pending_transactions
                    ≡ insert id (count_one tx) m.pending_transactions)
                  × ((confirm_transaction now id m).0.completed_transactions
                      ≡ m.completed_transactions) =
                ground (arith, w.waiting) in
              rw (step.0, step.1)
                (put-AreSound id (count_one tx) m.pending_transactions m.completed_transactions s
                  (count_one-Waits id tx w short) (s.apart id tx found))
        ]
      ]
]

pub cancel_transaction-IsSound :
    (now id : ℕ) (why : CancellationReason) (m : Manager)
    → IsSound m
    → IsSound (cancel_transaction now id why m).0
unfolding cancel_transaction log_action
cancel_transaction-IsSound now id why m s = elim (Option-cases (lookup id m.pending_transactions)) [
  | inl missing ↦
      let step : cancel_transaction now id why m ≡ (m, false) = ground arith in rw step s
  | inr (tx, found) ↦
      let w = AllEntries-lookup Waits id m.pending_transactions s.pending_sound found in
      let step : ((cancel_transaction now id why m).0.pending_transactions
            ≡ erase id m.pending_transactions)
          × ((cancel_transaction now id why m).0.completed_transactions
              ≡ insert id (cancelled_of why tx) m.completed_transactions) =
        ground arith in
      rw (step.0, step.1)
        (move-AreSound id (cancelled_of why tx) m.pending_transactions m.completed_transactions s
          (record {
            own_id = w.own_id;
            ended = inr (inl (refl, (why, refl)));
            above_floor = w.above_floor;
          }))
]

pub get_pending_transaction-IsSound :
    (now id : ℕ) (m : Manager) → IsSound m → IsSound (get_pending_transaction now id m).0
unfolding get_pending_transaction
get_pending_transaction-IsSound now id m s =
    elim (Option-cases (lookup id m.pending_transactions)) [
      | inl missing ↦
          let step : get_pending_transaction now id m ≡ (m, none) = ground arith in rw step s
      | inr (tx, found) ↦ elim (Bool-cases (is_expired now tx)) [
        | inl late ↦
            let step : get_pending_transaction now id m ≡ (expire_transaction now tx m, none) =
              ground arith in
            rw step (expire_transaction-IsSound now id tx m s found)
        | inr timely ↦
            let step : get_pending_transaction now id m ≡ (m, some tx) = ground arith in rw step s
      ]
    ]

new_pending-Waits :
    (id now : ℕ) (offer : Offer) (commitment : PriceCommitment) (low target : Decimal) (m : Manager)
    → ltb_decimal commitment.amount low ≡ false
    → Waits id (new_pending id now offer commitment low target m)
unfolding new_pending
new_pending-Waits id now offer commitment low target m ok' = record {
  own_id = refl;
  waiting = refl;
  lacking = ground arith;
  no_reason = refl;
  above_floor = ok';
}

-- An offer that is accepted waits for its confirmations under the id that was drawn.
pub open_offer-Waits :
    (id now : ℕ) (digest : Text) (offer : Offer) (m : Manager) {tx : PendingTransaction}
    → open_offer id digest now offer m ≡ ok tx
    → Waits id tx
unfolding open_offer accept_offer
open_offer-Waits id now digest offer m {tx} e =
    elim (Result-cases (create digest now offer.agreed_price)) [
      | inl (bad, refused) ↦ absurd (ground arith)
      | inr (commitment, made) ↦ elim (Result-cases (read_bound offer.floor_price zero_price)) [
        | inl (bad, refused) ↦ absurd (ground arith)
        | inr (low, read_low) ↦
            elim (Result-cases (read_bound offer.target_price commitment.amount)) [
              | inl (bad, refused) ↦ absurd (ground arith)
              | inr (target, read_target) ↦ elim (Bool-cases (ltb_decimal commitment.amount low)) [
                | inl under ↦ absurd (ground arith)
                | inr above ↦
                    let same : new_pending id now offer commitment low target m ≡ tx =
                      ground arith in
                    subst (Waits id) same
                      (new_pending-Waits id now offer commitment low target m above)
              ]
            ]
      ]
    ]

pub create_pending_transaction-IsSound :
    (id now : ℕ) (digest : Text) (offer : Offer) (m : Manager)
    → IsSound m
    → lookup id m.completed_transactions ≡ none
    → IsSound (create_pending_transaction id digest now offer m).0
unfolding create_pending_transaction log_action
create_pending_transaction-IsSound id now digest offer m s fresh =
    elim (Result-cases (open_offer id digest now offer m)) [
      | inl (e, refused) ↦
          let step : create_pending_transaction id digest now offer m ≡ (m, err e) = ground arith in
          rw step s
      | inr (tx, made) ↦
          let step : ((create_pending_transaction id digest now offer m).0.pending_transactions
                ≡ insert id tx m.pending_transactions)
              × ((create_pending_transaction id digest now offer m).0.completed_transactions
                  ≡ m.completed_transactions) =
            ground arith in
          rw (step.0, step.1)
            (put-AreSound id tx m.pending_transactions m.completed_transactions s
              (open_offer-Waits id now digest offer m made) fresh)
    ]
