-- ===== src/Confirmation/Manager.antt =====
-- The transactions and the manager of src/rra/transaction/confirmation.py. A call reads the clock
-- as `now`, in microseconds; its readings are taken to be one instant. The lock makes calls atomic.
use rra_module.Prelude.{
  ℕ, ◌+◌, ◌-◌, ◌*◌, ◌^◌, Bool, true, false, not, Option, none, some, List, [], ◌∷◌, ◌++◌, Text, ltb,
  leb, if◌then◌else◌, ◌==◌, number_key, text_key, min, max,
}
use rra_module.Prelude.Int.{ℤ, pos, negsuc, pos_part}
use rra_module.Prelude.Dict.{Dict, insert}
use rra_module.Confirmation.Price.{
  Decimal, ltb_decimal, numeric_prefix, to_decimal, zero_price, PriceCommitment, create, Result, ok,
  err, below_floor, invalid_operation, or_raise, ◌>>=◌,
}

pub data TransactionStatus : Type 0 where
  pending_confirmation confirmed executed cancelled expired failed : TransactionStatus

pub data CancellationReason : Type 0 where
  user_cancelled timeout_expired price_changed validation_failed system_error : CancellationReason

-- The three texts of `validate_price`.
pub data Warning : Type 0 where
  under_floor under_target far_above_target : Warning

-- Of the metadata, the warnings that the source adds.
pub record PendingTransaction : Type 0 where
  pub transaction_id : ℕ
  pub buyer_id : Text
  pub seller_id : Text
  pub repo_url : Text
  pub license_model : Text
  pub price_commitment : PriceCommitment
  pub floor_price : Decimal
  pub target_price : Decimal
  pub created_at : ℕ
  pub expires_at : ℕ
  pub status : TransactionStatus
  pub confirmation_count : ℕ
  pub required_confirmations : ℕ
  pub cancellation_reason : Option CancellationReason
  pub price_warnings : List Warning

abbrev pub is_expired : ℕ → PendingTransaction → Bool
is_expired now tx = ltb tx.expires_at now

abbrev pub awaits : TransactionStatus → Bool
awaits pending_confirmation = true
awaits _ = false

-- `is_pending`
abbrev pub is_pending : PendingTransaction → Bool
is_pending tx = awaits tx.status

-- `time_remaining`, in microseconds
unfoldable pub time_remaining : ℕ → PendingTransaction → ℕ
time_remaining now tx = tx.expires_at - now

abbrev pub is_fully_confirmed : PendingTransaction → Bool
is_fully_confirmed tx = leb tx.required_confirmations tx.confirmation_count

-- `target_price * 10`, which is exact up to the 28 digits of Python's Decimal context.
abbrev pub ten_times : Decimal → Decimal
ten_times d = record d { coefficient = d.coefficient * 10 }

-- Whether the price is valid, and the warnings.
unfoldable pub validate_price : PendingTransaction → Bool × List Warning
validate_price tx =
    let price = tx.price_commitment.amount in
    let low = ltb_decimal price tx.floor_price in
    (
      not low,
      (if low then under_floor ∷ [] else [])
          ++ ((if ltb_decimal price tx.target_price then under_target ∷ [] else [])
              ++ (if ltb_decimal (ten_times tx.target_price) price
                  then far_above_target ∷ []
                  else [])),
    )

pub data Action : Type 0 where
  created confirmed partial_confirm cancelled expired callback_error : Action

-- What an entry of the audit log adds to the transaction's data.
pub data Extra : Type 0 where
  nothing : Extra
  terms : ℕ → List Warning → Extra
  remaining : ℕ → Extra
  reason : CancellationReason → Extra
  error : Text → Extra

pub record Entry : Type 0 where
  pub timestamp : ℕ
  pub action : Action
  pub transaction_id : ℕ
  pub buyer_id : Text
  pub seller_id : Text
  pub price : PriceCommitment
  pub status : TransactionStatus
  pub extra : Extra

-- A callback either returns or raises, which is caught: `some` is the exception's text.
abbrev pub Callback : Type 0
Callback = Option (PendingTransaction → Option Text)

pub record Manager : Type 0 where
  pub min_timeout : ℕ
  pub default_timeout : ℕ
  pub on_expired : Callback
  pub on_confirmed : Callback
  pub require_double_confirmation : Bool
  pub pending_transactions : Dict ℕ PendingTransaction
  pub completed_transactions : Dict ℕ PendingTransaction
  pub audit_log : List Entry

abbrev pub default_timeout_seconds : ℕ
default_timeout_seconds = 300

abbrev pub max_timeout_seconds : ℕ
max_timeout_seconds = 3600

abbrev pub min_timeout_seconds : ℕ
min_timeout_seconds = 30

-- `min(max(timeout, min_timeout), MAX_TIMEOUT_SECONDS)`; the minimum is not negative.
unfoldable pub clamp : ℕ → ℤ → ℕ
clamp min_timeout timeout = min (max (pos_part timeout) min_timeout) max_timeout_seconds

abbrev pub get_or_default {ℓ} : {A : Type ℓ} → Option A → A → A
get_or_default none d = d
get_or_default (some a) d = a

-- `TransactionConfirmation(...)`
unfoldable pub new : ℤ → Callback → Callback → Bool → Option ℕ → Manager
unfolding clamp
new default_timeout on_expired on_confirmed double min_timeout = record {
  min_timeout = get_or_default min_timeout min_timeout_seconds;
  default_timeout = clamp (get_or_default min_timeout min_timeout_seconds) default_timeout;
  on_expired = on_expired;
  on_confirmed = on_confirmed;
  require_double_confirmation = double;
  pending_transactions = [];
  completed_transactions = [];
  audit_log = [];
}

-- `_log_action`; the log grows at its end.
unfoldable pub log_action : ℕ → Action → PendingTransaction → Extra → Manager → Manager
log_action now action tx extra m =
    let entry : Entry = record {
      timestamp = now;
      action = action;
      transaction_id = tx.transaction_id;
      buyer_id = tx.buyer_id;
      seller_id = tx.seller_id;
      price = tx.price_commitment;
      status = tx.status;
      extra = extra;
    } in
    record m { audit_log = m.audit_log ++ entry ∷ [] }

-- `try: callback(tx) except Exception as e: self._log_action("callback_error", ...)`
unfoldable pub call : Callback → ℕ → PendingTransaction → Manager → Manager
unfolding log_action
call none now tx m = m
call (some f) now tx m = elim (f tx) [
  | none ↦ m
  | some text ↦ log_action now callback_error tx (error text) m
]

-- `timeout_seconds or self.default_timeout`, clamped
unfoldable pub choose_timeout : Option ℤ → Manager → ℕ
unfolding clamp
choose_timeout none m = clamp m.min_timeout (pos m.default_timeout)
choose_timeout (some (pos t)) m =
    if t == 0 then clamp m.min_timeout (pos m.default_timeout) else clamp m.min_timeout (pos t)
choose_timeout (some (negsuc t)) m = clamp m.min_timeout (negsuc t)

-- A floor or target price: what starts like a number is read, and else the default stands.
unfoldable pub read_bound : Text → Decimal → Result Decimal
unfolding to_decimal
read_bound price d = elim (numeric_prefix price) [
  | [] ↦ ok d
  | c ∷ number ↦ or_raise (to_decimal (c ∷ number)) invalid_operation
]

-- What the caller of `create_pending_transaction` says.
pub record Offer : Type 0 where
  pub buyer_id : Text
  pub seller_id : Text
  pub repo_url : Text
  pub license_model : Text
  pub agreed_price : Text
  pub floor_price : Text
  pub target_price : Text
  pub timeout_seconds : Option ℤ

unfoldable pub new_pending :
    ℕ → ℕ → Offer → PriceCommitment → Decimal → Decimal → Manager → PendingTransaction
unfolding validate_price choose_timeout
new_pending id now offer commitment floor_value target_value m =
    let tx : PendingTransaction = record {
      transaction_id = id;
      buyer_id = offer.buyer_id;
      seller_id = offer.seller_id;
      repo_url = offer.repo_url;
      license_model = offer.license_model;
      price_commitment = commitment;
      floor_price = floor_value;
      target_price = target_value;
      created_at = now;
      expires_at = now + choose_timeout offer.timeout_seconds m * 10 ^ 6;
      status = pending_confirmation;
      confirmation_count = 0;
      required_confirmations = if m.require_double_confirmation then 2 else 1;
      cancellation_reason = none;
      price_warnings = [];
    } in
    record tx { price_warnings = (validate_price tx).1 }

-- The floor protects the seller.
unfoldable pub accept_offer :
    ℕ → ℕ → Offer → PriceCommitment → Decimal → Decimal → Manager → Result PendingTransaction
unfolding new_pending
accept_offer id now offer commitment floor_value target_value m =
    if ltb_decimal commitment.amount floor_value
    then err below_floor
    else ok (new_pending id now offer commitment floor_value target_value m)

-- The transaction that an offer makes, or the error that it raises. `id` and `digest` are the
-- Keccak digests that the source draws.
unfoldable pub open_offer : ℕ → Text → ℕ → Offer → Manager → Result PendingTransaction
unfolding create read_bound accept_offer
open_offer id digest now offer m = do
  commitment ← create digest now offer.agreed_price
  floor_value ← read_bound offer.floor_price zero_price
  target_value ← read_bound offer.target_price commitment.amount
  accept_offer id now offer commitment floor_value target_value m

unfoldable pub create_pending_transaction :
    ℕ → Text → ℕ → Offer → Manager → Manager × Result PendingTransaction
unfolding open_offer log_action
create_pending_transaction id digest now offer m = elim (open_offer id digest now offer m) [
  | err e ↦ (m, err e)
  | ok tx ↦ (
    log_action now Action.created tx
        (terms (choose_timeout offer.timeout_seconds m) tx.price_warnings)
        (record m { pending_transactions = insert id tx m.pending_transactions }),
    ok tx,
  )
]
