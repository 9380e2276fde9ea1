-- ===== src/Rollup/Sequencer.antt =====
-- The sequencer of src/rra/l3/sequencer.py. Times are in microseconds, and the clock readings of one
-- call are taken to be one instant; ids that the source draws are arguments. A callback is recorded
-- as a notice.
use rra_module.Prelude.{
  ℕ, ◌+◌, ◌*◌, ◌^◌, ◌≡◌, Bool, true, false, not, Option, none, some, List, [], ◌∷◌, Text, ltb,
  if◌then◌else◌, ◌==◌, number_key, text_key, length,
}
use rra_module.Prelude.Int.{ℤ, pos, negsuc, ltb_ℤ, eqb_ℤ}
use rra_module.Prelude.Dict.{Dict, lookup}
use rra_module.Rollup.Bytes.{Bytes, to_bytes, zeros}
use rra_module.Rollup.Batch.{BatchProcessor}
use rra_module.Rollup.Processing.{BatchResult}

pub data TransactionType : Type 0 where
  dispute_submit dispute_resolve evidence_submit vote_cast stake_deposit stake_withdraw
        batch_commit :
      TransactionType

-- `syncing` and `error` are never set.
pub data SequencerStatus : Type 0 where
  starting running syncing paused stopped error : SequencerStatus

pub data TransactionError : Type 0 where
  nonce_too_low invalid_payload_length unknown_transaction_type : TransactionError

-- `signature` is never set.
pub record Transaction : Type 0 where
  pub tx_id : Text
  pub tx_type : TransactionType
  pub sender : Text
  pub payload : Bytes
  pub timestamp : ℕ
  pub priority : ℤ
  pub gas_price : ℤ
  pub nonce : ℤ
  pub processed : Bool
  pub result : Option Bytes
  pub error : Option TransactionError

-- `Transaction.__lt__`
unfoldable pub precedes : Transaction → Transaction → Bool
precedes t u =
    if not (eqb_ℤ t.priority u.priority)
    then ltb_ℤ u.priority t.priority
    else if not (eqb_ℤ t.gas_price u.gas_price)
    then ltb_ℤ u.gas_price t.gas_price
    else ltb t.timestamp u.timestamp

-- The sum of a weight over a list: two lists with the same sum for every weight hold the same
-- transactions, each as often.
abbrev pub weigh : (Transaction → ℕ) → List Transaction → ℕ
weigh f [] = 0
weigh f (t ∷ ts) = f t + weigh f ts

-- What Python documents of the module heapq, on lists that `IsHeap` calls heaps: a push adds one
-- element, and a pop takes out one that no other precedes.
pub record HeapQueue : Type 1 where
  pub heappush : Transaction → List Transaction → List Transaction
  pub heappop : List Transaction → Option (Transaction × List Transaction)
  pub IsHeap : List Transaction → Type 0
  pub nil-IsHeap : IsHeap []
  pub heappush-IsHeap : (t : Transaction) (q : List Transaction) → IsHeap q → IsHeap (heappush t q)
  pub heappop-IsHeap :
      (t : Transaction) (q r : List Transaction) → IsHeap q → heappop q ≡ some (t, r) → IsHeap r
  pub heappush-weigh :
      (f : Transaction → ℕ) (t : Transaction) (q : List Transaction)
      → weigh f (heappush t q) ≡ f t + weigh f q
  pub heappop-weigh :
      (f : Transaction → ℕ) (t : Transaction) (q r : List Transaction)
      → heappop q ≡ some (t, r)
      → weigh f q ≡ f t + weigh f r
  pub heappop-none : (q : List Transaction) → heappop q ≡ none → q ≡ []
  pub heappop-least :
      (t : Transaction) (q r : List Transaction)
      → IsHeap q
      → heappop q ≡ some (t, r)
      → weigh (λ u. if precedes u t then 1 else 0) r ≡ 0

pub record StateTransition : Type 0 where
  pub transition_id : ℕ
  pub prev_state_root : Bytes
  pub new_state_root : Bytes
  pub transactions : List Text
  pub timestamp : ℕ
  pub sequencer : Text

-- The fields that are read.
pub record SequencerConfig : Type 0 where
  pub sequencer_id : Text
  pub max_transactions_per_block : ℕ
  pub max_pending_transactions : ℕ
  pub batch_commit_interval : ℕ
  pub max_gas_per_block : ℕ

pub data Notice : Type 0 where
  block_produced : StateTransition → Notice
  batch_committed : BatchResult → Notice

pub record DisputeSequencer : Type 0 where
  pub config : SequencerConfig
  pub batch_processor : BatchProcessor
  pub status : SequencerStatus
  pub current_state_root : Bytes
  pub current_block : ℕ
  pub next_transition_id : ℕ
  pub pending_transactions : List Transaction
  pub processed_transactions : Dict Text Transaction
  pub sender_nonces : Dict Text ℤ
  pub transitions : Dict ℕ StateTransition
  pub state_roots : List Bytes
  pub blocks_since_commit : ℕ
  pub total_transactions : ℕ
  pub total_blocks : ℕ
  pub start_time : Option ℕ
  pub on_block_produced : Bool
  pub on_batch_committed : Bool
  pub notices : List Notice

-- `DisputeSequencer(config, batch_processor)`, where `drawn` is the id drawn for a missing one.
unfoldable pub new : SequencerConfig → BatchProcessor → Text → DisputeSequencer
unfolding zeros
new config processor drawn = record {
  config = if config.sequencer_id == [] then record config { sequencer_id = drawn } else config;
  batch_processor = processor;
  status = starting;
  current_state_root = zeros 32;
  current_block = 0;
  next_transition_id = 1;
  pending_transactions = [];
  processed_transactions = [];
  sender_nonces = [];
  transitions = [];
  state_roots = zeros 32 ∷ [];
  blocks_since_commit = 0;
  total_transactions = 0;
  total_blocks = 0;
  start_time = none;
  on_block_produced = false;
  on_batch_committed = false;
  notices = [];
}

unfoldable pub start : ℕ → DisputeSequencer → DisputeSequencer
start now s = record s { status = running; start_time = some now }

unfoldable pub stop : DisputeSequencer → DisputeSequencer
stop s = record s { status = stopped }

unfoldable pub pause : DisputeSequencer → DisputeSequencer
pause s = record s { status = paused }

-- The callbacks are taken to return; a call of one is a notice.
unfoldable pub set_on_block_produced : DisputeSequencer → DisputeSequencer
set_on_block_produced s = record s { on_block_produced = true }

unfoldable pub set_on_batch_committed : DisputeSequencer → DisputeSequencer
set_on_batch_committed s = record s { on_batch_committed = true }

abbrev pub is_paused : SequencerStatus → Bool
is_paused paused = true
is_paused _ = false

abbrev pub is_running : SequencerStatus → Bool
is_running running = true
is_running _ = false

unfoldable pub resume : DisputeSequencer → DisputeSequencer
resume s = if is_paused s.status then record s { status = running } else s

-- `self._sender_nonces.get(sender, 0)`
abbrev pub nonce_of : Text → DisputeSequencer → ℤ
nonce_of sender s = elim (lookup sender s.sender_nonces) [ none ↦ pos 0 | some n ↦ n ]

unfoldable pub estimate_gas : Transaction → ℕ
estimate_gas tx = elim tx.tx_type [
  | dispute_submit ↦ 21000 + 50000
  | dispute_resolve ↦ 21000 + 30000
  | evidence_submit ↦ 21000 + 20000 + length tx.payload * 16
  | _ ↦ 21000 + 10000
]

-- The result of `to_bytes(32, "big")`: a number that does not fit raises an OverflowError.
abbrev pub to_bytes_checked : ℤ → Option Bytes
to_bytes_checked (negsuc n) = none
to_bytes_checked (pos n) = if ltb n (256 ^ 32) then some (to_bytes 32 n) else none

-- What `submit_dispute` and `submit_resolution` do.
pub data Submission : Type 0 where
  overflow_error : Submission
  rejected : Submission
  accepted : Text → Submission

abbrev pub put_error : TransactionError → Transaction → Transaction
put_error e tx = record tx { error = some e }

abbrev pub plain : Text → TransactionType → Text → Bytes → ℕ → ℤ → ℤ → Transaction
plain id kind sender payload now priority nonce = record {
  tx_id = id;
  tx_type = kind;
  sender = sender;
  payload = payload;
  timestamp = now;
  priority = priority;
  gas_price = pos 0;
  nonce = nonce;
  processed = false;
  result = none;
  error = none;
}
