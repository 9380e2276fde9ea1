-- ===== src/Rollup/Batch.antt =====
-- The batch processor of src/rra/l3/batch_processor.py. Times are in microseconds; the clock
-- readings of one call are taken to be one instant, and the intervals of the configuration, which
-- the source holds as floats, to be whole microseconds.
use rra_module.Prelude.{
  ℕ, ◌+◌, Option, none, some, List, [], ◌∷◌, ◌++◌, Text, if◌then◌else◌, number_key, length, take,
  drop, min, same_number,
}
use rra_module.Prelude.Dict.{Dict, insert}
use rra_module.Rollup.Bytes.{Bytes, zeros}

pub data BatchStatus : Type 0 where
  pending full processing committed challenged finalized rejected : BatchStatus

-- `resolution` and `resolved_at` are never set.
pub record ProcessedDispute : Type 0 where
  pub dispute_id : ℕ
  pub initiator_hash : Bytes
  pub counterparty_hash : Bytes
  pub evidence_root : Bytes
  pub stake_amount : ℕ
  pub created_at : ℕ
  pub data_hash : Bytes

-- `submitter` and `l2_tx_hash` are never set.
pub record Batch : Type 0 where
  pub batch_id : ℕ
  pub disputes : List ProcessedDispute
  pub state_root : Bytes
  pub dispute_root : Bytes
  pub prev_state_root : Bytes
  pub status : BatchStatus
  pub created_at : ℕ
  pub submitted_at : Option ℕ
  pub finalized_at : Option ℕ

abbrev sum_stakes : List ProcessedDispute → ℕ
sum_stakes [] = 0
sum_stakes (d ∷ ds) = d.stake_amount + sum_stakes ds

-- `Batch.total_stake`
unfoldable pub total_stake : Batch → ℕ
total_stake b = sum_stakes b.disputes

-- `max_pending_batches`, `compression_enabled` and `parallel_processing` are never read.
pub record BatchConfig : Type 0 where
  pub min_batch_size : ℕ
  pub max_batch_size : ℕ
  pub batch_interval : ℕ
  pub challenge_period : ℕ

-- `some` is the text of the exception that the callback raises.
abbrev pub Callback : Type 0
Callback = Option (Batch → Option Text)

-- The callback `on_batch_ready` is set and never called.
pub record BatchProcessor : Type 0 where
  pub config : BatchConfig
  pub next_batch_id : ℕ
  pub next_dispute_id : ℕ
  pub current_state_root : Bytes
  pub pending_disputes : List ProcessedDispute
  pub batches : Dict ℕ Batch
  pub pending_batches : List ℕ
  pub committed_batches : List ℕ
  pub finalized_batches : List ℕ
  pub total_disputes_processed : ℕ
  pub total_batches_processed : ℕ
  pub last_batch_time : ℕ
  pub on_batch_committed : Callback

-- `BatchProcessor(config)`
unfoldable pub new : BatchConfig → ℕ → BatchProcessor
unfolding zeros
new config now = record {
  config = config;
  next_batch_id = 1;
  next_dispute_id = 1;
  current_state_root = zeros 32;
  pending_disputes = [];
  batches = [];
  pending_batches = [];
  committed_batches = [];
  finalized_batches = [];
  total_disputes_processed = 0;
  total_batches_processed = 0;
  last_batch_time = now;
  on_batch_committed = none;
}

abbrev pub new_batch : ℕ → ℕ → BatchProcessor → Batch
new_batch now size p = record {
  batch_id = p.next_batch_id;
  disputes = take size p.pending_disputes;
  state_root = [];
  dispute_root = [];
  prev_state_root = p.current_state_root;
  status = full;
  created_at = now;
  submitted_at = none;
  finalized_at = none;
}

-- `_create_batch`; a deque gives its first elements.
unfoldable pub create_batch : ℕ → BatchProcessor → BatchProcessor × Option Batch
create_batch now p =
    if same_number (length p.pending_disputes) 0
    then (p, none)
    else let size = min (length p.pending_disputes) p.config.max_batch_size in
      let batch = new_batch now size p in
      (
        record p {
          pending_disputes = drop size p.pending_disputes;
          next_batch_id = p.next_batch_id + 1;
          batches = insert p.next_batch_id batch p.batches;
          pending_batches = p.pending_batches ++ p.next_batch_id ∷ [];
          last_batch_time = now;
        },
        some batch,
      )
