-- ===== src/Rollup/Processing.antt =====
-- How batch_processor.py takes in disputes and processes batches.
use rra_module.Prelude.{
  ℕ, ◌+◌, ◌*◌, ◌/◌, ◌^◌, Bool, true, false, not, ◌||◌, Option, none, some, List, [], ◌∷◌, ◌++◌, map,
  Text, leb, if◌then◌else◌, ◌==◌, number_key, length, same_number,
}
use rra_module.Prelude.Dict.{lookup, insert}
use rra_module.Rollup.Bytes.{Bytes, to_bytes, zeros}
use rra_module.Rollup.Merkle.{compute_merkle_root}
use rra_module.Rollup.Batch.{
  Batch, BatchProcessor, BatchStatus, Callback, ProcessedDispute, challenged, committed,
  create_batch, full, pending,
}

-- What `add_dispute` is given.
pub record Filing : Type 0 where
  pub initiator_hash : Bytes
  pub counterparty_hash : Bytes
  pub evidence_root : Bytes
  pub stake_amount : ℕ

abbrev pub is_member : ℕ → List ℕ → Bool
is_member i [] = false
is_member i (j ∷ js) = i == j || is_member i js

-- `list.remove` of a value that is in the list, under the test that it is.
abbrev pub remove : ℕ → List ℕ → List ℕ
remove i [] = []
remove i (j ∷ js) = if i == j then js else j ∷ remove i js

pub data ProcessError : Type 0 where
  batch_not_found : ProcessError
  invalid_batch_status : BatchStatus → ProcessError
  callback_raised : Text → ProcessError

-- Without the processing time.
pub record BatchResult : Type 0 where
  pub batch_id : ℕ
  pub success : Bool
  pub state_root : Bytes
  pub dispute_root : Bytes
  pub disputes_processed : ℕ
  pub gas_estimate : ℕ
  pub error : Option ProcessError

abbrev pub failure : ℕ → ProcessError → BatchResult
failure id e = record {
  batch_id = id;
  success = false;
  state_root = zeros 32;
  dispute_root = zeros 32;
  disputes_processed = 0;
  gas_estimate = 0;
  error = some e;
}

abbrev pub can_process : BatchStatus → Bool
can_process pending = true
can_process full = true
can_process _ = false

abbrev pub is_committed : BatchStatus → Bool
is_committed committed = true
is_committed _ = false

abbrev pub is_challenged : BatchStatus → Bool
is_challenged challenged = true
is_challenged _ = false

abbrev pub put_batch : ℕ → Batch → BatchProcessor → BatchProcessor
put_batch id b p = record p { batches = insert id b p.batches }

abbrev pub raised : Callback → Batch → Option Text
raised none b = none
raised (some f) b = f b

module _ (keccak : Bytes → Bytes) where
  -- `ProcessedDispute.__post_init__`, where the data hash is not given.
  unfoldable pub new_dispute : ℕ → Filing → ℕ → ProcessedDispute
  new_dispute id f now = record {
    dispute_id = id;
    initiator_hash = f.initiator_hash;
    counterparty_hash = f.counterparty_hash;
    evidence_root = f.evidence_root;
    stake_amount = f.stake_amount;
    created_at = now;
    data_hash =
        keccak (to_bytes 32 id ++ (f.initiator_hash ++ (f.counterparty_hash ++ f.evidence_root)));
  }

  unfoldable pub add_dispute : ℕ → Filing → BatchProcessor → BatchProcessor × ProcessedDispute
  unfolding create_batch new_dispute
  add_dispute now f p =
      let dispute = new_dispute p.next_dispute_id f now in
      let queued = record p {
        next_dispute_id = p.next_dispute_id + 1;
        pending_disputes = p.pending_disputes ++ dispute ∷ [];
      } in
      (
        if leb p.config.max_batch_size (length queued.pending_disputes)
            then (create_batch now queued).0
            else queued,
        dispute,
      )

  unfoldable pub add_disputes_batch :
      ℕ → List Filing → BatchProcessor → BatchProcessor × List ProcessedDispute
  unfolding add_dispute
  add_disputes_batch now [] p = (p, [])
  add_disputes_batch now (f ∷ fs) p =
      let (p', d) = add_dispute now f p in
      let (p'', ds) = add_disputes_batch now fs p' in (p'', d ∷ ds)

  -- The batch once its roots are computed.
  unfoldable pub commit : ℕ → Batch → Batch
  unfolding compute_merkle_root
  commit now b =
      let root =
        compute_merkle_root keccak (map (λ (d : ProcessedDispute). d.data_hash) b.disputes) in
      record b {
        dispute_root = root;
        state_root = keccak (b.prev_state_root ++ (root ++ to_bytes 8 (now / 10 ^ 6)));
        status = committed;
        submitted_at = some now;
      }

  -- `process_batch`; the callback may raise, and the handler then only resets the status.
  unfoldable pub process_batch : ℕ → ℕ → BatchProcessor → BatchProcessor × BatchResult
  unfolding commit zeros
  process_batch now id p = elim (lookup id p.batches) [
    | none ↦ (p, failure id batch_not_found)
    | some b ↦
        if not (can_process b.status)
        then (p, failure id (invalid_batch_status b.status))
        else let done = commit now b in
          let p' = record p {
            current_state_root = done.state_root;
            batches = insert id done p.batches;
            pending_batches = remove id p.pending_batches;
            committed_batches = p.committed_batches ++ id ∷ [];
            total_disputes_processed = p.total_disputes_processed + length b.disputes;
            total_batches_processed = p.total_batches_processed + 1;
          } in
          elim (raised p.on_batch_committed done) [
            | some text ↦ (
              put_batch id (record done { status = pending }) p',
              failure id (callback_raised text),
            )
            | none ↦ (
              p',
              record {
                batch_id = id;
                success = true;
                state_root = done.state_root;
                dispute_root = done.dispute_root;
                disputes_processed = length b.disputes;
                gas_estimate = 21000 + length b.disputes * 5000;
                error = none;
              },
            )
          ]
  ]

  unfoldable pub process_each : ℕ → List ℕ → BatchProcessor → BatchProcessor × List BatchResult
  unfolding process_batch
  process_each now [] p = (p, [])
  process_each now (id ∷ ids) p =
      let (p', r) = process_batch now id p in
      let (p'', rs) = process_each now ids p' in (p'', r ∷ rs)

  unfoldable pub process_pending_batches : ℕ → BatchProcessor → BatchProcessor × List BatchResult
  unfolding process_each
  process_pending_batches now p = process_each now p.pending_batches p

-- `should_create_batch`; the clock does not go back.
unfoldable pub should_create_batch : ℕ → BatchProcessor → Bool
should_create_batch now p =
    if same_number (length p.pending_disputes) 0
    then false
    else if leb p.config.min_batch_size (length p.pending_disputes)
    then true
    else leb (p.last_batch_time + p.config.batch_interval) now

module _ (keccak : Bytes → Bytes) where
  unfoldable pub process_first : ℕ → BatchProcessor → BatchProcessor × Option BatchResult
  unfolding process_batch
  process_first now p = elim p.pending_batches [
    | [] ↦ (p, none)
    | id ∷ ids ↦ let (p', r) = process_batch keccak now id p in (p', some r)
  ]

  unfoldable pub create_and_process_batch : ℕ → BatchProcessor → BatchProcessor × Option BatchResult
  unfolding process_batch should_create_batch create_batch process_first
  create_and_process_batch now p =
      if should_create_batch now p
      then (let (p', made) = create_batch now p in
          elim made [
            | none ↦ process_first now p'
            | some b ↦ let (p'', r) = process_batch keccak now b.batch_id p' in (p'', some r)
          ])
      else process_first now p
