-- ===== src/Rollup/Block.antt =====
-- Submission and block production of src/rra/l3/sequencer.py, over the heap of Python's heapq, the
-- Keccak function of eth_utils and the text of a time.
use rra_module.Prelude.{
  ℕ, zero, suc, ◌+◌, Bool, true, false, not, ◌&&◌, Option, none, some, List, [], ◌∷◌, ◌++◌, Text,
  ltb, leb, if◌then◌else◌, number_key, text_key, length, take, drop, same_number,
}
use rra_module.Prelude.Int.{ℤ, pos, ◌+ℤ◌, ltb_ℤ}
use rra_module.Prelude.Dict.{insert}
use rra_module.Rollup.Bytes.{Bytes, to_bytes, from_bytes}
use rra_module.Rollup.Batch.{BatchProcessor}
use rra_module.Rollup.Processing.{Filing, add_dispute, create_and_process_batch}
use rra_module.Rollup.Sequencer.{
  dispute_submit, dispute_resolve, evidence_submit, vote_cast, nonce_too_low,
  invalid_payload_length, unknown_transaction_type, Transaction, HeapQueue, StateTransition,
  SequencerConfig, block_produced, batch_committed, DisputeSequencer, is_running, nonce_of,
  estimate_gas, to_bytes_checked, Submission, overflow_error, rejected, accepted, put_error, plain,
}

-- The slices of a payload of `dispute_submit`.
unfoldable pub read_filing : Bytes → Filing
unfolding from_bytes
read_filing payload = record {
  initiator_hash = take 32 payload;
  counterparty_hash = take 32 (drop 32 payload);
  evidence_root = take 32 (drop 64 payload);
  stake_amount = from_bytes (take 32 (drop 96 payload));
}

abbrev pub has_room : SequencerConfig → ℕ → ℕ → Bool
has_room config count gas =
    ltb count config.max_transactions_per_block && ltb gas config.max_gas_per_block

module _ (heap : HeapQueue) where
  open heap use {heappush, heappop}

  -- The transaction as the call leaves it, and whether it was accepted.
  unfoldable pub submit_transaction :
      Transaction → DisputeSequencer → DisputeSequencer × Transaction × Bool
  submit_transaction tx s =
      if not (is_running s.status)
      then (s, tx, false)
      else if leb s.config.max_pending_transactions (length s.pending_transactions)
      then (s, tx, false)
      else if ltb_ℤ tx.nonce (nonce_of tx.sender s)
      then (s, put_error nonce_too_low tx, false)
      else (record s { pending_transactions = heappush tx s.pending_transactions }, tx, true)

  unfoldable pub submit : Transaction → DisputeSequencer → DisputeSequencer × Submission
  unfolding submit_transaction
  submit tx s =
      let (s', tx', ok) = submit_transaction tx s in
      (s', if ok then accepted tx.tx_id else rejected)

  -- `id` is the token drawn for the transaction.
  unfoldable pub submit_dispute :
      Text → ℕ → Text → Bytes → Bytes → Bytes → ℤ → DisputeSequencer → DisputeSequencer × Submission
  unfolding submit
  submit_dispute id now sender initiator counterparty evidence stake s =
      elim (to_bytes_checked stake) [
        | none ↦ (s, overflow_error)
        | some amount ↦
            submit
              (plain id dispute_submit sender (initiator ++ (counterparty ++ (evidence ++ amount)))
                now (pos 0) (nonce_of sender s))
              s
      ]

  unfoldable pub submit_resolution :
      Text → ℕ → Text → ℤ → Bytes → DisputeSequencer → DisputeSequencer × Submission
  unfolding submit
  submit_resolution id now sender dispute_id resolution s = elim (to_bytes_checked dispute_id) [
    | none ↦ (s, overflow_error)
    | some number ↦
        submit
          (plain id dispute_resolve sender (number ++ resolution) now (pos 10) (nonce_of sender s))
          s
  ]

  -- The loop of `produce_block`, on fuel; each round takes one transaction out of the heap.
  unfoldable pub collect :
      SequencerConfig → ℕ → ℕ → ℕ → List Transaction → List Transaction × List Transaction
  unfolding estimate_gas
  collect config zero count gas q = ([], q)
  collect config (suc fuel) count gas q =
      if has_room config count gas
      then elim (heappop q) [
        | none ↦ ([], q)
        | some (tx, rest) ↦
            if ltb config.max_gas_per_block (gas + estimate_gas tx)
            then ([], heappush tx rest)
            else let (block, left) = collect config fuel (count + 1) (gas + estimate_gas tx) rest in
              (tx ∷ block, left)
      ]
      else ([], q)

abbrev pub result_of : Transaction → Bytes
result_of tx = elim tx.result [ none ↦ [] | some r ↦ r ]

module _ (keccak : Bytes → Bytes) where
  -- `_process_transaction` with the handlers of the types, none of which raises.
  unfoldable pub process_transaction :
      ℕ → Transaction → BatchProcessor → BatchProcessor × Transaction
  unfolding add_dispute read_filing
  process_transaction now tx p = elim tx.tx_type [
    | dispute_submit ↦
        if ltb (length tx.payload) 128
        then (p, record tx { error = some invalid_payload_length; processed = true })
        else let (p', d) = add_dispute keccak now (read_filing tx.payload) p in
          (p', record tx { result = some (to_bytes 32 d.dispute_id); processed = true })
    | dispute_resolve ↦
        if ltb (length tx.payload) 64
        then (p, record tx { error = some invalid_payload_length; processed = true })
        else (p, record tx { result = some (drop 32 tx.payload); processed = true })
    | evidence_submit ↦ (p, record tx { result = some (keccak tx.payload); processed = true })
    | vote_cast ↦ (p, record tx { result = some (1 ∷ []); processed = true })
    | _ ↦ (p, record tx { error = some unknown_transaction_type; processed = true })
  ]

  -- The loop over the transactions of a block, which also gives them as they are after it.
  unfoldable pub process_block :
      ℕ → List Transaction → DisputeSequencer → DisputeSequencer × List Transaction
  unfolding process_transaction ◌+ℤ◌
  process_block now [] s = (s, [])
  process_block now (tx ∷ txs) s =
      let (p, done) = process_transaction now tx s.batch_processor in
      let (s', rest) = process_block now txs (record s {
        batch_processor = p;
        processed_transactions = insert tx.tx_id done s.processed_transactions;
        total_transactions = s.total_transactions + 1;
        sender_nonces = insert tx.sender (tx.nonce +ℤ pos 1) s.sender_nonces;
      }) in
      (s', done ∷ rest)

  unfoldable pub commit_batch : ℕ → DisputeSequencer → DisputeSequencer
  unfolding create_and_process_batch
  commit_batch now s =
      let (p, result) = create_and_process_batch keccak now s.batch_processor in
      elim result [
        | none ↦ record s { batch_processor = p }
        | some r ↦ if not r.success then record s { batch_processor = p } else record s {
          batch_processor = p;
          blocks_since_commit = 0;
          notices = if s.on_batch_committed then s.notices ++ batch_committed r ∷ [] else s.notices;
        }
      ]

abbrev pub ids_of : List Transaction → List Text
ids_of [] = []
ids_of (tx ∷ txs) = tx.tx_id ∷ ids_of txs

module _ (keccak : Bytes → Bytes) (isoformat : ℕ → Bytes) where
  -- `_compute_new_state_root`
  unfoldable pub compute_new_state_root : Bytes → List Transaction → Bytes
  compute_new_state_root root [] = root
  compute_new_state_root root (tx ∷ txs) =
      compute_new_state_root
        (keccak (root ++ keccak ((tx.tx_id ++ result_of tx) ++ isoformat tx.timestamp))) txs

  -- What `produce_block` does with the transactions of the block once they are processed.
  unfoldable pub append_block :
      ℕ → List Transaction → DisputeSequencer → DisputeSequencer × StateTransition
  unfolding compute_new_state_root
  append_block now txs s =
      let root = compute_new_state_root s.current_state_root txs in
      let transition : StateTransition = record {
        transition_id = s.next_transition_id;
        prev_state_root = s.current_state_root;
        new_state_root = root;
        transactions = ids_of txs;
        timestamp = now;
        sequencer = s.config.sequencer_id;
      } in
      (
        record s {
          next_transition_id = s.next_transition_id + 1;
          current_state_root = root;
          state_roots = s.state_roots ++ root ∷ [];
          transitions = insert s.next_transition_id transition s.transitions;
          current_block = s.current_block + 1;
          total_blocks = s.total_blocks + 1;
          blocks_since_commit = s.blocks_since_commit + 1;
        },
        transition,
      )

  unfoldable pub settle : ℕ → DisputeSequencer → DisputeSequencer
  unfolding commit_batch
  settle now s =
      if leb s.config.batch_commit_interval s.blocks_since_commit
      then commit_batch keccak now s
      else s

  -- The part of `produce_block` between the selection and the commitment: the block is processed
  -- and appended.
  unfoldable pub run_block :
      ℕ
      → List Transaction
      → List Transaction
      → DisputeSequencer
      → DisputeSequencer × StateTransition
  unfolding process_block append_block
  run_block now block left s =
      let (processed, done) =
        process_block keccak now block (record s { pending_transactions = left }) in
      append_block now done processed

  unfoldable pub announce : StateTransition → DisputeSequencer → DisputeSequencer
  announce t s =
      if s.on_block_produced then record s { notices = s.notices ++ block_produced t ∷ [] } else s

  -- `produce_block` once the transactions are taken from the heap.
  unfoldable pub finish :
      ℕ
      → DisputeSequencer
      → List Transaction
      → List Transaction
      → DisputeSequencer × Option StateTransition
  finish now s [] left = (record s { pending_transactions = left }, none)
  finish now s (tx ∷ txs) left =
      let (appended, transition) = run_block now (tx ∷ txs) left s in
      (announce transition (settle now appended), some transition)

  -- `produce_block`; the heap's length is fuel enough for the loop.
  unfoldable pub produce_block :
      HeapQueue → ℕ → DisputeSequencer → DisputeSequencer × Option StateTransition
  produce_block heap now s =
      if not (is_running s.status)
      then (s, none)
      else if same_number (length s.pending_transactions) 0
      then (s, none)
      else let taken =
          collect heap s.config (length s.pending_transactions) 0 0 s.pending_transactions in
        finish now s taken.0 taken.1
