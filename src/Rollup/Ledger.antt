-- ===== src/Rollup/Ledger.antt =====
-- The invariant of the sequencer of sequencer.py with its batch processor, over any calls.
use rra_module.Prelude.{
  ℕ, ◌≤◌, ◌<◌, ◌≡◌, refl, sym, ap, subst, inl, inr, Option, some, List, [], ◌∷◌, arith, Text, leb,
  length, Option-cases, Bool-cases, number_key, text_key,
}
use rra_module.Prelude.Int.{ℤ, ltb_ℤ}
use rra_module.Rollup.Bytes.{Bytes}
use rra_module.Rollup.Batch.{BatchProcessor, BatchConfig}
use rra_module.Rollup.Batch
use rra_module.Rollup.Calls
use rra_module.Rollup.Calls.{run-Conserves, apply-Conserves, create_and_process_batch-Conserves}
use rra_module.Rollup.Conservation.{Conserves}
use rra_module.Rollup.Sequencer.{
  SequencerStatus, Transaction, HeapQueue, SequencerConfig, StateTransition, DisputeSequencer, new,
  start, stop, pause, resume, set_on_block_produced, set_on_batch_committed, is_paused, is_running,
  nonce_of, to_bytes_checked,
}
use rra_module.Rollup.Block.{
  submit_transaction, submit, submit_dispute, submit_resolution, produce_block,
}
use rra_module.Rollup.Selection.{length-weigh}
use rra_module.Rollup.Production.{View, view, Produces, produce_block-Produces}
use rra_module.Rollup.Progress.{produce_block-none}
use rra_module.Rollup.Custody.{produce_block-Conserves}
use rra_module.Rollup.History.{IsHistory, extend-IsHistory, restate-IsHistory}

-- The calls that change the sequencer or its batch processor, with what they draw.
pub data Request : Type 0 where
  start_at : ℕ → Request
  stop_it pause_it resume_it hear_blocks hear_batches : Request
  send : Transaction → Request
  file_dispute : Text → ℕ → Text → Bytes → Bytes → Bytes → ℤ → Request
  file_resolution : Text → ℕ → Text → ℤ → Bytes → Request
  produce : ℕ → Request
  on_processor : Calls.Request → Request

module _ (keccak : Bytes → Bytes) (isoformat : ℕ → Bytes) where
  module _ (heap : HeapQueue) where
    open heap use {heappush, IsHeap, heappush-IsHeap, heappush-weigh, nil-IsHeap}

    unfoldable pub apply : Request → DisputeSequencer → DisputeSequencer
    apply (start_at now) s = start now s
    apply stop_it s = stop s
    apply pause_it s = pause s
    apply resume_it s = resume s
    apply hear_blocks s = set_on_block_produced s
    apply hear_batches s = set_on_batch_committed s
    apply (send tx) s = (submit_transaction heap tx s).0
    apply (file_dispute id now sender initiator counterparty evidence stake) s =
        (submit_dispute heap id now sender initiator counterparty evidence stake s).0
    apply (file_resolution id now sender dispute resolution) s =
        (submit_resolution heap id now sender dispute resolution s).0
    apply (produce now) s = (produce_block keccak isoformat heap now s).0
    apply (on_processor r) s = record s { batch_processor = Calls.apply keccak r s.batch_processor }

    unfoldable pub run : List Request → DisputeSequencer → DisputeSequencer
    unfolding apply
    run [] s = s
    run (r ∷ rs) s = run rs (apply r s)

    -- The history has no gap, the pending transactions are a heap of at most as many as the
    -- configuration allows, and the batch processor keeps every dispute.
    pub record IsConsistent (s : DisputeSequencer) : Type 0 where
      pub history : IsHistory (view s)
      pub arranged : IsHeap s.pending_transactions
      pub bounded : length s.pending_transactions ≤ s.config.max_pending_transactions
      pub processor : Conserves s.batch_processor

    submit_transaction-IsConsistent :
        (tx : Transaction) (s : DisputeSequencer)
        → IsConsistent s
        → IsConsistent (submit_transaction heap tx s).0
    unfolding submit_transaction
    submit_transaction-IsConsistent tx s c = elim (Bool-cases (is_running s.status)) [
      | inr off ↦ rw (off, submit_transaction) c
      | inl active ↦
          elim (Bool-cases
            (leb s.config.max_pending_transactions (length s.pending_transactions))) [
              | inl packed ↦ rw (active, packed, submit_transaction) c
              | inr room ↦ elim (Bool-cases (ltb_ℤ tx.nonce (nonce_of tx.sender s))) [
                | inl old ↦ rw (active, room, old, submit_transaction) c
                | inr fresh ↦
                    rw (active, room, fresh, submit_transaction)
                      (let more = heappush-weigh (λ t. 1) tx s.pending_transactions in
                        let room' : length s.pending_transactions
                            < s.config.max_pending_transactions =
                          ground (arith, room) in
                        record {
                          history =
                              restate-IsHistory (view s) s.status
                                (heappush tx s.pending_transactions) c.history;
                          arranged = heappush-IsHeap tx s.pending_transactions c.arranged;
                          bounded = omega (
                            arith,
                            more,
                            room',
                            length-weigh s.pending_transactions,
                            length-weigh (heappush tx s.pending_transactions),
                          );
                          processor = c.processor;
                        })
              ]
            ]
    ]

    submit-IsConsistent :
        (tx : Transaction) (s : DisputeSequencer)
        → IsConsistent s
        → IsConsistent (submit heap tx s).0
    unfolding submit
    submit-IsConsistent tx s c = submit_transaction-IsConsistent tx s c

    submit_dispute-IsConsistent :
        (id : Text) (now : ℕ) (sender : Text) (initiator counterparty evidence : Bytes) (stake : ℤ)
        (s : DisputeSequencer)
        → IsConsistent s
        → IsConsistent (submit_dispute heap id now sender initiator counterparty evidence stake s).0
    unfolding submit_dispute
    submit_dispute-IsConsistent id now sender initiator counterparty evidence stake s c =
        elim (Option-cases (to_bytes_checked stake)) [
          | inl large ↦ rw (large, submit_dispute) c
          | inr (amount, fits) ↦ rw (fits, submit_dispute) (submit-IsConsistent _ s c)
        ]

    submit_resolution-IsConsistent :
        (id : Text) (now : ℕ) (sender : Text) (dispute : ℤ) (resolution : Bytes)
        (s : DisputeSequencer)
        → IsConsistent s
        → IsConsistent (submit_resolution heap id now sender dispute resolution s).0
    unfolding submit_resolution
    submit_resolution-IsConsistent id now sender dispute resolution s c =
        elim (Option-cases (to_bytes_checked dispute)) [
          | inl large ↦ rw (large, submit_resolution) c
          | inr (number, fits) ↦ rw (fits, submit_resolution) (submit-IsConsistent _ s c)
        ]

    resume-IsConsistent : (s : DisputeSequencer) → IsConsistent s → IsConsistent (resume s)
    unfolding resume
    resume-IsConsistent s c = elim (Bool-cases (is_paused s.status)) [
      | inl halted ↦
          rw (halted, resume)
            (record {
              history =
                  restate-IsHistory (view s) SequencerStatus.running s.pending_transactions
                    c.history;
              arranged = c.arranged;
              bounded = c.bounded;
              processor = c.processor;
            })
      | inr other ↦ rw (other, resume) c
    ]

    produced-IsConsistent :
        (s s' : DisputeSequencer) (t : StateTransition)
        → IsConsistent s
        → Produces keccak isoformat heap s s' t
        → Conserves s'.batch_processor
        → IsConsistent s'
    produced-IsConsistent s s' t c p kept =
        let left = s'.pending_transactions in
        let config : s'.config ≡ s.config = ap (λ (v : View). v.config) p.extends in
        let fewer = p.selects.parts (λ u. 1) in
        record {
          history = subst IsHistory (sym p.extends) (
              extend-IsHistory t (record (view s) { pending_transactions = left })
                (restate-IsHistory (view s) s.status left c.history) p.links p.numbered);
          arranged = p.selects.left_IsHeap;
          bounded =
              subst (λ (k : SequencerConfig). length left ≤ k.max_pending_transactions) (sym config)
                (omega (
                  arith,
                  fewer,
                  c.bounded,
                  length-weigh s.pending_transactions,
                  length-weigh left,
                ));
          processor = kept;
        }

    produce_block-IsConsistent :
        (now : ℕ) (s : DisputeSequencer)
        → IsConsistent s
        → IsConsistent (produce_block keccak isoformat heap now s).0
    produce_block-IsConsistent now s c =
        let kept = produce_block-Conserves keccak isoformat heap now s c.processor in
        let s' = (produce_block keccak isoformat heap now s).0 in
        elim (Option-cases (produce_block keccak isoformat heap now s).1) [
          | inr (t, made) ↦
              produced-IsConsistent s s' t c
                (produce_block-Produces keccak isoformat heap now s c.arranged made) kept
          | inl nothing ↦
              let (same, arranged, parts) =
                produce_block-none keccak isoformat heap now s c.arranged nothing in
              let left = s'.pending_transactions in
              subst IsConsistent (sym same) (record {
                history = restate-IsHistory (view s) s.status left c.history;
                arranged = arranged;
                bounded = omega (
                  arith,
                  parts (λ u. 1),
                  c.bounded,
                  length-weigh s.pending_transactions,
                  length-weigh left,
                );
                processor = c.processor;
              })
        ]

    restated-IsConsistent :
        (st : SequencerStatus) (at : Option ℕ) (s : DisputeSequencer)
        → IsConsistent s
        → IsConsistent (record s { status = st; start_time = at })
    restated-IsConsistent st at s c = record {
      history = restate-IsHistory (view s) st s.pending_transactions c.history;
      arranged = c.arranged;
      bounded = c.bounded;
      processor = c.processor;
    }

    apply-IsConsistent :
        (r : Request) (s : DisputeSequencer) → IsConsistent s → IsConsistent (apply r s)
    unfolding apply start stop pause set_on_block_produced set_on_batch_committed
    apply-IsConsistent (start_at now) s c =
        restated-IsConsistent SequencerStatus.running (some now) s c
    apply-IsConsistent stop_it s c = restated-IsConsistent SequencerStatus.stopped s.start_time s c
    apply-IsConsistent pause_it s c = restated-IsConsistent SequencerStatus.paused s.start_time s c
    apply-IsConsistent resume_it s c = resume-IsConsistent s c
    apply-IsConsistent hear_blocks s c = record {
      history = c.history;
      arranged = c.arranged;
      bounded = c.bounded;
      processor = c.processor;
    }
    apply-IsConsistent hear_batches s c = record {
      history = c.history;
      arranged = c.arranged;
      bounded = c.bounded;
      processor = c.processor;
    }
    apply-IsConsistent (send tx) s c = submit_transaction-IsConsistent tx s c
    apply-IsConsistent (file_dispute id now sender initiator counterparty evidence stake) s c =
        submit_dispute-IsConsistent id now sender initiator counterparty evidence stake s c
    apply-IsConsistent (file_resolution id now sender dispute resolution) s c =
        submit_resolution-IsConsistent id now sender dispute resolution s c
    apply-IsConsistent (produce now) s c = produce_block-IsConsistent now s c
    apply-IsConsistent (on_processor r) s c = record {
      history = c.history;
      arranged = c.arranged;
      bounded = c.bounded;
      processor = apply-Conserves keccak r s.batch_processor c.processor;
    }

    run-IsConsistent_from :
        (rs : List Request) (s : DisputeSequencer) → IsConsistent s → IsConsistent (run rs s)
    unfolding run
    run-IsConsistent_from [] s c = c
    run-IsConsistent_from (r ∷ rs) s c =
        run-IsConsistent_from rs (apply r s) (apply-IsConsistent r s c)

    -- Whatever calls are made on a new sequencer with a new batch processor, on either of them, in
    -- any order and with any arguments: there is one transition for each number so far, the
    -- transition k leads from the state root k - 1 to the state root k of the history, the history
    -- ends at the current state root, the pending transactions are a heap of at most as many as the
    -- configuration allows, and the batch processor keeps every dispute exactly once.
    pub run-IsConsistent :
        (config : SequencerConfig) (batches : BatchConfig) (drawn : Text) (now : ℕ)
        (rs : List Request)
        → IsConsistent (run rs (new config (Batch.new batches now) drawn))
    unfolding new Batch.new Calls.run
    run-IsConsistent config batches drawn now rs =
        run-IsConsistent_from rs (new config (Batch.new batches now) drawn) (record {
          history = record {
            counted = refl;
            height = omega arith;
            current = refl;
            linked = tt;
            complete = λ k low high. absurd (omega arith);
          };
          arranged = nil-IsHeap;
          bounded = omega arith;
          processor = run-Conserves keccak batches now [];
        })
