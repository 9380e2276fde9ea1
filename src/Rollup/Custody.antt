-- ===== src/Rollup/Custody.antt =====
-- The calls that sequencer.py makes of its batch processor keep the disputes where they are.
use rra_module.Prelude.{
  same_number, ℕ, ◌≡◌, refl, sym, subst, inl, inr, List, [], ◌∷◌, arith, leb, ltb, length,
  Option-cases, Bool-cases, number_key, text_key,
}
use rra_module.Rollup.Bytes.{Bytes}
use rra_module.Rollup.Batch.{BatchProcessor}
use rra_module.Rollup.Processing.{create_and_process_batch}
use rra_module.Rollup.Calls.{create_and_process_batch-Conserves}
use rra_module.Rollup.Conservation.{Conserves}
use rra_module.Rollup.Conservation.Steps.{add_dispute-Conserves}
use rra_module.Rollup.Sequencer.{
  TransactionType, Transaction, HeapQueue, StateTransition, DisputeSequencer, is_running,
}
use rra_module.Rollup.Block.{
  process_transaction, process_block, commit_batch, read_filing, run_block, append_block, settle,
  announce, finish, produce_block,
}

module _ (keccak : Bytes → Bytes) where
  process_transaction-Conserves_as :
      (now : ℕ) (tx : Transaction) (p : BatchProcessor) (k : TransactionType)
      → tx.tx_type ≡ k
      → Conserves p
      → Conserves (process_transaction keccak now tx p).0
  unfolding process_transaction
  process_transaction-Conserves_as now tx p TransactionType.dispute_submit e c =
      elim (Bool-cases (ltb (length tx.payload) 128)) [
        | inl short ↦ rw (e, short, process_transaction) c
        | inr long ↦
            rw (e, long, process_transaction)
              (add_dispute-Conserves keccak now (read_filing tx.payload) p c)
      ]
  process_transaction-Conserves_as now tx p TransactionType.dispute_resolve e c =
      elim (Bool-cases (ltb (length tx.payload) 64)) [
        | inl short ↦ rw (e, short, process_transaction) c
        | inr long ↦ rw (e, long, process_transaction) c
      ]
  process_transaction-Conserves_as now tx p TransactionType.evidence_submit e c =
      rw (e, process_transaction) c
  process_transaction-Conserves_as now tx p TransactionType.vote_cast e c =
      rw (e, process_transaction) c
  process_transaction-Conserves_as now tx p TransactionType.stake_deposit e c =
      rw (e, process_transaction) c
  process_transaction-Conserves_as now tx p TransactionType.stake_withdraw e c =
      rw (e, process_transaction) c
  process_transaction-Conserves_as now tx p TransactionType.batch_commit e c =
      rw (e, process_transaction) c

  process_block-Conserves :
      (now : ℕ) (txs : List Transaction) (s : DisputeSequencer)
      → Conserves s.batch_processor
      → Conserves (process_block keccak now txs s).0.batch_processor
  unfolding process_block
  process_block-Conserves now [] s c = c
  process_block-Conserves now (tx ∷ txs) s c =
      process_block-Conserves now txs _
        (process_transaction-Conserves_as now tx s.batch_processor tx.tx_type refl c)

  commit_batch-Conserves :
      (now : ℕ) (s : DisputeSequencer)
      → Conserves s.batch_processor
      → Conserves (commit_batch keccak now s).batch_processor
  unfolding commit_batch
  commit_batch-Conserves now s c =
      let kept = create_and_process_batch-Conserves keccak now s.batch_processor c in
      elim (Option-cases (create_and_process_batch keccak now s.batch_processor).1) [
        | inl nothing ↦ rw (nothing, commit_batch) kept
        | inr (r, made) ↦ elim (Bool-cases r.success) [
          | inl done ↦ rw (made, done, commit_batch) kept
          | inr failed ↦ rw (made, failed, commit_batch) kept
        ]
      ]

module _ (keccak : Bytes → Bytes) (isoformat : ℕ → Bytes) where
  settle-Conserves :
      (now : ℕ) (s : DisputeSequencer)
      → Conserves s.batch_processor
      → Conserves (settle keccak isoformat now s).batch_processor
  unfolding settle
  settle-Conserves now s c =
      elim (Bool-cases (leb s.config.batch_commit_interval s.blocks_since_commit)) [
        | inl due ↦ rw (due, settle) (commit_batch-Conserves keccak now s c)
        | inr early ↦ rw (early, settle) c
      ]

  announce-processor :
      (t : StateTransition) (s : DisputeSequencer)
      → (announce keccak isoformat t s).batch_processor ≡ s.batch_processor
  unfolding announce
  announce-processor t s = ground arith

  finish-Conserves :
      (now : ℕ) (s : DisputeSequencer) (block left : List Transaction)
      → Conserves s.batch_processor
      → Conserves (finish keccak isoformat now s block left).0.batch_processor
  unfolding finish run_block append_block
  finish-Conserves now s [] left c = c
  finish-Conserves now s (tx ∷ txs) left c =
      let (s', t) = run_block keccak isoformat now (tx ∷ txs) left s in
      subst Conserves (sym (announce-processor t (settle keccak isoformat now s')))
        (settle-Conserves now s' (process_block-Conserves keccak now (tx ∷ txs) _ c))

  pub produce_block-Conserves :
      (heap : HeapQueue) (now : ℕ) (s : DisputeSequencer)
      → Conserves s.batch_processor
      → Conserves (produce_block keccak isoformat heap now s).0.batch_processor
  unfolding produce_block
  produce_block-Conserves heap now s c = elim (Bool-cases (is_running s.status)) [
    | inr off ↦ rw (off, produce_block) c
    | inl active ↦ elim (Bool-cases (same_number (length s.pending_transactions) 0)) [
      | inl empty ↦ rw (active, empty, produce_block) c
      | inr waiting ↦ rw (active, waiting, produce_block) (finish-Conserves now s _ _ c)
    ]
  ]
