-- ===== src/Rollup/Calls.antt =====
-- Any sequence of calls on the batch processor of batch_processor.py.
use rra_module.Prelude.{
  ℕ, ◌≡◌, refl, inl, inr, List, [], ◌∷◌, arith, Option-cases, Bool-cases, number_key,
}
use rra_module.Rollup.Bytes.{Bytes}
use rra_module.Rollup.Batch.{BatchConfig, BatchProcessor, Callback, new, create_batch}
use rra_module.Rollup.Processing.{
  Filing, add_dispute, add_disputes_batch, process_batch, process_each, process_pending_batches,
  should_create_batch, process_first, create_and_process_batch,
}
use rra_module.Rollup.Settlement.{finalize_batch, challenge_batch, reject_batch}
use rra_module.Rollup.Conservation.{Conserves, create_batch-Conserves}
use rra_module.Rollup.Conservation.Steps.{
  add_dispute-Conserves, process_batch-Conserves, finalize_batch-Conserves,
  challenge_batch-Conserves, reject_batch-Conserves,
}

-- The calls that change the processor, each with its clock reading.
pub data Request : Type 0 where
  add : ℕ → Filing → Request
  add_all : ℕ → List Filing → Request
  process : ℕ → ℕ → Request
  process_all create_and_process : ℕ → Request
  finalize : ℕ → ℕ → Request
  challenge reject : ℕ → Request
  set_on_batch_committed : Callback → Request

module _ (keccak : Bytes → Bytes) where
  unfoldable pub apply : Request → BatchProcessor → BatchProcessor
  apply (add now f) p = (add_dispute keccak now f p).0
  apply (add_all now fs) p = (add_disputes_batch keccak now fs p).0
  apply (process now id) p = (process_batch keccak now id p).0
  apply (process_all now) p = (process_pending_batches keccak now p).0
  apply (create_and_process now) p = (create_and_process_batch keccak now p).0
  apply (finalize now id) p = (finalize_batch now id p).0
  apply (challenge id) p = (challenge_batch id p).0
  apply (reject id) p = (reject_batch id p).0
  apply (set_on_batch_committed f) p = record p { on_batch_committed = f }

  unfoldable pub run : List Request → BatchProcessor → BatchProcessor
  unfolding apply
  run [] p = p
  run (r ∷ rs) p = run rs (apply r p)

  add_disputes_batch-Conserves :
      (now : ℕ) (fs : List Filing) (p : BatchProcessor)
      → Conserves p
      → Conserves (add_disputes_batch keccak now fs p).0
  unfolding add_disputes_batch
  add_disputes_batch-Conserves now [] p s = s
  add_disputes_batch-Conserves now (f ∷ fs) p s =
      add_disputes_batch-Conserves now fs (add_dispute keccak now f p).0
        (add_dispute-Conserves keccak now f p s)

  process_each-Conserves :
      (now : ℕ) (ids : List ℕ) (p : BatchProcessor)
      → Conserves p
      → Conserves (process_each keccak now ids p).0
  unfolding process_each
  process_each-Conserves now [] p s = s
  process_each-Conserves now (id ∷ ids) p s =
      process_each-Conserves now ids (process_batch keccak now id p).0
        (process_batch-Conserves keccak now id p s)

  process_first-Conserves :
      (now : ℕ) (p : BatchProcessor) (ids : List ℕ)
      → p.pending_batches ≡ ids
      → Conserves p
      → Conserves (process_first keccak now p).0
  unfolding process_first
  process_first-Conserves now p [] e s = rw (e, process_first) s
  process_first-Conserves now p (id ∷ ids) e s =
      rw (e, process_first) (process_batch-Conserves keccak now id p s)

  pub create_and_process_batch-Conserves :
      (now : ℕ) (p : BatchProcessor)
      → Conserves p
      → Conserves (create_and_process_batch keccak now p).0
  unfolding create_and_process_batch
  create_and_process_batch-Conserves now p s = elim (Bool-cases (should_create_batch now p)) [
    | inr no_need ↦
        rw (no_need, create_and_process_batch)
          (process_first-Conserves now p p.pending_batches refl s)
    | inl due ↦
        let made = create_batch-Conserves now p s in
        rw (due, create_and_process_batch)
          (elim (Option-cases (create_batch now p).1) [
            | inl nothing ↦ rw nothing (
                process_first-Conserves now (create_batch now p).0
                  (create_batch now p).0.pending_batches refl made)
            | inr (b, new_batch) ↦
                rw new_batch
                  (process_batch-Conserves keccak now b.batch_id (create_batch now p).0 made)
          ])
  ]

  pub apply-Conserves : (r : Request) (p : BatchProcessor) → Conserves p → Conserves (apply r p)
  unfolding apply process_pending_batches
  apply-Conserves (add now f) p s = add_dispute-Conserves keccak now f p s
  apply-Conserves (add_all now fs) p s = add_disputes_batch-Conserves now fs p s
  apply-Conserves (process now id) p s = process_batch-Conserves keccak now id p s
  apply-Conserves (process_all now) p s = process_each-Conserves now p.pending_batches p s
  apply-Conserves (create_and_process now) p s = create_and_process_batch-Conserves now p s
  apply-Conserves (finalize now id) p s = finalize_batch-Conserves now id p s
  apply-Conserves (challenge id) p s = challenge_batch-Conserves id p s
  apply-Conserves (reject id) p s = reject_batch-Conserves id p s
  apply-Conserves (set_on_batch_committed f) p s = record {
    conserved = s.conserved;
    filed = s.filed;
    counting = s.counting;
  }

  run-Conserves_from : (rs : List Request) (p : BatchProcessor) → Conserves p → Conserves (run rs p)
  unfolding run
  run-Conserves_from [] p s = s
  run-Conserves_from (r ∷ rs) p s = run-Conserves_from rs (apply r p) (apply-Conserves r p s)

  -- Whatever calls are made on a new processor, in any order and with any arguments, and whatever
  -- its callback raises, every dispute id given out stands exactly once in the queue or in one batch
  -- that is not rejected, and no other id does; and every batch is stored under its own id, is at
  -- most as large as the configuration allows, and is not empty if that allows any dispute.
  pub run-Conserves :
      (config : BatchConfig) (now : ℕ) (rs : List Request) → Conserves (run rs (new config now))
  unfolding new
  run-Conserves config now rs =
      run-Conserves_from rs (new config now)
        (record { conserved = λ i. ground arith; filed = tt; counting = omega arith })
