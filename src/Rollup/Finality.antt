-- ===== src/Rollup/Finality.antt =====
-- When a batch of batch_processor.py becomes final, and what a rejection or a failed call leaves.
use rra_module.Prelude.{
  ℕ, ◌+◌, ◌≢◌, ◌≡◌, ◌↔◌, refl, sym, ap, subst, ◌∙◌, inl, inr, true, false, some, List, [], ◌∷◌,
  ◌++◌, arith, Text, number_key, length, min, same_number, Option-cases, Bool-cases,
}
use mathlib.Core.List.{reverse, append_assoc}
use rra_module.Prelude.Dict.{lookup, insert, lookup-insert_self, lookup-insert_ne}
use rra_module.Rollup.Bytes.{Bytes}
use rra_module.Rollup.Batch.{
  new_batch, BatchStatus, ProcessedDispute, Batch, BatchProcessor, create_batch,
}
use rra_module.Rollup.Processing.{
  commit, process_batch, raised, can_process, failure, callback_raised,
}
use rra_module.Rollup.Settlement.{finalize_batch, append_left, in_challenge_period}

-- A batch becomes final exactly if it is in store, is committed and its challenge period is over; it
-- then has the status for that, and its disputes and roots are those that were committed.
pub finalize_batch_iff :
    (now id : ℕ) (p : BatchProcessor)
    → ((finalize_batch now id p).1 ≡ true) ↔ (
        (b : Batch) × (lookup id p.batches ≡ some b)
        × (b.status ≡ BatchStatus.committed)
        × (in_challenge_period now p.config.challenge_period b.submitted_at ≡ false)
        × (lookup id (finalize_batch now id p).0.batches
            ≡ some (record b { status = BatchStatus.finalized; finalized_at = some now })))
unfolding finalize_batch
finalize_batch_iff now id p = elim (Option-cases (lookup id p.batches)) [
  | inl missing ↦
      ((λ done. absurd (ground arith)), (λ (b, found, closed, late, after). absurd (ground arith)))
  | inr (b, found) ↦ (
    (λ done. (
      b,
      found,
      ground arith,
      ground arith,
      ground (
        arith,
        lookup-insert_self id (record b { status = BatchStatus.finalized; finalized_at = some now })
            p.batches,
      ),
    )),
    (λ (b', found', closed, late, after).
        let same : b' ≡ b = ground (arith, found, found') in
        ground (arith, found, rw same at closed, rw same at late)),
  )
]

pub append_left_lem :
    (ds queue : List ProcessedDispute) → append_left ds queue ≡ reverse ds ++ queue
unfolding append_left
append_left_lem [] queue = refl
append_left_lem (d ∷ ds) queue =
    append_left_lem ds (d ∷ queue)
    ∙ sym (
        ap (λ t. t ++ queue) (append_left_lem ds (d ∷ []))
        ∙ append_assoc (reverse ds) (d ∷ []) queue)

pub create_batch-made :
    (now : ℕ) (b : Batch) (p : BatchProcessor)
    → (create_batch now p).1 ≡ some b
    → (b.prev_state_root ≡ p.current_state_root)
      × ((create_batch now p).0.current_state_root ≡ p.current_state_root)
      × (b.batch_id ≡ p.next_batch_id)
      × ((create_batch now p).0.next_batch_id ≡ p.next_batch_id + 1)
      × (lookup b.batch_id (create_batch now p).0.batches ≡ some b)
unfolding create_batch
create_batch-made now b p made = elim (Bool-cases (same_number (length p.pending_disputes) 0)) [
  | inl empty ↦ absurd (ground arith)
  | inr some_left ↦
      let size = min (length p.pending_disputes) p.config.max_batch_size in
      let fresh : new_batch now size p ≡ b = ground (arith, some_left) in
      (
        ground (arith, some_left),
        ground (arith, some_left),
        ground (arith, some_left),
        ground (arith, some_left),
        subst (λ c. lookup c.batch_id (create_batch now p).0.batches ≡ some c) fresh
            (ground (
              arith,
              some_left,
              lookup-insert_self p.next_batch_id (new_batch now size p) p.batches,
            )),
      )
]

module _ (keccak : Bytes → Bytes) where
  -- If the callback raises, the call reports a failure and the batch is pending again, although the
  -- state root, the counters and the list of committed batches have been changed; the next call
  -- with the batch changes them once more.
  pub process_batch-raised :
      (now id : ℕ) (b : Batch) (text : Text) (p : BatchProcessor)
      → lookup id p.batches ≡ some b
      → can_process b.status ≡ true
      → raised p.on_batch_committed (commit keccak now b) ≡ some text
      → let (p', r) = process_batch keccak now id p in
        (r ≡ failure id (callback_raised text))
        × (lookup id p'.batches
            ≡ some (record (commit keccak now b) { status = BatchStatus.pending }))
        × (p'.current_state_root ≡ (commit keccak now b).state_root)
        × (p'.committed_batches ≡ p.committed_batches ++ id ∷ [])
        × (p'.total_disputes_processed ≡ p.total_disputes_processed + length b.disputes)
  unfolding process_batch
  process_batch-raised now id b text p found may fails =
      let stored =
        lookup-insert_self id (record (commit keccak now b) { status = BatchStatus.pending })
          (insert id (commit keccak now b) p.batches) in
      (
        ground (arith, found, may, fails),
        ground (arith, found, may, fails, stored),
        ground (arith, found, may, fails),
        ground (arith, found, may, fails),
        ground (arith, found, may, fails),
      )

  process_batch-other :
      (now id j : ℕ) (p : BatchProcessor)
      → j ≢ id
      → lookup j (process_batch keccak now id p).0.batches ≡ lookup j p.batches
  unfolding process_batch
  process_batch-other now id j p other = elim (Option-cases (lookup id p.batches)) [
    | inl missing ↦ ground (arith, missing)
    | inr (b, found) ↦
        let once = lookup-insert_ne j id (commit keccak now b) p.batches other in
        let twice =
          lookup-insert_ne j id (record (commit keccak now b) { status = BatchStatus.pending })
            (insert id (commit keccak now b) p.batches) other in
        ground (arith, found, once, twice)
  ]

  -- Of two batches that are created one after the other before the first is processed, the second
  -- keeps the state root on which the first was created, also once the first is committed.
  pub create_batch-same_prev :
      (now later commit_time : ℕ) (first second : Batch) (p : BatchProcessor)
      → (create_batch now p).1 ≡ some first
      → (create_batch later (create_batch now p).0).1 ≡ some second
      → let p' = (create_batch later (create_batch now p).0).0 in
        (lookup second.batch_id (process_batch keccak commit_time first.batch_id p').0.batches
          ≡ some second)
        × (second.prev_state_root ≡ first.prev_state_root)
        × (first.prev_state_root ≡ p.current_state_root)
  create_batch-same_prev now later commit_time first second p one two =
      let a = create_batch-made now first p one in
      let b = create_batch-made later second (create_batch now p).0 two in
      (
        process_batch-other commit_time first.batch_id second.batch_id
              (create_batch later (create_batch now p).0).0
              (λ e. absurd (omega (arith, e, a.2, a.3, b.2)))
            ∙ b.4,
        b.0 ∙ a.1 ∙ sym a.0,
        a.0,
      )
