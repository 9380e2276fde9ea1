-- ===== src/Rollup/Conservation/Steps.antt =====
-- The methods of batch_processor.py that change a batch keep the disputes where they are.
use rra_module.Prelude.{
  ℕ, ◌+◌, ◌≡◌, refl, sym, ◌∙◌, inl, inr, true, some, List, [], ◌∷◌, ◌++◌, arith, leb, number_key,
  length, Option-cases, Bool-cases,
}
use rra_module.Prelude.Dict.{
  lookup, lookup-insert_self, insert, AllEntries-insert, AllEntries-lookup,
}
use rra_module.Rollup.Bytes.{Bytes}
use rra_module.Rollup.Batch.{BatchStatus, ProcessedDispute, Batch, BatchProcessor}
use rra_module.Rollup.Processing.{
  Filing, new_dispute, add_dispute, commit, process_batch, can_process, is_committed, is_challenged,
  raised, remove,
}
use rra_module.Rollup.Settlement.{
  finalize_batch, challenge_batch, reject_batch, in_challenge_period,
}
use rra_module.Rollup.Conservation.{
  Conserves, batch_copies, copies, copies-append, copies-append_left, create_batch-Conserves,
  held-insert_old, held-insert_rejected,
}

can_process-copies :
    (i : ℕ) (st : BatchStatus) (ds : List ProcessedDispute)
    → can_process st ≡ true
    → batch_copies i st ds ≡ copies i ds
can_process-copies i BatchStatus.pending ds h = refl
can_process-copies i BatchStatus.full ds h = refl
can_process-copies i BatchStatus.processing ds h = cc
can_process-copies i BatchStatus.committed ds h = cc
can_process-copies i BatchStatus.challenged ds h = cc
can_process-copies i BatchStatus.finalized ds h = cc
can_process-copies i BatchStatus.rejected ds h = cc

is_committed_lem : (st : BatchStatus) → is_committed st ≡ true → st ≡ BatchStatus.committed
is_committed_lem st h = ground arith

is_challenged_lem : (st : BatchStatus) → is_challenged st ≡ true → st ≡ BatchStatus.challenged
is_challenged_lem st h = ground arith

is_committed-copies :
    (i : ℕ) (st : BatchStatus) (ds : List ProcessedDispute)
    → is_committed st ≡ true
    → batch_copies i st ds ≡ copies i ds
is_committed-copies i st ds h = rw (is_committed_lem st h) refl

-- A new status other than rejected, and new roots and times, change nothing of what a batch holds.
restamp-Conserves :
    (id : ℕ) (b old : Batch) (p q : BatchProcessor)
    → Conserves p
    → lookup id p.batches ≡ some old
    → (b.disputes ≡ old.disputes)
      × (b.batch_id ≡ old.batch_id)
      × ((i : ℕ) → batch_copies i b.status b.disputes ≡ batch_copies i old.status old.disputes)
    → (q.batches ≡ insert id b p.batches)
      × (q.pending_disputes ≡ p.pending_disputes)
      × (q.next_batch_id ≡ p.next_batch_id)
      × (q.next_dispute_id ≡ p.next_dispute_id)
      × (q.config ≡ p.config)
    → Conserves q
restamp-Conserves id b old p q s found same kept =
    let filed = AllEntries-lookup _ id p.batches s.filed found in
    record {
      conserved = λ i.
          rw (kept.0, kept.1, kept.3)
            (omega (arith, s.conserved i, held-insert_old i id b old p.batches found (same.2 i)));
      filed =
          rw (kept.0, kept.2, kept.4)
            (AllEntries-insert _ id b p.batches s.filed
              (filed.0, same.1 ∙ filed.1, rw same.0 filed.2, rw same.0 filed.3));
      counting = rw kept.3 s.counting;
    }

module _ (keccak : Bytes → Bytes) where
  queued-Conserves :
      (now : ℕ) (f : Filing) (p : BatchProcessor)
      → Conserves p
      → Conserves (record p {
        next_dispute_id = p.next_dispute_id + 1;
        pending_disputes = p.pending_disputes ++ new_dispute keccak p.next_dispute_id f now ∷ [];
      })
  unfolding new_dispute
  queued-Conserves now f p s = record {
    conserved = λ i. ground (
      arith,
      s.counting,
      s.conserved i,
      copies-append i p.pending_disputes (new_dispute keccak p.next_dispute_id f now ∷ []),
    );
    filed = s.filed;
    counting = omega (arith, s.counting);
  }

  pub add_dispute-Conserves :
      (now : ℕ) (f : Filing) (p : BatchProcessor)
      → Conserves p
      → Conserves (add_dispute keccak now f p).0
  unfolding add_dispute
  add_dispute-Conserves now f p s =
      let queued = queued-Conserves now f p s in
      elim (Bool-cases (
        leb p.config.max_batch_size
          (length (p.pending_disputes ++ new_dispute keccak p.next_dispute_id f now ∷ [])))) [
            | inl enough ↦ rw enough (create_batch-Conserves now _ queued)
            | inr few ↦ rw few queued
          ]

  -- The processor once a batch is committed.
  abbrev committing : ℕ → ℕ → Batch → BatchProcessor → BatchProcessor
  committing now id b p = record p {
    current_state_root = (commit keccak now b).state_root;
    batches = insert id (commit keccak now b) p.batches;
    pending_batches = remove id p.pending_batches;
    committed_batches = p.committed_batches ++ id ∷ [];
    total_disputes_processed = p.total_disputes_processed + length b.disputes;
    total_batches_processed = p.total_batches_processed + 1;
  }

  commit-Conserves :
      (now id : ℕ) (b : Batch) (p : BatchProcessor)
      → Conserves p
      → lookup id p.batches ≡ some b
      → can_process b.status ≡ true
      → Conserves (committing now id b p)
  unfolding commit
  commit-Conserves now id b p s found open_lem =
      restamp-Conserves id (commit keccak now b) b p (committing now id b p) s found
        (refl, refl, λ i. sym (can_process-copies i b.status b.disputes open_lem))
        (refl, refl, refl, refl, refl)

  pub process_batch-Conserves :
      (now id : ℕ) (p : BatchProcessor) → Conserves p → Conserves (process_batch keccak now id p).0
  unfolding process_batch commit
  process_batch-Conserves now id p s = elim (Option-cases (lookup id p.batches)) [
    | inl missing ↦ rw (missing, process_batch) s
    | inr (b, found) ↦
        rw (found, process_batch)
          (elim (Bool-cases (can_process b.status)) [
            | inr refused ↦ rw refused s
            | inl open_lem ↦ rw open_lem (
                let done_sound = commit-Conserves now id b p s found open_lem in
                elim (Option-cases (raised p.on_batch_committed (commit keccak now b))) [
                  | inl fine ↦ rw fine done_sound
                  | inr (text, raised_text) ↦ rw raised_text (
                      restamp-Conserves id
                        (record (commit keccak now b) { status = BatchStatus.pending })
                        (commit keccak now b) (committing now id b p) _ done_sound
                        (lookup-insert_self id (commit keccak now b) p.batches)
                        (refl, refl, λ i. refl) (refl, refl, refl, refl, refl))
                ])
          ])
  ]

pub finalize_batch-Conserves :
    (now id : ℕ) (p : BatchProcessor) → Conserves p → Conserves (finalize_batch now id p).0
unfolding finalize_batch
finalize_batch-Conserves now id p s = elim (Option-cases (lookup id p.batches)) [
  | inl missing ↦ rw (missing, finalize_batch) s
  | inr (b, found) ↦
      rw (found, finalize_batch)
        (elim (Bool-cases (is_committed b.status)) [
          | inr refused ↦ rw refused s
          | inl closed ↦
              rw closed
                (elim (Bool-cases
                  (in_challenge_period now p.config.challenge_period b.submitted_at)) [
                    | inl early ↦ rw early s
                    | inr late ↦ rw late (
                        restamp-Conserves id _ b p _ s found
                          (refl, refl, λ i. sym (is_committed-copies i b.status b.disputes closed))
                          (refl, refl, refl, refl, refl))
                  ])
        ])
]

pub challenge_batch-Conserves :
    (id : ℕ) (p : BatchProcessor) → Conserves p → Conserves (challenge_batch id p).0
unfolding challenge_batch
challenge_batch-Conserves id p s = elim (Option-cases (lookup id p.batches)) [
  | inl missing ↦ rw (missing, challenge_batch) s
  | inr (b, found) ↦
      rw (found, challenge_batch)
        (elim (Bool-cases (is_committed b.status)) [
          | inr refused ↦ rw refused s
          | inl closed ↦ rw closed (
              restamp-Conserves id (record b { status = BatchStatus.challenged }) b p _ s found
                (refl, refl, λ i. sym (is_committed-copies i b.status b.disputes closed))
                (refl, refl, refl, refl, refl))
        ])
]

pub reject_batch-Conserves :
    (id : ℕ) (p : BatchProcessor) → Conserves p → Conserves (reject_batch id p).0
unfolding reject_batch
reject_batch-Conserves id p s = elim (Option-cases (lookup id p.batches)) [
  | inl missing ↦ rw (missing, reject_batch) s
  | inr (b, found) ↦
      rw (found, reject_batch)
        (elim (Bool-cases (is_challenged b.status)) [
          | inr refused ↦ rw refused s
          | inl open_lem ↦ rw open_lem (
              let filed = AllEntries-lookup _ id p.batches s.filed found in
              record {
                conserved = λ i. omega (
                  arith,
                  s.conserved i,
                  copies-append_left i b.disputes p.pending_disputes,
                  held-insert_rejected i id (record b { status = BatchStatus.rejected }) b p.batches
                      found (is_challenged_lem b.status open_lem) refl,
                );
                filed =
                    AllEntries-insert _ id (record b { status = BatchStatus.rejected }) p.batches
                      s.filed filed;
                counting = s.counting;
              })
        ])
]
