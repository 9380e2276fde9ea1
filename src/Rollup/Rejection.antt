-- ===== src/Rollup/Rejection.antt =====
-- A batch of batch_processor.py that is created, processed, challenged and rejected.
use mathlib.Core.List.{reverse}
use rra_module.Prelude.{
  ℕ, zero, suc, ◌≡◌, refl, sym, subst, ◌∙◌, ap, inl, inr, true, none, some, List, [], ◌∷◌, ◌++◌,
  arith, number_key, same_number, length, min, take, drop, Bool-cases,
}
use rra_module.Prelude.Dict.{lookup, lookup-insert_self}
use rra_module.Rollup.Bytes.{Bytes}
use rra_module.Rollup.Batch.{
  new_batch, BatchStatus, ProcessedDispute, Batch, BatchProcessor, create_batch,
}
use rra_module.Rollup.Processing.{commit, process_batch, raised}
use rra_module.Rollup.Settlement.{challenge_batch, reject_batch}
use rra_module.Rollup.Finality.{append_left_lem, create_batch-made}

take-drop : {A : Type 0} (n : ℕ) (xs : List A) → take n xs ++ drop n xs ≡ xs
take-drop zero xs = refl
take-drop (suc n) [] = refl
take-drop (suc n) (x ∷ xs) = ap (λ t. x ∷ t) (take-drop n xs)

create_batch-split :
    (now : ℕ) (b : Batch) (p : BatchProcessor)
    → (create_batch now p).1 ≡ some b
    → (p.pending_disputes ≡ b.disputes ++ (create_batch now p).0.pending_disputes)
      × (b.status ≡ BatchStatus.full)
      × ((create_batch now p).0.committed_batches ≡ p.committed_batches)
unfolding create_batch
create_batch-split now b p made = elim (Bool-cases (same_number (length p.pending_disputes) 0)) [
  | inl empty ↦ absurd (ground arith)
  | inr some_left ↦
      let size = min (length p.pending_disputes) p.config.max_batch_size in
      let fresh : new_batch now size p ≡ b = ground (arith, some_left) in
      rw some_left (
        subst
          (λ (c : Batch).
            (p.pending_disputes ≡ c.disputes ++ drop size p.pending_disputes)
            × (c.status ≡ BatchStatus.full)
            × (p.committed_batches ≡ p.committed_batches))
          fresh (sym (take-drop size p.pending_disputes), refl, refl))
]

create_batch-callback :
    (now : ℕ) (p : BatchProcessor)
    → (create_batch now p).0.on_batch_committed ≡ p.on_batch_committed
unfolding create_batch
create_batch-callback now p = ground arith

-- What a rejection finds of a batch, and what it leaves of the rest.
abbrev Holds : ℕ → Batch → List ProcessedDispute → List ℕ → BatchProcessor → Type 0
Holds id b queue listed p =
    (lookup id p.batches ≡ some b) × (p.pending_disputes ≡ queue) × (p.committed_batches ≡ listed)

process_batch-Holds :
    (keccak : Bytes → Bytes) (now id : ℕ) (b : Batch) (queue : List ProcessedDispute)
    (listed : List ℕ) (p : BatchProcessor)
    → b.status ≡ BatchStatus.full
    → raised p.on_batch_committed (commit keccak now b) ≡ none
    → Holds id b queue listed p
    → Holds id (commit keccak now b) queue (listed ++ id ∷ []) (process_batch keccak now id p).0
unfolding process_batch
process_batch-Holds keccak now id b queue listed p full quiet h =
    ground
      (arith, full, quiet, h.0, h.1, h.2, lookup-insert_self id (commit keccak now b) p.batches)

challenge_batch-Holds :
    (id : ℕ) (b : Batch) (queue : List ProcessedDispute) (listed : List ℕ) (p : BatchProcessor)
    → b.status ≡ BatchStatus.committed
    → Holds id b queue listed p
    → Holds id (record b { status = BatchStatus.challenged }) queue listed (challenge_batch id p).0
unfolding challenge_batch
challenge_batch-Holds id b queue listed p is h = ground (
  arith,
  is,
  h.0,
  h.1,
  h.2,
  lookup-insert_self id (record b { status = BatchStatus.challenged }) p.batches,
)

reject_batch-Holds :
    (id : ℕ) (b : Batch) (queue : List ProcessedDispute) (listed : List ℕ) (p : BatchProcessor)
    → b.status ≡ BatchStatus.challenged
    → Holds id b queue listed p
    → ((reject_batch id p).1 ≡ true)
      × ((reject_batch id p).0.current_state_root ≡ b.prev_state_root)
      × ((reject_batch id p).0.pending_disputes ≡ reverse b.disputes ++ queue)
      × ((reject_batch id p).0.committed_batches ≡ listed)
unfolding reject_batch
reject_batch-Holds id b queue listed p is h =
    ground (arith, is, h.0, h.1, h.2, append_left_lem b.disputes p.pending_disputes)

-- If a batch is created, then processed without an exception of the callback, then challenged and
-- then rejected, the rejection succeeds, and the processor has the state root again that it had
-- before the batch was created. The disputes of the batch stand at the front of the queue again,
-- but in reverse order, and the batch is still listed as committed.
pub create_batch-reject_batch :
    (keccak : Bytes → Bytes) (now later : ℕ) (b : Batch) (p : BatchProcessor)
    → (create_batch now p).1 ≡ some b
    → raised p.on_batch_committed (commit keccak later b) ≡ none
    → let p1 = (create_batch now p).0 in
      let p2 = (process_batch keccak later b.batch_id p1).0 in
      let p3 = (challenge_batch b.batch_id p2).0 in
      let (p4, done) = reject_batch b.batch_id p3 in
      (done ≡ true)
      × (p4.current_state_root ≡ p.current_state_root)
      × ((rest : List ProcessedDispute) × (p.pending_disputes ≡ b.disputes ++ rest)
          × (p4.pending_disputes ≡ reverse b.disputes ++ rest))
      × (p4.committed_batches ≡ p.committed_batches ++ b.batch_id ∷ [])
unfolding commit
create_batch-reject_batch keccak now later b p made quiet =
    let facts = create_batch-made now b p made in
    let (parts, full, listed) = create_batch-split now b p made in
    let p1 = (create_batch now p).0 in
    let rest = p1.pending_disputes in
    let h1 : Holds b.batch_id b rest p.committed_batches p1 = (facts.4, refl, listed) in
    let heard : raised p1.on_batch_committed (commit keccak later b) ≡ none =
      ap (λ f. raised f (commit keccak later b)) (create_batch-callback now p) ∙ quiet in
    let id = b.batch_id in
    let c = commit keccak later b in
    let p2 = (process_batch keccak later id p1).0 in
    let p3 = (challenge_batch id p2).0 in
    let all = p.committed_batches ++ id ∷ [] in
    let h2 = process_batch-Holds keccak later id b rest p.committed_batches p1 full heard h1 in
    let h3 = challenge_batch-Holds id c rest all p2 refl h2 in
    let (done, root, queue, kept) =
      reject_batch-Holds id (record c { status = BatchStatus.challenged }) rest all p3 refl h3 in
    (done, root ∙ facts.0, (rest, parts, queue), kept)
