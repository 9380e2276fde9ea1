-- ===== src/Rollup/Settlement.antt =====
-- What becomes of a batch of batch_processor.py after it is processed, and the proofs it gives out.
use rra_module.Prelude.{
  ℕ, ◌+◌, Bool, true, false, not, Option, none, some, List, [], ◌∷◌, ◌++◌, map, ltb, if◌then◌else◌,
  ◌==◌, number_key,
}
use rra_module.Prelude.Dict.{lookup, insert}
use rra_module.Rollup.Bytes.{Bytes}
use rra_module.Rollup.Merkle.{compute_merkle_proof}
use rra_module.Rollup.Batch.{
  Batch, BatchProcessor, ProcessedDispute, challenged, finalized, rejected,
}
use rra_module.Rollup.Processing.{is_challenged, is_committed, put_batch, remove}

-- `if batch.submitted_at:` and the challenge period
abbrev pub in_challenge_period : ℕ → ℕ → Option ℕ → Bool
in_challenge_period now period none = false
in_challenge_period now period (some t) = ltb now (t + period)

unfoldable pub finalize_batch : ℕ → ℕ → BatchProcessor → BatchProcessor × Bool
finalize_batch now id p = elim (lookup id p.batches) [
  | none ↦ (p, false)
  | some b ↦
      if not (is_committed b.status)
      then (p, false)
      else if in_challenge_period now p.config.challenge_period b.submitted_at
      then (p, false)
      else (
        record p {
          batches = insert id (record b { status = finalized; finalized_at = some now }) p.batches;
          committed_batches = remove id p.committed_batches;
          finalized_batches = p.finalized_batches ++ id ∷ [];
        },
        true,
      )
]

unfoldable pub challenge_batch : ℕ → BatchProcessor → BatchProcessor × Bool
challenge_batch id p = elim (lookup id p.batches) [
  | none ↦ (p, false)
  | some b ↦
      if not (is_committed b.status)
      then (p, false)
      else (put_batch id (record b { status = challenged }) p, true)
]

-- `for dispute in disputes: pending.appendleft(dispute)`
unfoldable pub append_left : List ProcessedDispute → List ProcessedDispute → List ProcessedDispute
append_left [] queue = queue
append_left (d ∷ ds) queue = append_left ds (d ∷ queue)

unfoldable pub reject_batch : ℕ → BatchProcessor → BatchProcessor × Bool
unfolding append_left
reject_batch id p = elim (lookup id p.batches) [
  | none ↦ (p, false)
  | some b ↦ if not (is_challenged b.status) then (p, false) else (
    record p {
      batches = insert id (record b { status = rejected }) p.batches;
      current_state_root = b.prev_state_root;
      pending_disputes = append_left b.disputes p.pending_disputes;
    },
    true,
  )
]

unfoldable pub get_batch : ℕ → BatchProcessor → Option Batch
get_batch id p = lookup id p.batches

-- The index of the first dispute that has the id.
abbrev pub find_index : ℕ → ℕ → List ProcessedDispute → Option ℕ
find_index i id [] = none
find_index i id (d ∷ ds) = if d.dispute_id == id then some i else find_index (i + 1) id ds

unfoldable pub get_merkle_proof : (Bytes → Bytes) → ℕ → ℕ → BatchProcessor → Option (List Bytes)
unfolding get_batch compute_merkle_proof
get_merkle_proof keccak id dispute p = elim (get_batch id p) [
  | none ↦ none
  | some b ↦ elim (find_index 0 dispute b.disputes) [
    | none ↦ none
    | some i ↦
        some
          (compute_merkle_proof keccak (map (λ (d : ProcessedDispute). d.data_hash) b.disputes) i)
  ]
]
