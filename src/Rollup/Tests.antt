-- ===== src/Rollup/Tests.antt =====
-- Runs of the rollup of src/rra/l3, and the theorems at them. A toy digest stands for Keccak.
use rra_module.Prelude.{
  ℕ, ◌+◌, ◌≡◌, refl, true, some, List, [], ◌∷◌, ◌++◌, length, number_key, text_key,
}
use mathlib.Core.List.{reverse}
use rra_module.Rollup.Bytes.{Bytes, to_bytes, from_bytes}
use rra_module.Rollup.Merkle.{compute_merkle_root, compute_merkle_proof}
use rra_module.Rollup.MerkleProof.{recompute, compute_merkle_proof-root}
use rra_module.Rollup.Batch.{
  BatchStatus, ProcessedDispute, Batch, BatchConfig, BatchProcessor, create_batch, new_batch,
}
use rra_module.Rollup.Processing.{Filing, process_batch, new_dispute}
use rra_module.Rollup.Settlement.{finalize_batch, reject_batch, in_challenge_period}
use rra_module.Rollup.Batch
use rra_module.Rollup.Settlement
use rra_module.Rollup.Conservation.{Conserves}
use rra_module.Rollup.Calls
use rra_module.Rollup.Calls.{
  add, add_all, process, finalize, challenge, reject, set_on_batch_committed, run-Conserves,
}
use rra_module.Rollup.Rejection.{create_batch-reject_batch}

unfoldable digest : Bytes → Bytes
unfolding to_bytes
digest bs = to_bytes 32 (length bs + from_bytes bs)

abbrev time_text : ℕ → Bytes
time_text t = t ∷ []

abbrev leaves : List Bytes
leaves = (1 ∷ []) ∷ (2 ∷ []) ∷ (3 ∷ []) ∷ []

-- The last of three leaves moves up alone, so its proof has one node.
last_proof : length (compute_merkle_proof digest leaves 2) ≡ 1
unfolding compute_merkle_proof
last_proof = refl

compute_merkle_proof-root_example :
    recompute digest 3 3 1 (2 ∷ []) (compute_merkle_proof digest leaves 1)
    ≡ some (compute_merkle_root digest leaves)
compute_merkle_proof-root_example = compute_merkle_proof-root digest leaves 1 refl

abbrev batch_config : BatchConfig
batch_config = record {
  min_batch_size = 1;
  max_batch_size = 2;
  batch_interval = 60;
  challenge_period = 100;
}

abbrev filing : ℕ → Filing
filing n = record {
  initiator_hash = n ∷ [];
  counterparty_hash = n ∷ [];
  evidence_root = n ∷ [];
  stake_amount = n;
}

abbrev b_new : BatchProcessor
b_new = Batch.new batch_config 5

-- Two disputes fill a batch, which is processed, challenged and rejected.
abbrev rejection : List Calls.Request
rejection =
    add_all 6 (filing 10 ∷ filing 20 ∷ filing 30 ∷ []) ∷ process 7 1 ∷ challenge 1 ∷ reject 1 ∷ []

run-Conserves_example : Conserves (Calls.run digest rejection (Batch.new batch_config 5))
run-Conserves_example = run-Conserves digest batch_config 5 rejection

-- Three disputes wait where a batch holds two.
abbrev b_waiting : BatchProcessor
b_waiting = record b_new {
  pending_disputes =
      new_dispute digest 1 (filing 10) 6
      ∷ new_dispute digest 2 (filing 20) 6
      ∷ new_dispute digest 3 (filing 30) 6
      ∷ [];
}

abbrev first_batch : Batch
first_batch = new_batch 7 2 b_waiting

first_made : (create_batch 7 b_waiting).1 ≡ some first_batch
unfolding create_batch Batch.new
first_made = refl

create_batch-reject_batch_example :
    let p1 = (create_batch 7 b_waiting).0 in
    let p2 = (process_batch digest 9 1 p1).0 in
    let p3 = (Settlement.challenge_batch 1 p2).0 in
    let (p4, done) = reject_batch 1 p3 in
    (done ≡ true)
    × (p4.current_state_root ≡ b_waiting.current_state_root)
    × ((rest : List ProcessedDispute) × (b_waiting.pending_disputes ≡ first_batch.disputes ++ rest)
        × (p4.pending_disputes ≡ reverse first_batch.disputes ++ rest))
    × (p4.committed_batches ≡ b_waiting.committed_batches ++ 1 ∷ [])
unfolding Batch.new
create_batch-reject_batch_example =
    create_batch-reject_batch digest 7 9 first_batch b_waiting first_made refl
