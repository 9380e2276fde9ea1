-- ===== src/Rollup/SequencerTests.antt =====
-- Runs of the sequencer of src/rra/l3/sequencer.py over a sorted queue, and the theorems at them. A
-- toy digest stands for Keccak.
use rra_module.Prelude.{
  ℕ, ◌+◌, ◌≤◌, ◌<◌, ◌≡◌, refl, true, Option, none, some, List, [], ◌∷◌, ◌++◌, arith, Text, length,
  number_key, text_key,
}
use rra_module.Prelude.Int.{pos}
use rra_module.Rollup.Bytes.{Bytes, to_bytes, from_bytes, zeros}
use rra_module.Rollup.Batch.{BatchConfig, BatchProcessor}
use rra_module.Rollup.Processing.{Filing, add_dispute}
use rra_module.Rollup.Batch
use rra_module.Rollup.Sequencer.{
  TransactionType, Transaction, SequencerConfig, StateTransition, DisputeSequencer, Submission,
  accepted, is_running, weigh, estimate_gas, plain, precedes,
}
use rra_module.Rollup.Sequencer
use rra_module.Rollup.Block.{
  collect, run_block, finish, submit_transaction, submit_dispute, process_transaction,
  produce_block,
}
use rra_module.Rollup.SortedQueue.{sorted_queue}
use rra_module.Rollup.Production.{Produces, produce_block-Produces}
use rra_module.Rollup.Progress.{produce_block-progress}
use rra_module.Rollup.Ledger
use rra_module.Rollup.Ledger.{
  IsConsistent, start_at, hear_blocks, send, file_dispute, produce, run-IsConsistent,
}
use rra_module.Rollup.Payload.{submit_dispute-add_dispute}

unfoldable digest : Bytes → Bytes
unfolding to_bytes
digest bs = to_bytes 32 (length bs + from_bytes bs)

abbrev time_text : ℕ → Bytes
time_text t = t ∷ []

abbrev config : SequencerConfig
config = record {
  sequencer_id = b's' ∷ [];
  max_transactions_per_block = 1;
  max_pending_transactions = 5;
  batch_commit_interval = 1;
  max_gas_per_block = 100000;
}

abbrev batch_config : BatchConfig
batch_config = record {
  min_batch_size = 1;
  max_batch_size = 2;
  batch_interval = 60;
  challenge_period = 100;
}

abbrev alice : Text
alice = b'a' ∷ []

abbrev a_vote : Transaction
a_vote = plain (b'v' ∷ []) TransactionType.vote_cast alice (7 ∷ []) 11 (pos 1) (pos 0)

abbrev hash : Bytes
hash = zeros 32

abbrev calls : List Ledger.Request
calls = start_at 10 ∷ file_dispute (b'd' ∷ []) 10 alice hash hash hash (pos 300) ∷ send a_vote ∷ []

abbrev s_new : DisputeSequencer
s_new = Sequencer.new config (Batch.new batch_config 5) []

abbrev s_ready : DisputeSequencer
s_ready = Ledger.run digest time_text sorted_queue calls s_new

run-IsConsistent_example : IsConsistent digest time_text sorted_queue (
    Ledger.run digest time_text sorted_queue
      (calls ++ hear_blocks ∷ produce 20 ∷ produce 30 ∷ [])
      (Sequencer.new config (Batch.new batch_config 5) []))
run-IsConsistent_example =
    run-IsConsistent digest time_text sorted_queue config batch_config [] 5
      (calls ++ hear_blocks ∷ produce 20 ∷ produce 30 ∷ [])

s_ready-IsConsistent : IsConsistent digest time_text sorted_queue s_ready
s_ready-IsConsistent = run-IsConsistent digest time_text sorted_queue config batch_config [] 5 calls

abbrev pick : Option StateTransition → StateTransition
pick (some t) = t
pick none = record {
  transition_id = 0;
  prev_state_root = [];
  new_state_root = [];
  transactions = [];
  timestamp = 0;
  sequencer = [];
}

abbrev made : StateTransition
made = pick (produce_block digest time_text sorted_queue 20 s_ready).1

-- The vote has the higher priority, so it is the block.
vote_first : made.transactions ≡ (b'v' ∷ []) ∷ []
unfolding Ledger.run Ledger.apply Sequencer.new Sequencer.start submit_dispute submit_transaction
    produce_block collect finish run_block precedes zeros to_bytes
vote_first = refl

block_exists : (produce_block digest time_text sorted_queue 20 s_ready).1 ≡ some made
unfolding Ledger.run Ledger.apply Sequencer.new Sequencer.start submit_dispute submit_transaction
    produce_block collect finish precedes zeros to_bytes
block_exists = refl

produce_block-Produces_example :
    Produces digest time_text sorted_queue s_ready
      (produce_block digest time_text sorted_queue 20 s_ready).0
      made
produce_block-Produces_example =
    produce_block-Produces digest time_text sorted_queue 20 s_ready s_ready-IsConsistent.arranged
      block_exists

abbrev rest : List Transaction
rest = elim s_ready.pending_transactions [ [] ↦ [] | t ∷ ts ↦ ts ]

vote_popped : sorted_queue.heappop s_ready.pending_transactions ≡ some (a_vote, rest)
unfolding Ledger.run Ledger.apply Sequencer.new Sequencer.start submit_dispute submit_transaction
    precedes zeros to_bytes
vote_popped = refl

ready_running : is_running s_ready.status ≡ true
unfolding Ledger.run Ledger.apply Sequencer.new Sequencer.start submit_dispute submit_transaction
ready_running = refl

ready_room : 0 < s_ready.config.max_transactions_per_block
unfolding Ledger.run Ledger.apply Sequencer.new Sequencer.start submit_dispute submit_transaction
    precedes zeros to_bytes
ready_room = omega arith

produce_block-progress_example :
    (estimate_gas a_vote ≤ s_ready.config.max_gas_per_block
      → (t : StateTransition) × ((produce_block digest time_text sorted_queue 20 s_ready).1
          ≡ some t))
    × (s_ready.config.max_gas_per_block < estimate_gas a_vote
        → ((produce_block digest time_text sorted_queue 20 s_ready).1 ≡ none)
          × ((f : Transaction → ℕ)
              → weigh f
                  (produce_block digest time_text sorted_queue 20 s_ready).0.pending_transactions
                ≡ weigh f s_ready.pending_transactions))
produce_block-progress_example =
    produce_block-progress digest time_text sorted_queue 20 s_ready a_vote rest
      s_ready-IsConsistent.arranged ready_running ready_room vote_popped

abbrev s_started : DisputeSequencer
s_started = Sequencer.start 10 s_new

dispute_accepted :
    (submit_dispute sorted_queue (b'd' ∷ []) 10 alice hash hash hash (pos 300) s_started).1
    ≡ accepted (b'd' ∷ [])
unfolding submit_dispute Sequencer.new Sequencer.start zeros to_bytes submit_transaction
dispute_accepted = refl

size_of_hash : length hash ≡ 32
unfolding zeros
size_of_hash = refl

submit_dispute-add_dispute_example :
    (tx : Transaction) × ((submit_dispute sorted_queue
        (b'd' ∷ [])
        10
        alice
        hash
        hash
        hash
        (pos 300)
        s_started).0
      ≡ record s_started {
        pending_transactions = sorted_queue.heappush tx s_started.pending_transactions;
      })
    × ((later : ℕ) (p : BatchProcessor)
        → let filing : Filing = record {
          initiator_hash = hash;
          counterparty_hash = hash;
          evidence_root = hash;
          stake_amount = 300;
        } in
          let (p', d) = add_dispute digest later filing p in
          process_transaction digest later tx p
          ≡ (p', record tx { result = some (to_bytes 32 d.dispute_id); processed = true }))
submit_dispute-add_dispute_example =
    submit_dispute-add_dispute sorted_queue digest (b'd' ∷ []) 10 alice hash hash hash 300 s_started
      size_of_hash size_of_hash size_of_hash dispute_accepted

vote_accepted : (submit_transaction sorted_queue a_vote s_started).2 ≡ true
unfolding submit_transaction Sequencer.new Sequencer.start
vote_accepted = refl

started_room : length s_started.pending_transactions + 1 < s_started.config.max_pending_transactions
unfolding Sequencer.new Sequencer.start
started_room = omega arith
