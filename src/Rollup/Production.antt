-- ===== src/Rollup/Production.antt =====
-- What a call of `produce_block` of sequencer.py does.
use rra_module.Prelude.{
  ℕ, ◌+◌, ◌<◌, ◌≡◌, refl, ◌∙◌, sym, ap, subst, inl, inr, some, List, [], ◌∷◌, ◌++◌, arith, leb,
  length, Option-cases, Bool-cases, number_key, text_key, same_number,
}
use rra_module.Prelude.Dict.{Dict, insert}
use rra_module.Rollup.Bytes.{Bytes}
use rra_module.Rollup.Batch.{BatchProcessor}
use rra_module.Rollup.Processing.{create_and_process_batch}
use rra_module.Rollup.Sequencer.{
  SequencerStatus, Transaction, HeapQueue, SequencerConfig, StateTransition, DisputeSequencer,
  is_running,
}
use rra_module.Rollup.Block.{
  process_transaction, process_block, commit_batch, ids_of, append_block, settle, produce_block,
  run_block, announce, finish,
}
use rra_module.Rollup.Selection.{Selects, collect-Selects}

-- The part of the sequencer that the processing of transactions and the commitment of batches leave
-- as it is.
pub record View : Type 0 where
  pub config : SequencerConfig
  pub status : SequencerStatus
  pub current_state_root : Bytes
  pub current_block : ℕ
  pub next_transition_id : ℕ
  pub pending_transactions : List Transaction
  pub transitions : Dict ℕ StateTransition
  pub state_roots : List Bytes

abbrev pub view : DisputeSequencer → View
view s = record {
  config = s.config;
  status = s.status;
  current_state_root = s.current_state_root;
  current_block = s.current_block;
  next_transition_id = s.next_transition_id;
  pending_transactions = s.pending_transactions;
  transitions = s.transitions;
  state_roots = s.state_roots;
}

-- The view after a block with this root and transition.
abbrev pub extend : StateTransition → View → View
extend t v = record v {
  next_transition_id = v.next_transition_id + 1;
  current_state_root = t.new_state_root;
  state_roots = v.state_roots ++ t.new_state_root ∷ [];
  transitions = insert v.next_transition_id t v.transitions;
  current_block = v.current_block + 1;
}

module _ (keccak : Bytes → Bytes) where
  process_transaction-tx_id :
      (now : ℕ) (tx : Transaction) (p : BatchProcessor)
      → (process_transaction keccak now tx p).1.tx_id ≡ tx.tx_id
  unfolding process_transaction
  process_transaction-tx_id now tx p = ground arith

  process_block-view :
      (now : ℕ) (txs : List Transaction) (s : DisputeSequencer)
      → (view (process_block keccak now txs s).0 ≡ view s)
        × (ids_of (process_block keccak now txs s).1 ≡ ids_of txs)
  unfolding process_block
  process_block-view now [] s = (refl, refl)
  process_block-view now (tx ∷ txs) s =
      let rest = process_block-view now txs _ in
      (rest.0, ground (arith, process_transaction-tx_id now tx s.batch_processor, rest.1))

  commit_batch-view : (now : ℕ) (s : DisputeSequencer) → view (commit_batch keccak now s) ≡ view s
  unfolding commit_batch
  commit_batch-view now s =
      elim (Option-cases (create_and_process_batch keccak now s.batch_processor).1) [
        | inl nothing ↦ rw (nothing, commit_batch) refl
        | inr (r, made) ↦ elim (Bool-cases r.success) [
          | inl done ↦ rw (made, done, commit_batch) refl
          | inr failed ↦ rw (made, failed, commit_batch) refl
        ]
      ]

module _ (keccak : Bytes → Bytes) (isoformat : ℕ → Bytes) (heap : HeapQueue) where
  settle-view : (now : ℕ) (s : DisputeSequencer) → view (settle keccak isoformat now s) ≡ view s
  unfolding settle
  settle-view now s = elim (Bool-cases (leb s.config.batch_commit_interval s.blocks_since_commit)) [
    | inl due ↦ rw (due, settle) (commit_batch-view keccak now s)
    | inr early ↦ rw (early, settle) refl
  ]

  announce-view :
      (t : StateTransition) (s : DisputeSequencer) → view (announce keccak isoformat t s) ≡ view s
  unfolding announce
  announce-view t s = elim (Bool-cases s.on_block_produced) [
    | inl heard ↦ rw (heard, announce) refl
    | inr unheard ↦ rw (unheard, announce) refl
  ]

  run_block-view :
      (now : ℕ) (block left : List Transaction) (s : DisputeSequencer)
      → let (s', t) = run_block keccak isoformat now block left s in
        (view s' ≡ extend t (record (view s) { pending_transactions = left }))
        × (t.prev_state_root ≡ s.current_state_root)
        × (t.transition_id ≡ s.next_transition_id)
        × (t.transactions ≡ ids_of block)
  unfolding run_block append_block
  run_block-view now block left s =
      let s' = record s { pending_transactions = left } in
      let (processed, done) = process_block keccak now block s' in
      let same = process_block-view keccak now block s' in
      let t = (append_block keccak isoformat now done processed).1 in
      (
        ap (extend t) same.0,
        ap (λ (v : View). v.current_state_root) same.0,
        ap (λ (v : View). v.next_transition_id) same.0,
        same.1,
      )

  -- What a call leaves that produces the block with this transition.
  pub record Produces (s s' : DisputeSequencer) (t : StateTransition) : Type 0 where
    pub block : List Transaction
    pub selects : Selects heap s.config s.pending_transactions block s'.pending_transactions
    pub some_taken : 0 < length block
    pub contents : t.transactions ≡ ids_of block
    pub links : t.prev_state_root ≡ s.current_state_root
    pub numbered : t.transition_id ≡ s.next_transition_id
    pub extends :
        view s' ≡ extend t (record (view s) { pending_transactions = s'.pending_transactions })

  finish-Produces :
      (now : ℕ) (s : DisputeSequencer) (block left : List Transaction) {t : StateTransition}
      → Selects heap s.config s.pending_transactions block left
      → (finish keccak isoformat now s block left).1 ≡ some t
      → Produces s (finish keccak isoformat now s block left).0 t
  unfolding finish
  finish-Produces now s [] left selects made = cc
  finish-Produces now s (tx ∷ txs) left {t} selects made =
      let block = tx ∷ txs in
      let (s', t') = run_block keccak isoformat now block left s in
      let facts = run_block-view now block left s in
      let same : t' ≡ t = ground (arith, made) in
      let whole : view (announce keccak isoformat t' (settle keccak isoformat now s'))
          ≡ extend t' (record (view s) { pending_transactions = left }) =
        announce-view t' (settle keccak isoformat now s') ∙ settle-view now s' ∙ facts.0 in
      let rest : (announce keccak isoformat t'
            (settle keccak isoformat now s')).pending_transactions
          ≡ left =
        ap (λ (v : View). v.pending_transactions) whole in
      subst (Produces s (announce keccak isoformat t' (settle keccak isoformat now s'))) same
        (record {
          block = block;
          selects = rw rest selects;
          some_taken = omega arith;
          contents = facts.3;
          links = facts.1;
          numbered = facts.2;
          extends =
              subst
                (λ l.
                  view (announce keccak isoformat t' (settle keccak isoformat now s'))
                  ≡ extend t' (record (view s) { pending_transactions = l }))
                (sym rest) whole;
        })

  -- A call that produces a block takes from the heap of pending transactions at least one, at most
  -- as many and at most as much gas as a block may hold, and as many as fit; none of those left
  -- comes before one that is taken, nor a later one of the block before an earlier one, and all
  -- others stay. The transition lists the block's transactions in that order, links the state root
  -- before to the one after, and is appended to the history under the next number.
  pub produce_block-Produces :
      (now : ℕ) (s : DisputeSequencer) {t : StateTransition}
      → heap.IsHeap s.pending_transactions
      → (produce_block keccak isoformat heap now s).1 ≡ some t
      → Produces s (produce_block keccak isoformat heap now s).0 t
  unfolding produce_block
  produce_block-Produces now s h made = elim (Bool-cases (is_running s.status)) [
    | inr off ↦ absurd (ground (arith, off))
    | inl active ↦ elim (Bool-cases (same_number (length s.pending_transactions) 0)) [
      | inl empty ↦ absurd (ground (arith, active, empty))
      | inr waiting ↦
          rw (active, waiting, produce_block)
            (finish-Produces now s _ _ (collect-Selects heap s.config s.pending_transactions h)
              (rw (active, waiting, produce_block) at made))
    ]
  ]
