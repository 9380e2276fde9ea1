-- ===== src/Rollup/Progress.antt =====
-- When a call of `produce_block` of sequencer.py produces a block, and what it leaves if not.
use rra_module.Prelude.{
  ℕ, zero, suc, ◌+◌, ◌≤◌, ◌<◌, ◌≡◌, ◌∙◌, refl, sym, ap, subst, inl, inr, true, false, none, some,
  List, [], ◌∷◌, arith, ltb, length, Bool-cases, same_number,
}
use rra_module.Rollup.Bytes.{Bytes}
use rra_module.Rollup.Sequencer.{
  Transaction, HeapQueue, SequencerConfig, StateTransition, DisputeSequencer, weigh, estimate_gas,
  is_running,
}
use rra_module.Rollup.Block.{collect, produce_block, finish, has_room}
use rra_module.Rollup.Selection.{Selects, collect-Selects, length-weigh}

module _ (heap : HeapQueue) where
  open heap use {heappush, heappop, heappop-weigh, heappush-weigh}

  collect-first :
      (config : SequencerConfig) (fuel : ℕ) (t : Transaction) (q rest : List Transaction)
      → has_room config 0 0 ≡ true
      → heappop q ≡ some (t, rest)
      → estimate_gas t ≤ config.max_gas_per_block
      → (block : List Transaction) × (left : List Transaction) × (collect heap config
            (suc fuel)
            0
            0
            q
          ≡ (t ∷ block, left))
  unfolding collect
  collect-first config fuel t q rest room popped fits =
      let light : ltb config.max_gas_per_block (0 + estimate_gas t) ≡ false = ground arith in
      let r = collect heap config fuel 1 (0 + estimate_gas t) rest in
      (r.0, r.1, rw (room, popped, light, collect) refl)

  collect-heavy :
      (config : SequencerConfig) (fuel : ℕ) (t : Transaction) (q rest : List Transaction)
      → heappop q ≡ some (t, rest)
      → config.max_gas_per_block < estimate_gas t
      → (left : List Transaction) × (collect heap config fuel 0 0 q ≡ ([], left))
  unfolding collect
  collect-heavy config zero t q rest popped heavy = (q, refl)
  collect-heavy config (suc fuel) t q rest popped heavy = elim (Bool-cases (has_room config 0 0)) [
    | inr packed ↦ (q, rw (packed, collect) refl)
    | inl room ↦
        let over : ltb config.max_gas_per_block (0 + estimate_gas t) ≡ true = ground arith in
        (heappush t rest, rw (room, popped, over, collect) refl)
  ]

estimate_gas_pos : (t : Transaction) → 0 < estimate_gas t
unfolding estimate_gas
estimate_gas_pos t = ground arith

module _ (keccak : Bytes → Bytes) (isoformat : ℕ → Bytes) (heap : HeapQueue) where
  open heap use {heappush, heappop, heappop-weigh, IsHeap}

  finish-none :
      (now : ℕ) (s : DisputeSequencer) (block left : List Transaction)
      → Selects heap s.config s.pending_transactions block left
      → (finish keccak isoformat now s block left).1 ≡ none
      → let s' = (finish keccak isoformat now s block left).0 in
        (s' ≡ record s { pending_transactions = s'.pending_transactions })
        × IsHeap s'.pending_transactions
        × ((f : Transaction → ℕ) → weigh f s'.pending_transactions ≡ weigh f s.pending_transactions)
  unfolding finish
  finish-none now s [] left selects made =
      (refl, selects.left_IsHeap, λ f. omega (arith, selects.parts f))
  finish-none now s (t ∷ block) left selects made = cc

  -- A call that produces no block changes at most the arrangement of the heap of pending
  -- transactions: it holds the same ones, and is still a heap.
  pub produce_block-none :
      (now : ℕ) (s : DisputeSequencer)
      → IsHeap s.pending_transactions
      → (produce_block keccak isoformat heap now s).1 ≡ none
      → let s' = (produce_block keccak isoformat heap now s).0 in
        (s' ≡ record s { pending_transactions = s'.pending_transactions })
        × IsHeap s'.pending_transactions
        × ((f : Transaction → ℕ) → weigh f s'.pending_transactions ≡ weigh f s.pending_transactions)
  unfolding produce_block
  produce_block-none now s h made = elim (Bool-cases (is_running s.status)) [
    | inr off ↦ rw (off, produce_block) (refl, h, λ f. refl)
    | inl active ↦ elim (Bool-cases (same_number (length s.pending_transactions) 0)) [
      | inl empty ↦ rw (active, empty, produce_block) (refl, h, λ f. refl)
      | inr waiting ↦
          rw (active, waiting, produce_block)
            (finish-none now s _ _ (collect-Selects heap s.config s.pending_transactions h)
              (rw (active, waiting, produce_block) at made))
    ]
  ]

  produce_block-step :
      (now : ℕ) (s : DisputeSequencer)
      → is_running s.status ≡ true
      → same_number (length s.pending_transactions) 0 ≡ false
      → let taken =
          collect heap s.config (length s.pending_transactions) 0 0 s.pending_transactions in
        produce_block keccak isoformat heap now s ≡ finish keccak isoformat now s taken.0 taken.1
  unfolding produce_block
  produce_block-step now s active waiting = rw (active, waiting, produce_block) refl

  module _ (now : ℕ) (s : DisputeSequencer) where
    abbrev taken : List Transaction × List Transaction
    taken = collect heap s.config (length s.pending_transactions) 0 0 s.pending_transactions

    finish-some :
        (t : Transaction) (block left : List Transaction)
        → produce_block keccak isoformat heap now s ≡ finish keccak isoformat now s taken.0 taken.1
        → taken ≡ (t ∷ block, left)
        → (made : StateTransition) × ((produce_block keccak isoformat heap now s).1 ≡ some made)
    unfolding finish
    finish-some t block left steps e =
        (_, ap (λ r. r.1) (steps ∙ ap (λ r. finish keccak isoformat now s r.0 r.1) e))

    finish-nothing :
        (left : List Transaction)
        → produce_block keccak isoformat heap now s ≡ finish keccak isoformat now s taken.0 taken.1
        → taken ≡ ([], left)
        → (produce_block keccak isoformat heap now s).1 ≡ none
    unfolding finish
    finish-nothing left steps e =
        ap (λ r. r.1) (steps ∙ ap (λ r. finish keccak isoformat now s r.0 r.1) e)

  -- While the sequencer runs and a block may hold a transaction, a call produces a block if the first
  -- transaction of the heap needs no more gas than a block may hold. If it needs more, no block is
  -- produced, and all transactions stay pending, so that the next call meets it again.
  pub produce_block-progress :
      (now : ℕ) (s : DisputeSequencer) (t : Transaction) (rest : List Transaction)
      → IsHeap s.pending_transactions
      → is_running s.status ≡ true
      → 0 < s.config.max_transactions_per_block
      → heappop s.pending_transactions ≡ some (t, rest)
      → (estimate_gas t ≤ s.config.max_gas_per_block
          → (made : StateTransition) × ((produce_block keccak isoformat heap now s).1 ≡ some made))
        × (s.config.max_gas_per_block < estimate_gas t
            → ((produce_block keccak isoformat heap now s).1 ≡ none)
              × ((f : Transaction → ℕ)
                  → weigh f (produce_block keccak isoformat heap now s).0.pending_transactions
                    ≡ weigh f s.pending_transactions))
  produce_block-progress now s t rest h active may popped =
      let size = heappop-weigh (λ u. 1) t s.pending_transactions rest popped in
      let long : length s.pending_transactions ≡ suc (length rest) =
        omega (arith, size, length-weigh s.pending_transactions, length-weigh rest) in
      let steps = produce_block-step now s active (ground (arith, long)) in
      (
        λ fits.
            let room : has_room s.config 0 0 ≡ true = ground (arith, estimate_gas_pos t) in
            let (block, left, taken) =
              collect-first heap s.config (length rest) t s.pending_transactions rest room popped
                fits in
            finish-some now s t block left steps (
              subst (λ n. collect heap s.config n 0 0 s.pending_transactions ≡ (t ∷ block, left))
                (sym long) taken),
        λ heavy.
            let (left, taken) =
              collect-heavy heap s.config (length s.pending_transactions) t s.pending_transactions
                rest popped heavy in
            let nothing = finish-nothing now s left steps taken in
            (nothing, (produce_block-none now s h nothing).2),
      )
