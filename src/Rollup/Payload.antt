-- ===== src/Rollup/Payload.antt =====
-- What becomes of a dispute that sequencer.py submits, and of a transaction that is sent twice.
use rra_module.Prelude.{
  ℕ, zero, suc, ◌+◌, ◌^◌, ◌<◌, ◌≡◌, refl, ◌∙◌, sym, ap, subst, inl, inr, true, false, some, [], ◌∷◌,
  ◌++◌, arith, Text, leb, ltb, length, length-append, take, drop, Bool-cases, text_key,
}
use rra_module.Prelude.Int.{pos, ltb_ℤ}
use rra_module.Rollup.Bytes.{
  Bytes, to_bytes, from_bytes, from_bytes-to_bytes, length-to_bytes, take-append, drop-append,
}
use rra_module.Rollup.Batch.{BatchProcessor}
use rra_module.Rollup.Processing.{Filing, add_dispute}
use rra_module.Rollup.Sequencer.{
  TransactionType, Transaction, HeapQueue, DisputeSequencer, weigh, accepted, is_running, nonce_of,
  plain,
}
use rra_module.Rollup.Block.{
  submit_transaction, submit, submit_dispute, process_transaction, read_filing,
}
use rra_module.Rollup.Selection.{length-weigh}

drop-append_past : (xs ys : Bytes) (m k : ℕ) → m ≡ length xs + k → drop m (xs ++ ys) ≡ drop k ys
drop-append_past [] ys m k e = let same : m ≡ k = omega (arith, e) in rw same refl
drop-append_past (x ∷ xs) ys zero k e = absurd (omega (arith, e))
drop-append_past (x ∷ xs) ys (suc m) k e = drop-append_past xs ys m k (omega (arith, e))

take-all : (n : ℕ) (xs : Bytes) → length xs ≡ n → take n xs ≡ xs
take-all zero [] e = refl
take-all zero (x ∷ xs) e = absurd (omega (arith, e))
take-all (suc n) [] e = absurd (omega (arith, e))
take-all (suc n) (x ∷ xs) e = ap (λ t. x ∷ t) (take-all n xs (omega (arith, e)))

-- The parts of a payload of three hashes and a number.
module _ (a b c n : Bytes) (la : length a ≡ 32) (lb : length b ≡ 32) (lc : length c ≡ 32)
    (ln : length n ≡ 32) where
  read_filing_lem : read_filing (a ++ (b ++ (c ++ n))) ≡ record {
    initiator_hash = a;
    counterparty_hash = b;
    evidence_root = c;
    stake_amount = from_bytes n;
  }
  unfolding read_filing
  read_filing_lem =
      let two : drop 64 (a ++ (b ++ (c ++ n))) ≡ c ++ n =
        drop-append_past a (b ++ (c ++ n)) 64 32 (omega (arith, la))
        ∙ drop-append 32 b (c ++ n) lb in
      let three : drop 96 (a ++ (b ++ (c ++ n))) ≡ n =
        drop-append_past a (b ++ (c ++ n)) 96 64 (omega (arith, la))
        ∙ drop-append_past b (c ++ n) 64 32 (omega (arith, lb))
        ∙ drop-append 32 c n lc in
      let first = take-append 32 a (b ++ (c ++ n)) la in
      let second : take 32 (drop 32 (a ++ (b ++ (c ++ n)))) ≡ b =
        ap (take 32) (drop-append 32 a (b ++ (c ++ n)) la) ∙ take-append 32 b (c ++ n) lb in
      let third : take 32 (drop 64 (a ++ (b ++ (c ++ n)))) ≡ c =
        ap (take 32) two ∙ take-append 32 c n lc in
      let fourth : from_bytes (take 32 (drop 96 (a ++ (b ++ (c ++ n))))) ≡ from_bytes n =
        ap from_bytes (ap (take 32) three ∙ take-all 32 n ln) in
      λ i. record {
        initiator_hash = first i;
        counterparty_hash = second i;
        evidence_root = third i;
        stake_amount = fourth i;
      }

  length-payload : length (a ++ (b ++ (c ++ n))) ≡ 128
  length-payload = omega (
    arith,
    la,
    lb,
    lc,
    ln,
    length-append {0} a (b ++ (c ++ n)),
    length-append {0} b (c ++ n),
    length-append {0} c n,
  )

process_transaction-long :
    (keccak : Bytes → Bytes) (later : ℕ) (tx : Transaction) (p : BatchProcessor)
    → tx.tx_type ≡ TransactionType.dispute_submit
    → ltb (length tx.payload) 128 ≡ false
    → let (p', d) = add_dispute keccak later (read_filing tx.payload) p in
      process_transaction keccak later tx p
      ≡ (p', record tx { result = some (to_bytes 32 d.dispute_id); processed = true })
unfolding process_transaction
process_transaction-long keccak later tx p kind long = ground (arith, kind, long)

process_transaction-read :
    (keccak : Bytes → Bytes) (later : ℕ) (tx : Transaction) (p : BatchProcessor) (a b c : Bytes)
    (stake : ℕ)
    → length a ≡ 32
    → length b ≡ 32
    → length c ≡ 32
    → stake < 256 ^ 32
    → tx.tx_type ≡ TransactionType.dispute_submit
    → tx.payload ≡ a ++ (b ++ (c ++ to_bytes 32 stake))
    → let filing : Filing = record {
      initiator_hash = a;
      counterparty_hash = b;
      evidence_root = c;
      stake_amount = stake;
    } in
      let (p', d) = add_dispute keccak later filing p in
      process_transaction keccak later tx p
      ≡ (p', record tx { result = some (to_bytes 32 d.dispute_id); processed = true })
process_transaction-read keccak later tx p a b c stake la lb lc small kind payload =
    let n = to_bytes 32 stake in
    let ln = length-to_bytes 32 stake in
    let size : length tx.payload ≡ 128 = ap length payload ∙ length-payload a b c n la lb lc ln in
    let long : ltb (length tx.payload) 128 ≡ false = ground (arith, size) in
    let filing =
      ap read_filing payload
      ∙ read_filing_lem a b c n la lb lc ln
      ∙ ap
          (λ (k : ℕ). record {
            initiator_hash = a;
            counterparty_hash = b;
            evidence_root = c;
            stake_amount = k;
          })
          (from_bytes-to_bytes 32 stake small) in
    process_transaction-long keccak later tx p kind long
    ∙ ap
        (λ (f : Filing).
          let (p', d) = add_dispute keccak later f p in
          (p', record tx { result = some (to_bytes 32 d.dispute_id); processed = true }))
        filing

module _ (heap : HeapQueue) where
  open heap use {heappush, heappush-weigh}

  submit_transaction-accepted :
      (tx : Transaction) (s : DisputeSequencer)
      → (submit_transaction heap tx s).2 ≡ true
      → (is_running s.status ≡ true)
        × (ltb_ℤ tx.nonce (nonce_of tx.sender s) ≡ false)
        × ((submit_transaction heap tx s).0
            ≡ record s { pending_transactions = heappush tx s.pending_transactions })
  unfolding submit_transaction
  submit_transaction-accepted tx s ok = elim (Bool-cases (is_running s.status)) [
    | inr off ↦ absurd (ground (arith, off))
    | inl active ↦
        elim (Bool-cases (leb s.config.max_pending_transactions (length s.pending_transactions))) [
          | inl packed ↦ absurd (ground (arith, active, packed))
          | inr room ↦ elim (Bool-cases (ltb_ℤ tx.nonce (nonce_of tx.sender s))) [
            | inl old ↦ absurd (ground (arith, active, room, old))
            | inr fresh ↦ (active, fresh, rw (active, room, fresh, submit_transaction) refl)
          ]
        ]
  ]

  submit-accepted :
      (tx : Transaction) (id : Text) (s : DisputeSequencer)
      → (submit heap tx s).1 ≡ accepted id
      → (submit heap tx s).0
        ≡ record s { pending_transactions = heappush tx s.pending_transactions }
  unfolding submit
  submit-accepted tx id s done = elim (Bool-cases ((submit_transaction heap tx s).2)) [
    | inl ok ↦ (submit_transaction-accepted tx s ok).2
    | inr refused ↦ absurd (ground (arith, refused))
  ]

  -- A dispute that is accepted with hashes of 32 bytes is queued as one transaction, and when that is
  -- processed, at whatever time, the batch processor is given the same hashes and the same stake, and
  -- the transaction's result is the number of the dispute that it makes.
  pub submit_dispute-add_dispute :
      (keccak : Bytes → Bytes) (id : Text) (now : ℕ) (sender : Text)
      (initiator counterparty evidence : Bytes) (stake : ℕ) (s : DisputeSequencer)
      → length initiator ≡ 32
      → length counterparty ≡ 32
      → length evidence ≡ 32
      → (submit_dispute heap id now sender initiator counterparty evidence (pos stake) s).1
        ≡ accepted id
      → (tx : Transaction) × ((submit_dispute heap id now sender initiator counterparty evidence
            (pos stake)
            s).0
          ≡ record s { pending_transactions = heappush tx s.pending_transactions })
        × ((later : ℕ) (p : BatchProcessor)
            → let filing : Filing = record {
              initiator_hash = initiator;
              counterparty_hash = counterparty;
              evidence_root = evidence;
              stake_amount = stake;
            } in
              let (p', d) = add_dispute keccak later filing p in
              process_transaction keccak later tx p
              ≡ (p', record tx { result = some (to_bytes 32 d.dispute_id); processed = true }))
  unfolding submit_dispute
  submit_dispute-add_dispute keccak id now sender a b c stake s la lb lc done =
      elim (Bool-cases (ltb stake (256 ^ 32))) [
        | inr large ↦ absurd (ground (arith, large))
        | inl fits ↦
            let n = to_bytes 32 stake in
            let tx =
              plain id TransactionType.dispute_submit sender (a ++ (b ++ (c ++ n))) now (pos 0)
                (nonce_of sender s) in
            (
              tx,
              rw (fits, submit_dispute)
                  (submit-accepted tx id s (rw (fits, submit_dispute) at done)),
              λ later p.
                  process_transaction-read keccak later tx p a b c stake la lb lc
                    (ground (arith, fits)) refl refl,
            )
      ]

  -- Accepting a transaction does not mark its nonce as used: while there is room, the same
  -- transaction is accepted again, and then stands twice in the heap.
  pub submit_transaction-again :
      (tx : Transaction) (s : DisputeSequencer)
      → (submit_transaction heap tx s).2 ≡ true
      → length s.pending_transactions + 1 < s.config.max_pending_transactions
      → let (s', tx', again) = submit_transaction heap tx (submit_transaction heap tx s).0 in
        (again ≡ true)
        × ((f : Transaction → ℕ)
            → weigh f s'.pending_transactions ≡ f tx + f tx + weigh f s.pending_transactions)
  unfolding submit_transaction
  submit_transaction-again tx s ok room =
      let (active, fresh, queued) = submit_transaction-accepted tx s ok in
      let s' = record s { pending_transactions = heappush tx s.pending_transactions } in
      let more = heappush-weigh (λ u. 1) tx s.pending_transactions in
      let room' : leb s.config.max_pending_transactions
            (length (heappush tx s.pending_transactions))
          ≡ false =
        ground (
          arith,
          more,
          room,
          length-weigh s.pending_transactions,
          length-weigh (heappush tx s.pending_transactions),
        ) in
      subst
        (λ (u : DisputeSequencer).
          let (s'', tx', again) = submit_transaction heap tx u in
          (again ≡ true)
          × ((f : Transaction → ℕ)
              → weigh f s''.pending_transactions ≡ f tx + f tx + weigh f s.pending_transactions))
        (sym queued)
        (rw (active, room', fresh, submit_transaction)
          (
            refl,
            λ f. omega (
              arith,
              heappush-weigh f tx s.pending_transactions,
              heappush-weigh f tx (heappush tx s.pending_transactions),
            ),
          ))
