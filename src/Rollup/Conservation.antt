-- ===== src/Rollup/Conservation.antt =====
-- Where the disputes of batch_processor.py are: each in the queue or in one batch.
pub mod Steps
use rra_module.Prelude.{
  ℕ, zero, suc, ◌+◌, ◌≤◌, ◌<◌, ◌≡◌, refl, sym, ◌∙◌, inl, inr, true, ◌&&◌, none, some, List, [], ◌∷◌,
  ◌++◌, arith, ltb, leb, if◌then◌else◌, number_key, length, take, drop, min, same_number,
  Option-cases, Bool-cases,
}
use rra_module.Prelude.Dict.{
  Dict, lookup, lookup-insert_self, insert, AllEntries, AllEntries-insert, AllEntries-lookup,
}
use rra_module.Rollup.Bytes.{Bytes}
use rra_module.Rollup.Batch.{BatchStatus, ProcessedDispute, Batch, BatchProcessor, create_batch}
use rra_module.Rollup.Processing.{
  Filing, new_dispute, add_dispute, commit, process_batch, can_process, is_committed, is_challenged,
  raised, remove,
}
use rra_module.Rollup.Settlement.{
  finalize_batch, challenge_batch, reject_batch, append_left, in_challenge_period,
}

-- How often a dispute id stands in a list.
abbrev pub copies : ℕ → List ProcessedDispute → ℕ
copies i [] = 0
copies i (d ∷ ds) = (if same_number d.dispute_id i then 1 else 0) + copies i ds

-- A rejected batch has given its disputes back.
abbrev pub batch_copies : ℕ → BatchStatus → List ProcessedDispute → ℕ
batch_copies i BatchStatus.rejected ds = 0
batch_copies i _ ds = copies i ds

abbrev pub held : ℕ → Dict ℕ Batch → ℕ
held i [] = 0
held i ((id, b) ∷ batches) = batch_copies i b.status b.disputes + held i batches

-- The ids given out so far.
abbrev pub expected : ℕ → ℕ → ℕ
expected i next = if leb 1 i && ltb i next then 1 else 0

-- A batch has its key for its id, is no larger than the configuration allows, and is not empty if
-- that allows any dispute at all.
abbrev pub IsFiled : ℕ → ℕ → ℕ → Batch → Type 0
IsFiled next size id b =
    (id < next)
    × (b.batch_id ≡ id)
    × (length b.disputes ≤ size)
    × (0 < size → 0 < length b.disputes)

pub record Conserves (p : BatchProcessor) : Type 0 where
  pub conserved :
      (i : ℕ) → copies i p.pending_disputes + held i p.batches ≡ expected i p.next_dispute_id
  pub filed : AllEntries (IsFiled p.next_batch_id p.config.max_batch_size) p.batches
  pub counting : 1 ≤ p.next_dispute_id

pub copies-append :
    (i : ℕ) (xs ys : List ProcessedDispute) → copies i (xs ++ ys) ≡ copies i xs + copies i ys
copies-append i [] ys = omega arith
copies-append i (x ∷ xs) ys = omega (arith, copies-append i xs ys)

copies-take :
    (i n : ℕ) (xs : List ProcessedDispute)
    → copies i (take n xs) + copies i (drop n xs) ≡ copies i xs
copies-take i zero xs = omega arith
copies-take i (suc n) [] = omega arith
copies-take i (suc n) (x ∷ xs) = omega (arith, copies-take i n xs)

length-take : (n : ℕ) (xs : List ProcessedDispute) → n ≤ length xs → length (take n xs) ≡ n
length-take zero xs h = refl
length-take (suc n) [] h = absurd (omega arith)
length-take (suc n) (x ∷ xs) h = omega (arith, length-take n xs (omega arith))

pub copies-append_left :
    (i : ℕ) (ds queue : List ProcessedDispute)
    → copies i (append_left ds queue) ≡ copies i ds + copies i queue
unfolding append_left
copies-append_left i [] queue = omega arith
copies-append_left i (d ∷ ds) queue = omega (arith, copies-append_left i ds (d ∷ queue))

held-insert_new :
    (i id : ℕ) (b : Batch) (batches : Dict ℕ Batch)
    → lookup id batches ≡ none
    → held i (insert id b batches) ≡ held i batches + batch_copies i b.status b.disputes
held-insert_new i id b [] h = omega arith
held-insert_new i id b ((j, c) ∷ batches) h = elim (Bool-cases (same_number j id)) [
  | inl same ↦ absurd (ground (arith, same))
  | inr other ↦ rw other (omega (arith, held-insert_new i id b batches (rw other at h)))
]

pub held-insert_old :
    (i id : ℕ) (b old : Batch) (batches : Dict ℕ Batch)
    → lookup id batches ≡ some old
    → batch_copies i b.status b.disputes ≡ batch_copies i old.status old.disputes
    → held i (insert id b batches) ≡ held i batches
held-insert_old i id b old [] h e = cc
held-insert_old i id b old ((j, c) ∷ batches) h e = elim (Bool-cases (same_number j id)) [
  | inl same ↦ rw same (ground (arith, h, e))
  | inr other ↦ rw other (omega (arith, held-insert_old i id b old batches (rw other at h) e))
]

pub held-insert_rejected :
    (i id : ℕ) (b old : Batch) (batches : Dict ℕ Batch)
    → lookup id batches ≡ some old
    → old.status ≡ BatchStatus.challenged
    → b.status ≡ BatchStatus.rejected
    → held i (insert id b batches) + copies i old.disputes ≡ held i batches
held-insert_rejected i id b old [] h was is = cc
held-insert_rejected i id b old ((j, c) ∷ batches) h was is = elim (Bool-cases (same_number j id)) [
  | inl same ↦ rw same (ground (arith, h, was, is))
  | inr other ↦
      rw other (omega (arith, held-insert_rejected i id b old batches (rw other at h) was is))
]

-- No batch stands under the next id.
lookup-filed :
    (next size id : ℕ) (batches : Dict ℕ Batch)
    → AllEntries (IsFiled next size) batches
    → next ≤ id
    → lookup id batches ≡ none
lookup-filed next size id [] h le = refl
lookup-filed next size id ((j, b) ∷ batches) h le =
    ground (arith, h.0, lookup-filed next size id batches h.1 le)

IsFiled-later :
    (next size : ℕ) (batches : Dict ℕ Batch)
    → AllEntries (IsFiled next size) batches
    → AllEntries (IsFiled (next + 1) size) batches
IsFiled-later next size [] h = tt
IsFiled-later next size ((j, b) ∷ batches) h =
    ((omega arith, h.0.1, h.0.2, h.0.3), IsFiled-later next size batches h.1)

pub create_batch-Conserves :
    (now : ℕ) (p : BatchProcessor) → Conserves p → Conserves (create_batch now p).0
unfolding create_batch
create_batch-Conserves now p s = elim (Bool-cases (same_number (length p.pending_disputes) 0)) [
  | inl empty ↦ rw empty s
  | inr some_left ↦
      let size = min (length p.pending_disputes) p.config.max_batch_size in
      let fresh =
        lookup-filed p.next_batch_id p.config.max_batch_size p.next_batch_id p.batches s.filed
          (omega arith) in
      rw some_left (record {
        conserved = λ i. omega (
          arith,
          s.conserved i,
          copies-take i size p.pending_disputes,
          held-insert_new i p.next_batch_id _ p.batches fresh,
        );
        filed =
            AllEntries-insert _ p.next_batch_id _ p.batches
              (IsFiled-later p.next_batch_id p.config.max_batch_size p.batches s.filed)
              (
                omega arith,
                refl,
                ground (arith, length-take size p.pending_disputes (omega arith)),
                λ h.
                    ground (arith, h, some_left, length-take size p.pending_disputes (omega arith)),
              );
        counting = s.counting;
      })
]
