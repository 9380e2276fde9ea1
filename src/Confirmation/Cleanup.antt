-- ===== src/Confirmation/Cleanup.antt =====
-- The clean-up of expired transactions in confirmation.py.
use rra_module.Prelude.{
  ℕ, ◌≡◌, ◌≢◌, refl, sym, ◌∙◌, ap, subst, inl, inr, false, none, some, List, [], ◌∷◌, arith, length,
  Each, Absent, AreDistinct, Bool-cases, number_key, same_number, same_number_iff,
}
use rra_module.Prelude.Dict.{
  Dict, lookup, erase, IsNodup, lookup-erase_self, lookup-erase_ne, AllEntries-lookup,
}
use rra_module.Confirmation.Manager.{PendingTransaction, is_expired, Manager}
use rra_module.Confirmation.Steps.{expire_transaction, expired_ids, expire_all, cleanup_expired}
use rra_module.Confirmation.Invariant.{Waits, IsSound}
use rra_module.Confirmation.Soundness.{expire_transaction-stores, expire_transaction-IsSound}

abbrev Stored : Dict ℕ PendingTransaction → ℕ → Type 0
Stored pending id = (tx : PendingTransaction) × (lookup id pending ≡ some tx)

Absent-expired_ids :
    (now k : ℕ) (pending : Dict ℕ PendingTransaction)
    → lookup k pending ≡ none
    → Absent k (expired_ids now pending)
unfolding expired_ids
Absent-expired_ids now k [] h = tt
Absent-expired_ids now k ((j, tx) ∷ pending) h = elim (Bool-cases (is_expired now tx)) [
  | inl late ↦ rw late (
    (λ e. ground (arith, e, same_number_iff j k)),
    Absent-expired_ids now k pending (ground arith),
  )
  | inr timely ↦ rw timely (Absent-expired_ids now k pending (ground arith))
]

AreDistinct-expired_ids :
    (now : ℕ) (pending : Dict ℕ PendingTransaction)
    → IsNodup pending
    → AreDistinct (expired_ids now pending)
unfolding expired_ids
AreDistinct-expired_ids now [] n = tt
AreDistinct-expired_ids now ((j, tx) ∷ pending) n = elim (Bool-cases (is_expired now tx)) [
  | inl late ↦
      rw late (Absent-expired_ids now j pending n.0, AreDistinct-expired_ids now pending n.1)
  | inr timely ↦ rw timely (AreDistinct-expired_ids now pending n.1)
]

-- An expired transaction in the store is listed.
expired_ids_complete :
    (now j : ℕ) (tx : PendingTransaction) (pending : Dict ℕ PendingTransaction)
    → lookup j pending ≡ some tx
    → Absent j (expired_ids now pending)
    → is_expired now tx ≡ false
unfolding expired_ids
expired_ids_complete now j tx [] h a = cc
expired_ids_complete now j tx ((i, other) ∷ pending) h a =
    elim (Bool-cases (is_expired now other)) [
      | inl late ↦
          let (ne, rest) = rw late at a in
          expired_ids_complete now j tx pending (ground (arith, ne, same_number_iff i j)) rest
      | inr timely ↦ elim (Bool-cases (same_number i j)) [
        | inl same ↦
            let e : other ≡ tx = ground arith in subst (λ x. is_expired now x ≡ false) e timely
        | inr differ ↦ expired_ids_complete now j tx pending (ground arith) (rw timely at a)
      ]
    ]

Stored-behind :
    (j : ℕ) (tx : PendingTransaction) (pending : Dict ℕ PendingTransaction) (ids : List ℕ)
    → Absent j ids
    → Each (Stored pending) ids
    → Each (Stored ((j, tx) ∷ pending)) ids
Stored-behind j tx pending [] a h = tt
Stored-behind j tx pending (k ∷ ids) a h =
    ((h.0.0, ground (arith, a.0, h.0.1)), Stored-behind j tx pending ids a.1 h.1)

Stored-expired_ids :
    (now : ℕ) (pending : Dict ℕ PendingTransaction)
    → IsNodup pending
    → Each (Stored pending) (expired_ids now pending)
unfolding expired_ids
Stored-expired_ids now [] n = tt
Stored-expired_ids now ((j, tx) ∷ pending) n =
    let rest =
      Stored-behind j tx pending (expired_ids now pending) (Absent-expired_ids now j pending n.0)
        (Stored-expired_ids now pending n.1) in
    elim (Bool-cases (is_expired now tx)) [
      | inl late ↦ rw late ((tx, ground arith), rest)
      | inr timely ↦ rw timely rest
    ]

Stored-erase :
    (id : ℕ) (pending : Dict ℕ PendingTransaction) (ids : List ℕ)
    → Absent id ids
    → Each (Stored pending) ids
    → Each (Stored (erase id pending)) ids
Stored-erase id pending [] a h = tt
Stored-erase id pending (k ∷ ids) a h =
    ((h.0.0, lookup-erase_ne k id pending a.0 ∙ h.0.1), Stored-erase id pending ids a.1 h.1)

-- What the loop leaves: a sound manager whose pending transactions were pending before and are
-- none of those listed.
abbrev Leaves : List ℕ → Manager → Manager → Type 0
Leaves ids m m' =
    IsSound m'
    × ((j : ℕ) (tx : PendingTransaction)
        → lookup j m'.pending_transactions ≡ some tx
        → (lookup j m.pending_transactions ≡ some tx) × Absent j ids)

still_there :
    (id j : ℕ) (t : PendingTransaction) (pending : Dict ℕ PendingTransaction)
    → IsNodup pending
    → lookup j (erase id pending) ≡ some t
    → (id ≢ j) × (lookup j pending ≡ some t)
still_there id j t pending n e = elim (Bool-cases (same_number id j)) [
  | inl same ↦ absurd (ground (arith, same_number_iff id j, lookup-erase_self id pending n))
  | inr differ ↦ ((λ eq. ground (arith, eq, differ)), ground (arith, lookup-erase_ne j id pending))
]

expire_all-Leaves :
    (now : ℕ) (ids : List ℕ) (m : Manager)
    → IsSound m
    → AreDistinct ids
    → Each (Stored m.pending_transactions) ids
    → (m' : Manager) × (expire_all now ids m ≡ some m') × Leaves ids m m'
unfolding expire_all
expire_all-Leaves now [] m s distinct stored = (m, refl, (s, λ j tx h. (h, tt)))
expire_all-Leaves now (id ∷ ids) m s distinct stored =
    let (tx, found) = stored.0 in
    let pending = m.pending_transactions in
    let w = AllEntries-lookup Waits id pending s.pending_sound found in
    let stores = expire_transaction-stores now id tx m w.own_id in
    let (m', runs, (sound, kept)) =
      expire_all-Leaves now ids (expire_transaction now tx m)
        (expire_transaction-IsSound now id tx m s found) distinct.1
        (subst (λ p. Each (Stored p) ids) (sym stores.0)
          (Stored-erase id pending ids distinct.0 stored.1)) in
    (
      m',
      ground (arith, found, runs),
      (
        sound,
        λ j t h.
            let (was, out) = kept j t h in
            let erased : lookup j (erase id pending) ≡ some t =
              ap (lookup j) (sym stores.0) ∙ was in
            let (ne, still) = still_there id j t pending s.pending_distinct erased in
            (still, (ne, out)),
      ),
    )

-- A clean-up of a sound manager never fails: it returns the number of transactions that were
-- expired, leaves the manager sound, and no pending transaction is expired afterwards; what is
-- still pending was pending before.
pub cleanup_expired-IsSound :
    (now : ℕ) (m : Manager)
    → IsSound m
    → (m' : Manager) × (cleanup_expired now m
        ≡ some (m', length (expired_ids now m.pending_transactions)))
      × IsSound m'
      × ((j : ℕ) (tx : PendingTransaction)
          → lookup j m'.pending_transactions ≡ some tx
          → (lookup j m.pending_transactions ≡ some tx) × (is_expired now tx ≡ false))
unfolding cleanup_expired
cleanup_expired-IsSound now m s =
    let pending = m.pending_transactions in
    let (m', runs, (sound, kept)) =
      expire_all-Leaves now (expired_ids now pending) m s
        (AreDistinct-expired_ids now pending s.pending_distinct)
        (Stored-expired_ids now pending s.pending_distinct) in
    (
      m',
      ground (arith, runs),
      sound,
      λ j tx h.
          let (was, out) = kept j tx h in (was, expired_ids_complete now j tx pending was out),
    )
