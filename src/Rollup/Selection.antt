-- ===== src/Rollup/Selection.antt =====
-- Which transactions sequencer.py takes for a block, and in which order.
use rra_module.Prelude.{
  ℕ, zero, suc, ◌+◌, ◌≤◌, ◌<◌, ◌≡◌, ◌⊎◌, refl, inl, inr, true, false, some, List, [], ◌∷◌, arith,
  ltb, if◌then◌else◌, length, Option-cases, Bool-cases,
}
use rra_module.Rollup.Sequencer.{
  Transaction, HeapQueue, SequencerConfig, precedes, weigh, estimate_gas,
}
use rra_module.Rollup.Block.{has_room, collect}

-- How many of a list come before a transaction.
abbrev pub before : Transaction → List Transaction → ℕ
before t = weigh (λ u. if precedes u t then 1 else 0)

-- No transaction of the list comes before an earlier one, and none of the rest before any of it.
abbrev pub IsOrdered : List Transaction → List Transaction → Type 0
IsOrdered [] rest = Unit {0}
IsOrdered (t ∷ ts) rest = (before t ts ≡ 0) × (before t rest ≡ 0) × IsOrdered ts rest

pub length-weigh : (ts : List Transaction) → weigh (λ t. 1) ts ≡ length ts
length-weigh [] = refl
length-weigh (t ∷ ts) = omega (arith, length-weigh ts)

module _ (heap : HeapQueue) where
  open heap use {
    heappush, heappop, IsHeap, heappush-weigh, heappop-weigh, heappop-none, heappop-least,
    heappop-IsHeap, heappush-IsHeap,
  }

  -- To prove a property of what the loop does with fuel for the whole heap: it stops where a block
  -- has no more room or the heap is empty, or at a transaction that needs too much gas, which it
  -- pushes back, or it takes a transaction that fits and goes on.
  module _ (config : SequencerConfig)
      (P : ℕ → ℕ → List Transaction → List Transaction → List Transaction → Type 0)
      (stops : (count gas : ℕ) (q : List Transaction)
        → (has_room config count gas ≡ false) ⊎ (q ≡ [])
        → P count gas q [] q)
      (returns : (count gas : ℕ) (t : Transaction) (q rest : List Transaction)
        → heappop q ≡ some (t, rest)
        → config.max_gas_per_block < gas + estimate_gas t
        → P count gas q [] (heappush t rest))
      (takes : (count gas : ℕ) (t : Transaction) (q rest block left : List Transaction)
        → has_room config count gas ≡ true
        → heappop q ≡ some (t, rest)
        → gas + estimate_gas t ≤ config.max_gas_per_block
        → P (count + 1) (gas + estimate_gas t) rest block left
        → P count gas q (t ∷ block) left) where
    pub collect_induction :
        (fuel count gas : ℕ) (q : List Transaction)
        → length q ≤ fuel
        → P count gas q
            (collect heap config fuel count gas q).0
            (collect heap config fuel count gas q).1
    unfolding collect
    collect_induction zero count gas [] fits = stops count gas [] (inr refl)
    collect_induction zero count gas (t ∷ q) fits = absurd (omega arith)
    collect_induction (suc fuel) count gas q fits = elim (Bool-cases (has_room config count gas)) [
      | inr packed ↦ rw (packed, collect) (stops count gas q (inl packed))
      | inl room ↦ elim (Option-cases (heappop q)) [
        | inl empty ↦ rw (room, empty, collect) (stops count gas q (inr (heappop-none q empty)))
        | inr ((t, rest), popped) ↦
            elim (Bool-cases (ltb config.max_gas_per_block (gas + estimate_gas t))) [
              | inl heavy ↦
                  rw (room, popped, heavy, collect)
                    (returns count gas t q rest popped (ground arith))
              | inr light ↦
                  let shorter = heappop-weigh (λ u. 1) t q rest popped in
                  rw (room, popped, light, collect)
                    (takes count gas t q rest _ _ room popped (ground arith) (
                      collect_induction fuel (count + 1) (gas + estimate_gas t) rest
                        (omega (arith, shorter, length-weigh q, length-weigh rest))))
            ]
      ]
    ]

  pub collect-weigh :
      (f : Transaction → ℕ) (config : SequencerConfig) (q : List Transaction)
      → let (block, left) = collect heap config (length q) 0 0 q in
        weigh f q ≡ weigh f block + weigh f left
  collect-weigh f config q =
      collect_induction config (λ count gas q block left. weigh f q ≡ weigh f block + weigh f left)
        (λ count gas q why. omega arith)
        (λ count gas t q rest popped heavy.
          omega (arith, heappop-weigh f t q rest popped, heappush-weigh f t rest))
        (λ count gas t q rest block left room popped light ih.
          omega (arith, heappop-weigh f t q rest popped, ih))
        (length q) 0 0 q (omega arith)

  -- Nothing is left, or a block of this many transactions and this gas has no more room, or what is
  -- left was pushed back with a transaction that needs too much gas.
  abbrev pub IsFull : SequencerConfig → ℕ → ℕ → List Transaction → Type 0
  IsFull config count gas left =
      (left ≡ [])
      ⊎ (has_room config count gas ≡ false)
      ⊎ ((t : Transaction) × (rest : List Transaction) × (left ≡ heappush t rest)
          × (config.max_gas_per_block < gas + estimate_gas t))

  -- What the loop takes from a heap: it takes as many transactions and as much gas as fit, in the
  -- order of the heap, and leaves a heap of the others.
  pub record Selects (config : SequencerConfig) (q block left : List Transaction) : Type 0 where
    pub count_fits : length block ≤ config.max_transactions_per_block
    pub gas_fits : weigh estimate_gas block ≤ config.max_gas_per_block
    pub ordered : IsOrdered block left
    pub parts : (f : Transaction → ℕ) → weigh f q ≡ weigh f block + weigh f left
    pub full : IsFull config (length block) (weigh estimate_gas block) left
    pub left_IsHeap : IsHeap left

  collect_bounds :
      (config : SequencerConfig) (q : List Transaction)
      → (weigh estimate_gas (collect heap config (length q) 0 0 q).0 ≤ config.max_gas_per_block)
        × (length (collect heap config (length q) 0 0 q).0 ≤ config.max_transactions_per_block)
  collect_bounds config q =
      collect_induction config
        (λ count gas q block left.
          (c g : ℕ)
          → c ≡ count + length block
          → g ≡ gas + weigh estimate_gas block
          → gas ≤ config.max_gas_per_block
          → count ≤ config.max_transactions_per_block
          → (g ≤ config.max_gas_per_block) × (c ≤ config.max_transactions_per_block))
        (λ count gas q why c g c_sum g_sum gas_fit count_fit.
          omega (arith, c_sum, g_sum, gas_fit, count_fit))
        (λ count gas t q rest popped heavy c g c_sum g_sum gas_fit count_fit.
          omega (arith, c_sum, g_sum, gas_fit, count_fit))
        (λ count gas t q rest block left room popped light ih c g c_sum g_sum gas_fit count_fit.
          let room' : count < config.max_transactions_per_block = ground (arith, room) in
          ih c g (omega (arith, c_sum)) (omega (arith, g_sum)) light (omega (arith, room')))
        (length q) 0 0 q (omega arith) _ _ (omega arith) (omega arith) (omega arith) (omega arith)

  collect-IsOrdered :
      (config : SequencerConfig) (q : List Transaction)
      → IsHeap q
      → let (block, left) = collect heap config (length q) 0 0 q in
        IsOrdered block left
        × IsHeap left
        × ((f : Transaction → ℕ) → weigh f q ≡ weigh f block + weigh f left)
  collect-IsOrdered config q =
      collect_induction config
        (λ count gas q block left.
          IsHeap q
          → IsOrdered block left
            × IsHeap left
            × ((f : Transaction → ℕ) → weigh f q ≡ weigh f block + weigh f left))
        (λ count gas q why h. (tt, h, λ f. omega arith))
        (λ count gas t q rest popped heavy h. (
          tt,
          heappush-IsHeap t rest (heappop-IsHeap t q rest h popped),
          λ f. omega (arith, heappop-weigh f t q rest popped, heappush-weigh f t rest),
        ))
        (λ count gas t q rest block left room popped light ih h.
          let (ordered, heap_left, parts) = ih (heappop-IsHeap t q rest h popped) in
          let least = heappop-least t q rest h popped in
          let split = parts (λ u. if precedes u t then 1 else 0) in
          (
            (omega (arith, least, split), omega (arith, least, split), ordered),
            heap_left,
            λ f. omega (arith, heappop-weigh f t q rest popped, parts f),
          ))
        (length q) 0 0 q (omega arith)

  collect-IsFull :
      (config : SequencerConfig) (q : List Transaction)
      → let (block, left) = collect heap config (length q) 0 0 q in
        IsFull config (length block) (weigh estimate_gas block) left
  collect-IsFull config q =
      collect_induction config
        (λ count gas q block left.
          (c g : ℕ)
          → c ≡ count + length block
          → g ≡ gas + weigh estimate_gas block
          → IsFull config c g left)
        (λ count gas q why c g c_sum g_sum.
          let same_count : c ≡ count = omega (arith, c_sum) in
          let same_gas : g ≡ gas = omega (arith, g_sum) in
          elim why [
            | inl packed ↦ inr (inl (rw (same_count, same_gas) packed))
            | inr empty ↦ inl empty
          ])
        (λ count gas t q rest popped heavy c g c_sum g_sum.
          inr (inr (t, rest, refl, omega (arith, heavy, g_sum))))
        (λ count gas t q rest block left room popped light ih c g c_sum g_sum.
          ih c g (omega (arith, c_sum)) (omega (arith, g_sum)))
        (length q) 0 0 q (omega arith) _ _ (omega arith) (omega arith)

  pub collect-Selects :
      (config : SequencerConfig) (q : List Transaction)
      → IsHeap q
      → Selects config q
          (collect heap config (length q) 0 0 q).0
          (collect heap config (length q) 0 0 q).1
  collect-Selects config q h =
      let bounds = collect_bounds config q in
      let (ordered, heap_left, parts) = collect-IsOrdered config q h in
      record {
        count_fits = bounds.1;
        gas_fits = bounds.0;
        ordered = ordered;
        parts = parts;
        full = collect-IsFull config q;
        left_IsHeap = heap_left;
      }
