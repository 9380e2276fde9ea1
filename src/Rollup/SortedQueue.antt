-- ===== src/Rollup/SortedQueue.antt =====
-- A queue that keeps its transactions in order, which has the laws that sequencer.py relies on.
use rra_module.Prelude.{
  ℕ, ◌+◌, ◌≡◌, ◌<◌, ◌⊎◌, refl, inl, inr, true, false, Option, none, some, List, [], ◌∷◌, arith,
  if◌then◌else◌, Bool-cases,
}
use rra_module.Prelude.Int.{ℤ, eqb_ℤ, ◌<ℤ◌, pos_part, neg_part}
use rra_module.Rollup.Sequencer.{Transaction, HeapQueue, precedes, weigh}
use rra_module.Rollup.Selection.{before}

abbrev Same : ℤ → ℤ → Type 0
Same a b = pos_part a + neg_part b ≡ pos_part b + neg_part a

-- The order by priority, gas price and time, as three cases.
abbrev IsBefore : Transaction → Transaction → Type 0
IsBefore t u =
    (u.priority <ℤ t.priority)
    ⊎ (Same t.priority u.priority × (u.gas_price <ℤ t.gas_price))
    ⊎ (Same t.priority u.priority × Same t.gas_price u.gas_price × (t.timestamp < u.timestamp))

IsBefore-precedes : (t u : Transaction) → precedes t u ≡ true → IsBefore t u
unfolding precedes
IsBefore-precedes t u p = elim (Bool-cases (eqb_ℤ t.priority u.priority)) [
  | inr differ ↦ inl (ground (arith, differ))
  | inl same ↦ inr (elim (Bool-cases (eqb_ℤ t.gas_price u.gas_price)) [
    | inr differ ↦ inl (ground (arith, same), ground (arith, same, differ))
    | inl alike ↦ inr (ground (arith, same), ground (arith, alike), ground (arith, same, alike))
  ])
]

precedes-IsBefore : (t u : Transaction) → IsBefore t u → precedes t u ≡ true
unfolding precedes
precedes-IsBefore t u (inl first) = ground arith
precedes-IsBefore t u (inr (inl second)) = ground arith
precedes-IsBefore t u (inr (inr third)) = ground arith

IsBefore-trans : (t u v : Transaction) → IsBefore t u → IsBefore u v → IsBefore t v
IsBefore-trans t u v (inl a) (inl b) = inl (omega arith)
IsBefore-trans t u v (inl a) (inr (inl b)) = inl (omega arith)
IsBefore-trans t u v (inl a) (inr (inr b)) = inl (omega arith)
IsBefore-trans t u v (inr (inl a)) (inl b) = inl (omega arith)
IsBefore-trans t u v (inr (inl a)) (inr (inl b)) = inr (inl (omega arith))
IsBefore-trans t u v (inr (inl a)) (inr (inr b)) = inr (inl (omega arith))
IsBefore-trans t u v (inr (inr a)) (inl b) = inl (omega arith)
IsBefore-trans t u v (inr (inr a)) (inr (inl b)) = inr (inl (omega arith))
IsBefore-trans t u v (inr (inr a)) (inr (inr b)) = inr (inr (omega arith))

precedes_trans :
    (t u v : Transaction) → precedes t u ≡ true → precedes u v ≡ true → precedes t v ≡ true
precedes_trans t u v p q =
    precedes-IsBefore t v (IsBefore-trans t u v (IsBefore-precedes t u p) (IsBefore-precedes u v q))

precedes_asym : (t u : Transaction) → precedes t u ≡ true → precedes u t ≡ false
unfolding precedes
precedes_asym t u p = ground arith

abbrev pub put : Transaction → List Transaction → List Transaction
put t [] = t ∷ []
put t (u ∷ q) = if precedes t u then t ∷ (u ∷ q) else u ∷ put t q

abbrev pub get : List Transaction → Option (Transaction × List Transaction)
get [] = none
get (t ∷ q) = some (t, q)

abbrev pub IsSorted : List Transaction → Type 0
IsSorted [] = Unit {0}
IsSorted (t ∷ q) = (before t q ≡ 0) × IsSorted q

pub put-weigh :
    (f : Transaction → ℕ) (t : Transaction) (q : List Transaction)
    → weigh f (put t q) ≡ f t + weigh f q
put-weigh f t [] = refl
put-weigh f t (u ∷ q) = elim (Bool-cases (precedes t u)) [
  | inl first ↦ rw first refl
  | inr later ↦ rw later (omega (arith, put-weigh f t q))
]

before-earlier :
    (t u : Transaction) (q : List Transaction)
    → precedes t u ≡ true
    → before u q ≡ 0
    → before t q ≡ 0
before-earlier t u [] p h = refl
before-earlier t u (v ∷ q) p h = elim (Bool-cases (precedes v t)) [
  | inl early ↦ absurd (ground (arith, h, precedes_trans v t u early p))
  | inr late ↦ rw late (omega (arith, before-earlier t u q p (omega (arith, h))))
]

pub put-IsSorted : (t : Transaction) (q : List Transaction) → IsSorted q → IsSorted (put t q)
put-IsSorted t [] s = (refl, tt)
put-IsSorted t (u ∷ q) s = elim (Bool-cases (precedes t u)) [
  | inl first ↦
      rw first (ground (arith, precedes_asym t u first, before-earlier t u q first s.0), s)
  | inr later ↦ rw later (
    ground (arith, later, s.0, put-weigh (λ v. if precedes v u then 1 else 0) t q),
    put-IsSorted t q s.1,
  )
]

pub get-weigh :
    (f : Transaction → ℕ) (t : Transaction) (q r : List Transaction)
    → get q ≡ some (t, r)
    → weigh f q ≡ f t + weigh f r
get-weigh f t [] r h = cc
get-weigh f t (u ∷ q) r h = ground arith

pub get-IsSorted :
    (t : Transaction) (q r : List Transaction)
    → IsSorted q
    → get q ≡ some (t, r)
    → (before t r ≡ 0) × IsSorted r
get-IsSorted t [] r s h = cc
get-IsSorted t (u ∷ q) r s h = ground (arith, s.0, s.1)

pub get-none : (q : List Transaction) → get q ≡ none → q ≡ []
get-none [] h = refl
get-none (t ∷ q) h = cc

abbrev pub sorted_queue : HeapQueue
sorted_queue = record {
  heappush = put;
  heappop = get;
  IsHeap = IsSorted;
  nil-IsHeap = tt;
  heappush-IsHeap = put-IsSorted;
  heappop-IsHeap = λ t q r s h. (get-IsSorted t q r s h).1;
  heappush-weigh = put-weigh;
  heappop-weigh = get-weigh;
  heappop-none = get-none;
  heappop-least = λ t q r s h. (get-IsSorted t q r s h).0;
}
