-- ===== src/Limits/Burst.antt =====
-- How many requests `TokenBucketLimiter.acquire` of src/rra/api/rate_limiter.py lets through over a run.
use native.Mathlib.Nat.{div-mul-le_self, mul-le-mul_right, add-mul, zero-add}
use rra_module.Prelude.{
  ℕ, ◌+◌, ◌-◌, ◌*◌, ◌≤◌, ◌<◌, ◌≡◌, ◌⊎◌, refl, ◌∙◌, ap, sym, subst, Bool, true, false, inl, inr,
  Option, none, some, List, [], ◌∷◌, arith, Text, text_key, ◌==◌, same_number, ltb, leb,
  if◌then◌else◌, Bool-cases,
}
use rra_module.Prelude.Dict.{lookup-insert}
use rra_module.Limits.Backend.{second, Backend, new_backend, get_tokens, set_tokens}
use rra_module.Limits.Limiters.{Verdict, TokenBucketLimiter, tokens_to_add, current_tokens, acquire}
use rra_module.Limits.Bucket.{level, answer, acquire-answer}

abbrev pub admitted : Option Verdict → ℕ
admitted none = 0
admitted (some v) = if v.allowed then 1 else 0

-- How many of the requests for a token are granted to the key.
unfoldable pub granted : TokenBucketLimiter → Text → List (Text × ℕ) → Backend → ℕ
unfolding acquire
granted l key [] b = 0
granted l key ((j, now) ∷ requests) b =
    let (b', v) = acquire l j 1 now b in
    let rest = granted l key requests b' in (if j == key then admitted v else 0) + rest

-- The times do not decrease, and none is after the end.
abbrev pub AreBetween : ℕ → ℕ → List (Text × ℕ) → Type 0
AreBetween now end [] = Unit
AreBetween now end ((j, t) ∷ requests) = (now ≤ t) × (t ≤ end) × AreBetween t end requests

get_tokens-set_tokens :
    (j key : Text) (n now : ℕ) (b : Backend)
    → get_tokens key (set_tokens j n now b) ≡ (if j == key then (n, now) else get_tokens key b)
unfolding get_tokens set_tokens
get_tokens-set_tokens j key n now b = ground (arith, lookup-insert key j (n, now) b.tokens)

answer_other :
    (l : TokenBucketLimiter) (j key : Text) (now : ℕ) (b : Backend) (current : ℕ × ℕ)
    → (j == key) ≡ false
    → get_tokens key (answer l j 1 now b current).0 ≡ get_tokens key b
answer_other l j key now b (current, owed) miss =
    ground (arith, miss, get_tokens-set_tokens j key (current - 1) now b)

-- Another key's request leaves the bucket alone.
acquire_other :
    (l : TokenBucketLimiter) (j key : Text) (now : ℕ) (b : Backend)
    → (j == key) ≡ false
    → get_tokens key (acquire l j 1 now b).0 ≡ get_tokens key b
unfolding acquire
acquire_other l j key now b miss =
    answer_other l j key now b (current_tokens l now (get_tokens j b)) miss

answer-cases :
    (l : TokenBucketLimiter) (key : Text) (now current : ℕ) (b : Backend)
    → ((1 ≤ current)
        × (get_tokens key (answer l key 1 now b (current, 0)).0 ≡ (current - 1, now))
        × (admitted (answer l key 1 now b (current, 0)).1 ≡ 1))
      ⊎ (((answer l key 1 now b (current, 0)).0 ≡ b)
          × (admitted (answer l key 1 now b (current, 0)).1 ≡ 0))
answer-cases l key now current b = elim (Bool-cases (leb 1 current)) [
  | inl enough ↦
      let same : (key == key) ≡ true = (text_key.same_iff key key).1 refl in
      inl (
        rw enough (
          ground (arith, enough),
          get_tokens-set_tokens key key (current - 1) now b ∙ rw same refl,
          refl,
        ))
  | inr short ↦ inr (elim (Bool-cases (same_number l.requests_per_minute 0)) [
    | inl never ↦ rw (short, never) (refl, refl)
    | inr slow ↦ rw (short, slow) (refl, refl)
  ])
]

-- A request is granted and takes a token, or is not and changes nothing.
acquire-cases :
    (l : TokenBucketLimiter) (key : Text) (now : ℕ) (b : Backend)
    → (get_tokens key b).1 ≤ now
    → ((1 ≤ level l now (get_tokens key b))
        × (get_tokens key (acquire l key 1 now b).0 ≡ (level l now (get_tokens key b) - 1, now))
        × (admitted (acquire l key 1 now b).1 ≡ 1))
      ⊎ (((acquire l key 1 now b).0 ≡ b) × (admitted (acquire l key 1 now b).1 ≡ 0))
acquire-cases l key now b clock =
    rw (acquire-answer l key 1 now b clock)
      (answer-cases l key now (level l now (get_tokens key b)) b)

-- What comes in by a time, and by the end after it.
level-gain :
    (l : TokenBucketLimiter) (t end tokens last_update : ℕ)
    → 0 < last_update
    → last_update ≤ t
    → t ≤ end
    → level l t (tokens, last_update) * 60000000 + (end - t) * l.requests_per_minute
      ≤ tokens * 60000000 + (end - last_update) * l.requests_per_minute
unfolding tokens_to_add second
level-gain l t end tokens last_update known clock within =
    let r = l.requests_per_minute in
    let come = div-mul-le_self ((t - last_update) * r) 60000000 in
    let e : (end - t) + (t - last_update) ≡ end - last_update = omega arith in
    let split : (end - last_update) * r ≡ (end - t) * r + (t - last_update) * r =
      sym (ap (λ n. n * r) e) ∙ add-mul (end - t) (t - last_update) r in
    let k : ltb 0 last_update ≡ true = ground arith in rw k (omega arith)

granted-own :
    (l : TokenBucketLimiter) (key : Text) (t : ℕ) (requests : List (Text × ℕ)) (b : Backend)
    → granted l key ((key, t) ∷ requests) b
      ≡ admitted (acquire l key 1 t b).1 + granted l key requests (acquire l key 1 t b).0
unfolding granted
granted-own l key t requests b =
    let same : (key == key) ≡ true = (text_key.same_iff key key).1 refl in
    ap
      (λ (c : Bool).
        (if c then admitted (acquire l key 1 t b).1 else 0)
        + granted l key requests (acquire l key 1 t b).0)
      same

granted_other :
    (l : TokenBucketLimiter) (j key : Text) (t : ℕ) (requests : List (Text × ℕ)) (b : Backend)
    → (j == key) ≡ false
    → granted l key ((j, t) ∷ requests) b ≡ granted l key requests (acquire l j 1 t b).0
unfolding granted
granted_other l j key t requests b miss =
    ap
      (λ (c : Bool).
        (if c then admitted (acquire l j 1 t b).1 else 0)
        + granted l key requests (acquire l j 1 t b).0)
      miss
    ∙ zero-add _

module _ (l : TokenBucketLimiter) (key : Text) (end : ℕ) where
  -- An entry's tokens and what comes in until the end pay for what is granted.
  abbrev Pays : List (Text × ℕ) → Backend → ℕ × ℕ → Type 0
  Pays requests b (tokens, last_update) =
      granted l key requests b * 60000000
      ≤ tokens * 60000000 + (end - last_update) * l.requests_per_minute

  -- The clock has gone past the time of the key's entry.
  abbrev IsKnown : ℕ → Backend → Type 0
  IsKnown now b = (0 < (get_tokens key b).1) × ((get_tokens key b).1 ≤ now)

  IsKnown-subst :
      (now : ℕ) (b : Backend) (entry : ℕ × ℕ)
      → get_tokens key b ≡ entry
      → (0 < entry.1) × (entry.1 ≤ now)
      → IsKnown now b
  IsKnown-subst now b entry e h = subst (λ (x : ℕ × ℕ). (0 < x.1) × (x.1 ≤ now)) (sym e) h

  Pays-own :
      (t : ℕ) (requests : List (Text × ℕ)) (b : Backend)
      → IsKnown t b
      → t ≤ end
      → ((b' : Backend) → IsKnown t b' → Pays requests b' (get_tokens key b'))
      → Pays ((key, t) ∷ requests) b (get_tokens key b)
  Pays-own t requests b known within later =
      let gain =
        level-gain l t end (get_tokens key b).0 (get_tokens key b).1 known.0 known.1 within in
      rw (granted-own l key t requests b) (elim (acquire-cases l key t b known.1) [
        | inl (enough, e, one) ↦
            let b' = (acquire l key 1 t b).0 in
            let rest = subst (Pays requests b') e (
              later b' (
                IsKnown-subst t b' (level l t (get_tokens key b) - 1, t) e
                  (omega arith, omega arith))) in
            rw one (omega arith)
        | inr (e, refused) ↦ rw (e, refused) (let rest = later b known in omega arith)
      ])

  granted-Pays :
      (now : ℕ) (requests : List (Text × ℕ)) (b : Backend)
      → IsKnown now b
      → AreBetween now end requests
      → Pays requests b (get_tokens key b)
  unfolding granted
  granted-Pays now [] b known h = ground arith
  granted-Pays now ((j, t) ∷ requests) b known h = elim (Bool-cases (j == key)) [
    | inr miss ↦
        let e = acquire_other l j key t b miss in
        let b' = (acquire l j 1 t b).0 in
        rw (granted_other l j key t requests b miss) (
          subst (Pays requests b') e (
            granted-Pays t requests b'
              (IsKnown-subst t b' (get_tokens key b) e (known.0, omega arith)) h.2))
    | inl hit ↦
        subst (λ i. Pays ((i, t) ∷ requests) b (get_tokens key b))
          (sym ((text_key.same_iff j key).0 hit))
          (Pays-own t requests b (known.0, omega arith) h.1
            (λ b' k. granted-Pays t requests b' k h.2))
  ]

  Pays-sooner :
      (now t : ℕ) (requests : List (Text × ℕ)) (b : Backend)
      → now ≤ t
      → t ≤ end
      → Pays requests b (l.bucket_size, t)
      → Pays requests b (l.bucket_size, now)
  Pays-sooner now t requests b le within h =
      let less =
        mul-le-mul_right {m = end - t} {n = end - now} l.requests_per_minute (omega arith) in
      omega arith

  Pays-first :
      (t : ℕ) (requests : List (Text × ℕ)) (b : Backend)
      → 0 < t
      → t ≤ end
      → (get_tokens key b).1 ≡ 0
      → AreBetween t end requests
      → Pays requests b (l.bucket_size, t)
      → Pays ((key, t) ∷ requests) b (l.bucket_size, t)
  Pays-first t requests b started within fresh h later =
      let full : level l t (get_tokens key b) ≡ l.bucket_size =
        ap (level l t) (ap (λ n. ((get_tokens key b).0, n)) fresh) in
      rw (granted-own l key t requests b) (elim (acquire-cases l key t b (omega arith)) [
        | inl (enough, e, one) ↦
            let b' = (acquire l key 1 t b).0 in
            let rest = subst (Pays requests b') e (
              granted-Pays t requests b'
                (IsKnown-subst t b' (level l t (get_tokens key b) - 1, t) e
                  (omega arith, omega arith))
                h) in
            rw one (omega arith)
        | inr (e, refused) ↦ rw (e, refused) (omega arith)
      ])

  -- A key that has no time yet gets a full bucket.
  granted-fresh :
      (now : ℕ) (requests : List (Text × ℕ)) (b : Backend)
      → 0 < now
      → (get_tokens key b).1 ≡ 0
      → AreBetween now end requests
      → Pays requests b (l.bucket_size, now)
  unfolding granted
  granted-fresh now [] b started fresh h = ground arith
  granted-fresh now ((j, t) ∷ requests) b started fresh h = elim (Bool-cases (j == key)) [
    | inr miss ↦
        let rest =
          granted-fresh t requests (acquire l j 1 t b).0 (omega arith)
            (ap (λ (x : ℕ × ℕ). x.1) (acquire_other l j key t b miss) ∙ fresh) h.2 in
        rw (granted_other l j key t requests b miss) (Pays-sooner now t requests _ h.0 h.1 rest)
    | inl hit ↦
        subst (λ i. Pays ((i, t) ∷ requests) b (l.bucket_size, now))
          (sym ((text_key.same_iff j key).0 hit))
          (Pays-sooner now t ((key, t) ∷ requests) b h.0 h.1 (
            Pays-first t requests b (omega arith) h.1 fresh h.2
              (granted-fresh t requests b (omega arith) fresh h.2)))
  ]

-- Over any run of requests for one token each, at times from a positive start to an end that do
-- not decrease, a bucket that was empty of entries grants a key at most its size and what comes
-- in at the rate from the start to the end.
pub granted-new_backend :
    (l : TokenBucketLimiter) (key : Text) (start end : ℕ) (requests : List (Text × ℕ))
    → 0 < start
    → AreBetween start end requests
    → granted l key requests new_backend * (60 * second)
      ≤ l.bucket_size * (60 * second) + (end - start) * l.requests_per_minute
unfolding second get_tokens new_backend
granted-new_backend l key start end requests started h =
    granted-fresh l key end start requests new_backend started refl h
