-- ===== src/Limits/Bucket.antt =====
-- `TokenBucketLimiter.acquire` of src/rra/api/rate_limiter.py: what a refusal promises, and how many
-- requests a bucket lets through.
use native.Mathlib.Nat.{
  div-mul-le_self, lt-mul-div-succ, le-div_iff_mul-le, mul-le-mul_right, mul_assoc, mul_comm,
  add-mul,
}
use rra_module.Prelude.{
  ℕ, ◌+◌, ◌-◌, ◌*◌, ◌/◌, ◌≤◌, ◌<◌, min, ◌≡◌, refl, ap, true, false, ◌&&◌, inl, inr, Option, none,
  some, arith, Text, text_key, same_number, ltb, leb, if◌then◌else◌, Bool-cases,
}
use rra_module.Limits.Backend.{second, Backend, get_tokens, set_tokens}
use rra_module.Limits.Limiters.{Verdict, TokenBucketLimiter, tokens_to_add, current_tokens, acquire}

retry_enough :
    (elapsed later r s needed gained : ℕ)
    → gained * 60000000 ≤ elapsed * r
    → needed * 60 < r * s
    → (elapsed + s * 1000000) * r ≤ later * r
    → (gained + needed) * 60000000 ≤ later * r
retry_enough elapsed later r s needed gained come enough spread =
    let split : (elapsed + s * 1000000) * r ≡ elapsed * r + 1000000 * (r * s) =
      rw (add-mul elapsed (s * 1000000) r, mul_comm s 1000000, mul_assoc 1000000 s r, mul_comm s r)
        refl in
    omega arith

-- The tokens that come in before the retry that was named.
tokens_to_add-retry :
    (l : TokenBucketLimiter) (elapsed later needed : ℕ)
    → 0 < l.requests_per_minute
    → elapsed + ((needed * 60) / l.requests_per_minute + 1) * second ≤ later
    → tokens_to_add l elapsed + needed ≤ tokens_to_add l later
unfolding tokens_to_add second
tokens_to_add-retry l elapsed later needed positive h =
    let r = l.requests_per_minute in
    (le-div_iff_mul-le {k = 60000000} (omega arith)).1 (
      retry_enough elapsed later r ((needed * 60) / r + 1) needed (tokens_to_add l elapsed)
        (div-mul-le_self (elapsed * r) 60000000) (lt-mul-div-succ (needed * 60) positive)
        (mul-le-mul_right r h))

-- The tokens in the bucket, while the clock goes forward.
abbrev pub level : TokenBucketLimiter → ℕ → ℕ × ℕ → ℕ
level l now (tokens, last_update) =
    if ltb 0 last_update
    then min l.bucket_size (tokens + tokens_to_add l (now - last_update))
    else l.bucket_size

current_tokens-level :
    (l : TokenBucketLimiter) (now tokens last_update : ℕ)
    → last_update ≤ now
    → current_tokens l now (tokens, last_update) ≡ (level l now (tokens, last_update), 0)
unfolding current_tokens
current_tokens-level l now tokens last_update h = ground arith

-- An answer with the bucket behind it.
abbrev pub answer : TokenBucketLimiter → Text → ℕ → ℕ → Backend → ℕ × ℕ → Backend × Option Verdict
answer l key tokens now b (current, owed) =
    if same_number owed 0 && leb tokens current
    then (
      set_tokens key (current - tokens) now b,
      some (record { allowed = true; remaining = current - tokens; retry_after = 0 }),
    )
    else if same_number l.requests_per_minute 0
    then (b, none)
    else (
      b,
      some (record {
        allowed = false;
        remaining = 0;
        retry_after = ((tokens + owed - current) * 60) / l.requests_per_minute + 1;
      }),
    )

pub acquire-answer :
    (l : TokenBucketLimiter) (key : Text) (tokens now : ℕ) (b : Backend)
    → (get_tokens key b).1 ≤ now
    → acquire l key tokens now b ≡ answer l key tokens now b (level l now (get_tokens key b), 0)
unfolding acquire
acquire-answer l key tokens now b h =
    ap (answer l key tokens now b)
      (current_tokens-level l now (get_tokens key b).0 (get_tokens key b).1 h)

abbrev pub Passes : Option Verdict → Type 0
Passes none = ⊥
Passes (some v) = v.allowed ≡ true

level-retry :
    (l : TokenBucketLimiter) (now later tokens held last_update : ℕ)
    → last_update ≤ now
    → tokens ≤ l.bucket_size
    → 0 < l.requests_per_minute
    → now
        + (((tokens + 0 - level l now (held, last_update)) * 60) / l.requests_per_minute + 1)
          * second
      ≤ later
    → tokens ≤ level l later (held, last_update)
unfolding tokens_to_add
level-retry l now later tokens held last_update clock fits positive wait =
    elim (Bool-cases (ltb 0 last_update)) [
      | inr zero ↦ rw zero fits
      | inl moved ↦
          let full : level l now (held, last_update)
              ≡ min l.bucket_size (held + tokens_to_add l (now - last_update)) =
            rw moved refl in
          let come =
            tokens_to_add-retry l (now - last_update) (later - last_update)
              (tokens + 0 - level l now (held, last_update)) positive (omega arith) in
          rw moved (omega arith)
    ]

acquire-Passes :
    (l : TokenBucketLimiter) (key : Text) (tokens now : ℕ) (b : Backend)
    → (get_tokens key b).1 ≤ now
    → tokens ≤ level l now (get_tokens key b)
    → Passes (acquire l key tokens now b).1
acquire-Passes l key tokens now b clock enough =
    let e : leb tokens (level l now (get_tokens key b)) ≡ true = ground arith in
    rw (acquire-answer l key tokens now b clock, e) refl

-- A refusal changes nothing, and names the time that the missing tokens take.
answer-refused :
    (l : TokenBucketLimiter) (key : Text) (tokens now current : ℕ) (b : Backend) (v : Verdict)
    → (answer l key tokens now b (current, 0)).1 ≡ some v
    → v.allowed ≡ false
    → ((answer l key tokens now b (current, 0)).0 ≡ b)
      × (0 < l.requests_per_minute)
      × (v.retry_after ≡ ((tokens + 0 - current) * 60) / l.requests_per_minute + 1)
answer-refused l key tokens now current b v given refused = elim (Bool-cases (leb tokens current)) [
  | inl enough ↦ ground (arith, rw enough at given)
  | inr short ↦ elim (Bool-cases (same_number l.requests_per_minute 0)) [
    | inl never ↦ ground (arith, rw (short, never) at given)
    | inr slow ↦
        rw (short, slow) (refl, ground (arith, slow), ground (arith, rw (short, slow) at given))
  ]
]

-- A request for no more tokens than the bucket holds that was refused passes if it is made
-- again once the seconds named in the refusal are over, with no other request of the key
-- between; the clock has not been set back behind the last update.
pub acquire-retry :
    (l : TokenBucketLimiter) (key : Text) (tokens now later : ℕ) (b : Backend) (v : Verdict)
    → (get_tokens key b).1 ≤ now
    → tokens ≤ l.bucket_size
    → (acquire l key tokens now b).1 ≡ some v
    → v.allowed ≡ false
    → now + v.retry_after * second ≤ later
    → Passes (acquire l key tokens later (acquire l key tokens now b).0).1
acquire-retry l key tokens now later b v clock fits given refused wait =
    let e = acquire-answer l key tokens now b clock in
    let told =
      answer-refused l key tokens now (level l now (get_tokens key b)) b v (rw e at given)
        refused in
    rw (e, told.0)
      (acquire-Passes l key tokens later b (omega arith) (
        level-retry l now later tokens (get_tokens key b).0 (get_tokens key b).1 clock fits told.1
          (rw told.2 at wait)))
