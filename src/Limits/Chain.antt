-- ===== src/Limits/Chain.antt =====
-- `RateLimiter.check_rate_limit` of src/rra/api/rate_limiter.py over a run of requests: how many pass
-- the window of a minute behind the token bucket.
use rra_module.Prelude.{
  ℕ, ◌*◌, ◌≤◌, ◌≡◌, ◌⊎◌, refl, ◌∙◌, ap, subst, Bool, true, false, ◌&&◌, inl, inr, Option, none,
  some, List, [], ◌∷◌, ◌++◌, arith, Text, text_key, ◌==◌, if◌then◌else◌, length, any, Bool-cases,
  Option-cases,
}
use rra_module.Limits.Backend.{
  second, Backend, get_tokens, set_tokens, counted, recent, increment_counter,
}
use rra_module.Limits.Limiters.{
  TokenBucketLimiter, SlidingWindowLimiter, current_tokens, acquire, verdict, check, starts_with,
  RateLimitConfig, RateLimiter,
}
use rra_module.Limits.Requests.{
  Request, Headers, minute_prefix, hour_prefix, day_prefix, bucket_prefix, get_client_key,
  check_windows, check_rate_limit,
}
use rra_module.Limits.Bucket.{answer}
use rra_module.Limits.Counting.{counted-insert}

-- The counter of a key after a check.
counted-check :
    (l : SlidingWindowLimiter) (j key : Text) (now : ℕ) (b : Backend)
    → counted key (check l j now b).0.counters ≡ (
        if j == key
        then recent now (l.window * second) (counted j b.counters) ++ now ∷ []
        else counted key b.counters)
unfolding check increment_counter
counted-check l j key now b =
    counted-insert j key (recent now (l.window * second) (counted j b.counters) ++ now ∷ [])
      b.counters

counted-check_other :
    (l : SlidingWindowLimiter) (j key : Text) (now : ℕ) (b : Backend)
    → (j == key) ≡ false
    → counted key (check l j now b).0.counters ≡ counted key b.counters
counted-check_other l j key now b miss =
    counted-check l j key now b
    ∙ ap
        (λ (c : Bool).
          if c
          then recent now (l.window * second) (counted j b.counters) ++ now ∷ []
          else counted key b.counters)
        miss

counted-check_same :
    (l : SlidingWindowLimiter) (j key : Text) (now : ℕ) (b : Backend)
    → (j == key) ≡ true
    → counted key (check l j now b).0.counters
      ≡ recent now (l.window * second) (counted key b.counters) ++ now ∷ []
counted-check_same l j key now b hit =
    counted-check l j key now b
    ∙ ap
        (λ (c : Bool).
          if c
          then recent now (l.window * second) (counted j b.counters) ++ now ∷ []
          else counted key b.counters)
        hit
    ∙ ap (λ i. recent now (l.window * second) (counted i b.counters) ++ now ∷ [])
        ((text_key.same_iff j key).0 hit)

answer-counters :
    (l : TokenBucketLimiter) (key : Text) (tokens now : ℕ) (b : Backend) (current : ℕ × ℕ)
    → (answer l key tokens now b current).0.counters ≡ b.counters
unfolding set_tokens
answer-counters l key tokens now b (current, owed) = ground arith

acquire-counters :
    (l : TokenBucketLimiter) (key : Text) (tokens now : ℕ) (b : Backend)
    → (acquire l key tokens now b).0.counters ≡ b.counters
unfolding acquire
acquire-counters l key tokens now b =
    answer-counters l key tokens now b (current_tokens l now (get_tokens key b))

verdict-le : (l : SlidingWindowLimiter) (n : ℕ) → (verdict l n).allowed ≡ true → n ≤ l.limit
verdict-le l n h = ground arith

check-length :
    (l : SlidingWindowLimiter) (key : Text) (now : ℕ) (b : Backend)
    → (check l key now b).1.allowed ≡ true
    → length (recent now (l.window * second) (counted key b.counters) ++ now ∷ []) ≤ l.limit
unfolding check increment_counter
check-length l key now b h =
    verdict-le l (length (recent now (l.window * second) (counted key b.counters) ++ now ∷ [])) h

-- The answer lets a request by that does not ask for an exempt path.
abbrev pub is_let_by : Option (Bool × Option Headers) → Bool
is_let_by none = false
is_let_by (some (allowed, none)) = false
is_let_by (some (allowed, some h)) = allowed

module _ (hexdigest strip : Text → Text) where
  -- The minute's counter of a client after the windows were asked for one.
  counted-check_windows :
      (c : RateLimitConfig) (j client : Text) (now : ℕ) (m : RateLimiter) (b : Backend)
      → counted (minute_prefix ++ client) (check_windows hexdigest strip c j now m b).0.counters
        ≡ counted
            (minute_prefix ++ client)
            (check m.minute_limiter (minute_prefix ++ j) now b).0.counters
  unfolding check_windows
  counted-check_windows c j client now m b =
      let b1 = (check m.minute_limiter (minute_prefix ++ j) now b).0 in
      let b2 = (check m.hour_limiter (hour_prefix ++ j) now b1).0 in
      let hour =
        counted-check_other m.hour_limiter (hour_prefix ++ j) (minute_prefix ++ client) now b1
          refl in
      let daily =
        counted-check_other m.day_limiter (day_prefix ++ j) (minute_prefix ++ client) now b2 refl in
      elim (Bool-cases (check m.minute_limiter (minute_prefix ++ j) now b).1.allowed) [
        | inr off ↦ rw off refl
        | inl on ↦ elim (Bool-cases (check m.hour_limiter (hour_prefix ++ j) now b1).1.allowed) [
          | inr off ↦ rw (on, off) hour
          | inl on_hour ↦
              elim (Bool-cases (check m.day_limiter (day_prefix ++ j) now b2).1.allowed) [
                | inr off ↦ rw (on, on_hour, off) (daily ∙ hour)
                | inl on_day ↦ rw (on, on_hour, on_day) (daily ∙ hour)
              ]
        ]
      ]

  check_windows-minute :
      (c : RateLimitConfig) (j : Text) (now : ℕ) (m : RateLimiter) (b : Backend)
      → (check_windows hexdigest strip c j now m b).1.0 ≡ true
      → (check m.minute_limiter (minute_prefix ++ j) now b).1.allowed ≡ true
  unfolding check_windows
  check_windows-minute c j now m b h =
      elim (Bool-cases (check m.minute_limiter (minute_prefix ++ j) now b).1.allowed) [
        | inl on ↦ on
        | inr off ↦ ground (arith, rw off at h)
      ]

  -- A request counts once for the minute of its client, and passes only within the limit; or it
  -- counts for nobody, or for another client, and this one is not let by.
  abbrev pub Counted :
      Text → Request → ℕ → RateLimiter → RateLimiter × Option (Bool × Option Headers) → Type 0
  Counted client r now m (m', v) =
      let l = m.minute_limiter in
      let before = counted (minute_prefix ++ client) m.backend.counters in
      let after = counted (minute_prefix ++ client) m'.backend.counters in
      let now_in = recent now (l.window * second) before ++ now ∷ [] in
      (m'.minute_limiter ≡ l)
      × (((after ≡ before)
            × ((is_let_by v && (get_client_key hexdigest strip r == client)) ≡ false))
          ⊎ ((after ≡ now_in) × (is_let_by v ≡ true → length now_in ≤ l.limit)))

  check_windows-Counted :
      (client j : Text) (now : ℕ) (m : RateLimiter) (b : Backend) (before : List ℕ)
      → counted (minute_prefix ++ client) b.counters ≡ before
      → let K = minute_prefix ++ client in
        let l = m.minute_limiter in
        let out = check_windows hexdigest strip m.config j now m b in
        let now_in = recent now (l.window * second) before ++ now ∷ [] in
        ((counted K out.0.counters ≡ before) × ((out.1.0 && (j == client)) ≡ false))
        ⊎ ((counted K out.0.counters ≡ now_in) × (out.1.0 ≡ true → length now_in ≤ l.limit))
  check_windows-Counted client j now m b before is =
      let K = minute_prefix ++ client in
      let l = m.minute_limiter in
      let grow = λ (times : List ℕ). recent now (l.window * second) times ++ now ∷ [] in
      let e = counted-check_windows m.config j client now m b in
      elim (Bool-cases (j == client)) [
        | inr miss ↦
            inl (
              e ∙ counted-check_other l (minute_prefix ++ j) K now b miss ∙ is,
              ground (arith, miss),
            )
        | inl hit ↦
            let own =
              ap (λ i. counted (minute_prefix ++ i) b.counters) ((text_key.same_iff j client).0 hit)
              ∙ is in
            inr (
              e ∙ counted-check_same l (minute_prefix ++ j) K now b hit ∙ ap grow is,
              λ h.
                  subst (λ times. length (grow times) ≤ l.limit) own
                    (check-length l (minute_prefix ++ j) now b
                      (check_windows-minute m.config j now m b h)),
            )
      ]

  pub check_rate_limit-Counted :
      (client : Text) (r : Request) (now : ℕ) (m : RateLimiter)
      → Counted client r now m (check_rate_limit hexdigest strip r now m)
  unfolding check_rate_limit
  check_rate_limit-Counted client r now m =
      let j = get_client_key hexdigest strip r in
      let K = minute_prefix ++ client in
      let b = (acquire m.token_bucket (bucket_prefix ++ j) 1 now m.backend).0 in
      let counters = acquire-counters m.token_bucket (bucket_prefix ++ j) 1 now m.backend in
      let same = ap (counted K) counters in
      elim (Bool-cases (any (λ exempt. starts_with exempt r.path) m.config.exempt_paths)) [
        | inl exempt ↦ rw exempt (refl, inl (refl, refl))
        | inr strict ↦
            rw strict
              (elim (Option-cases (acquire m.token_bucket (bucket_prefix ++ j) 1 now m.backend).1) [
                | inl raised ↦ rw raised (refl, inl (same, refl))
                | inr (v, answered) ↦ rw answered (elim (Bool-cases v.allowed) [
                  | inr refused ↦ rw refused (refl, inl (same, refl))
                  | inl admitted ↦ rw admitted (
                    refl,
                    check_windows-Counted client j now m b (counted K m.backend.counters) same,
                  )
                ])
              ])
      ]
