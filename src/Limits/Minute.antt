-- ===== src/Limits/Minute.antt =====
-- How many requests of a client pass `RateLimiter.check_rate_limit` of src/rra/api/rate_limiter.py in
-- a minute.
use rra_module.Prelude.{
  ℕ, ◌+◌, ◌*◌, ◌≤◌, ◌<◌, ◌≡◌, refl, ◌∙◌, ap, subst, false, ◌&&◌, inl, inr, List, [], ◌∷◌, ◌++◌,
  arith, Text, text_key, ◌==◌, leb, if◌then◌else◌, length, length-append, max, Bool-cases,
}
use rra_module.Limits.Backend.{second, new_backend, counted, recent}
use rra_module.Limits.Limiters.{SlidingWindowLimiter, RateLimitConfig, RateLimiter, new_limiter}
use rra_module.Limits.Requests.{Request, minute_prefix, get_client_key, check_rate_limit}
use rra_module.Limits.Window.{sees}
use rra_module.Limits.Chain.{is_let_by, check_rate_limit-Counted}

-- The times do not decrease.
abbrev pub AreInOrder : ℕ → List (Request × ℕ) → Type 0
AreInOrder now [] = Unit
AreInOrder now ((r, t) ∷ requests) = (now ≤ t) × AreInOrder t requests

-- How many of the times are seen from `end`.
abbrev seen : ℕ → ℕ → List ℕ → ℕ
seen window end [] = 0
seen window end (t ∷ times) = (if sees window end t then 1 else 0) + seen window end times

seen-append :
    (window end : ℕ) (xs ys : List ℕ)
    → seen window end (xs ++ ys) ≡ seen window end xs + seen window end ys
seen-append window end [] ys = omega arith
seen-append window end (x ∷ xs) ys = omega (arith, seen-append window end xs ys)

seen-recent :
    (window end now : ℕ) (times : List ℕ)
    → now ≤ end
    → seen window end (recent now window times) ≡ seen window end times
seen-recent window end now [] h = refl
seen-recent window end now (t ∷ times) h = ground (arith, seen-recent window end now times h)

seen-le_length : (window end : ℕ) (times : List ℕ) → seen window end times ≤ length times
seen-le_length window end [] = omega arith
seen-le_length window end (t ∷ times) = ground (arith, seen-le_length window end times)

-- A counter to which a time was added, after what was out of the window has gone.
seen-counted :
    (window end now : ℕ) (before after : List ℕ)
    → now ≤ end
    → after ≡ recent now window before ++ now ∷ []
    → seen window end after ≡ seen window end before + (if sees window end now then 1 else 0)
seen-counted window end now before after le e =
    let split = seen-append window end (recent now window before) (now ∷ []) in
    let kept = seen-recent window end now before le in ap (seen window end) e ∙ omega arith

seen-lt_limit :
    (window end now limit : ℕ) (before : List ℕ)
    → now ≤ end
    → length (recent now window before ++ now ∷ []) ≤ limit
    → seen window end before < limit
seen-lt_limit window end now limit before le fits =
    let longer = length-append (recent now window before) (now ∷ []) in
    let kept = seen-recent window end now before le in
    let short = seen-le_length window end (recent now window before) in omega arith

module _ (hexdigest strip : Text → Text) (client : Text) (end : ℕ) where
  -- How many requests of the client, at times in the minute up to `end`, pass the limits.
  unfoldable pub let_in : List (Request × ℕ) → RateLimiter → ℕ
  let_in [] m = 0
  let_in ((r, now) ∷ requests) m =
      let rest = let_in requests (check_rate_limit hexdigest strip r now m).0 in
      (if (is_let_by (check_rate_limit hexdigest strip r now m).1
            && (get_client_key hexdigest strip r == client))
          && sees (60 * second) end now
        then 1
        else 0)
      + rest

  let_in-late :
      (now : ℕ) (requests : List (Request × ℕ)) (m : RateLimiter)
      → end < now
      → AreInOrder now requests
      → let_in requests m ≡ 0
  unfolding let_in
  let_in-late now [] m late h = refl
  let_in-late now ((r, t) ∷ requests) m late h =
      let rest =
        let_in-late t requests (check_rate_limit hexdigest strip r t m).0 (omega arith) h.1 in
      let unseen : sees (60 * second) end t ≡ false = ground arith in ground (arith, rest, unseen)

  let_in-seen :
      (l : SlidingWindowLimiter) (now : ℕ) (requests : List (Request × ℕ)) (m : RateLimiter)
      → m.minute_limiter ≡ l
      → l.window ≡ 60
      → AreInOrder now requests
      → seen (60 * second) end (counted (minute_prefix ++ client) m.backend.counters)
          + let_in requests m
        ≤ max l.limit
            (seen (60 * second) end (counted (minute_prefix ++ client) m.backend.counters))
  unfolding let_in
  let_in-seen l now [] m e w h = ground arith
  let_in-seen l now ((r, t) ∷ requests) m e w h =
      let m' = (check_rate_limit hexdigest strip r t m).0 in
      let v = (check_rate_limit hexdigest strip r t m).1 in
      let (frame, cases) = check_rate_limit-Counted hexdigest strip client r t m in
      let rest = let_in-seen l t requests m' (frame ∙ e) w h.1 in
      elim (Bool-cases (leb t end)) [
        | inr late ↦
            let none_in =
              let_in-late t ((r, t) ∷ requests) m (ground (arith, late)) (omega arith, h.1) in
            omega (arith, none_in)
        | inl early ↦ elim cases [
          | inl (same, unpassed) ↦ ground (arith, unpassed, rest, ap (seen (60 * second) end) same)
          | inr (more, fits) ↦
              let before = counted (minute_prefix ++ client) m.backend.counters in
              let after = counted (minute_prefix ++ client) m'.backend.counters in
              let wide : m.minute_limiter.window ≡ 60 =
                ap (λ (x : SlidingWindowLimiter). x.window) e ∙ w in
              let le : t ≤ end = ground (arith, early) in
              let grown =
                seen-counted (60 * second) end t before after le
                  (more ∙ ap (λ n. recent t (n * second) before ++ t ∷ []) wide) in
              elim (Bool-cases (is_let_by v)) [
                | inr stopped ↦ ground (arith, stopped, rest, grown)
                | inl passed ↦
                    let limit_is : m.minute_limiter.limit ≡ l.limit =
                      ap (λ (x : SlidingWindowLimiter). x.limit) e in
                    let low = seen-lt_limit (60 * second) end t m.minute_limiter.limit before le (
                      subst
                        (λ n.
                          length (recent t (n * second) before ++ t ∷ []) ≤ m.minute_limiter.limit)
                        wide (fits passed)) in
                    ground (arith, passed, rest, grown, low, limit_is)
              ]
        ]
      ]

-- Over any run of requests to a new limiter, at times that do not decrease, at most
-- requests_per_minute requests of one client that are not for an exempt path pass in any
-- minute, whatever the token bucket, the other windows and the other clients do.
pub let_in-new_limiter :
    (hexdigest strip : Text → Text) (client : Text) (end : ℕ) (requests : List (Request × ℕ))
    (c : RateLimitConfig)
    → AreInOrder 0 requests
    → let_in hexdigest strip client end requests (new_limiter c) ≤ c.requests_per_minute
unfolding new_limiter new_backend
let_in-new_limiter hexdigest strip client end requests c h =
    let bound =
      let_in-seen hexdigest strip client end (record { limit = c.requests_per_minute; window = 60 })
        0 requests (new_limiter c) refl refl h in
    omega (arith, bound)
