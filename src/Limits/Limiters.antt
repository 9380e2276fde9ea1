-- ===== src/Limits/Limiters.antt =====
-- The limiters of src/rra/api/rate_limiter.py. Their arithmetic on floats is exact here. The SHA-256
-- digest of hashlib is an argument. A request reads the clock once.
use rra_module.Prelude.{
  ℕ, ◌+◌, ◌-◌, ◌*◌, ◌/◌, min, Bool, true, false, not, ◌&&◌, Option, none, some, List, [], ◌∷◌, Text,
  same_number, ltb, leb, if◌then◌else◌,
}
use rra_module.Prelude.Dict.{Dict}
use rra_module.Limits.Backend.{
  second, Backend, new_backend, get_tokens, set_tokens, increment_counter,
}

-- The answer of a limiter: whether the request passes, how many more may, and after how many seconds
-- to try again.
pub record Verdict : Type 0 where
  pub allowed : Bool
  pub remaining : ℕ
  pub retry_after : ℕ

-- `rate` is `requests_per_minute / 60.0`.
pub record TokenBucketLimiter : Type 0 where
  pub requests_per_minute : ℕ
  pub bucket_size : ℕ

-- `int(elapsed * self.rate)`
unfoldable pub tokens_to_add : TokenBucketLimiter → ℕ → ℕ
unfolding second
tokens_to_add l elapsed = (elapsed * l.requests_per_minute) / (60 * second)

-- `current_tokens` before the check, as a number of tokens and one that is owed: when the clock was
-- set back, the elapsed time is negative.
unfoldable pub current_tokens : TokenBucketLimiter → ℕ → ℕ × ℕ → ℕ × ℕ
unfolding tokens_to_add
current_tokens l now (tokens, last_update) =
    if not (ltb 0 last_update)
    then (l.bucket_size, 0)
    else if leb last_update now
    then (min l.bucket_size (tokens + tokens_to_add l (now - last_update)), 0)
    else let lost = tokens_to_add l (last_update - now) in
      (min l.bucket_size (tokens - lost), lost - tokens)

-- `none` is the ZeroDivisionError of a rate of zero.
unfoldable pub acquire : TokenBucketLimiter → Text → ℕ → ℕ → Backend → Backend × Option Verdict
unfolding current_tokens get_tokens set_tokens
acquire l key tokens now b =
    let (current, owed) = current_tokens l now (get_tokens key b) in
    if same_number owed 0 && leb tokens current
    then (
      set_tokens key (current - tokens) now b,
      some (record { allowed = true; remaining = current - tokens; retry_after = 0 }),
    )
    else if same_number l.requests_per_minute 0
    then (b, none)
    else (
      b,
      some (record {
        allowed = false;
        remaining = 0;
        retry_after = ((tokens + owed - current) * 60) / l.requests_per_minute + 1;
      }),
    )

-- The window is in seconds.
pub record SlidingWindowLimiter : Type 0 where
  pub limit : ℕ
  pub window : ℕ

-- The answer for a count of requests.
abbrev pub verdict : SlidingWindowLimiter → ℕ → Verdict
verdict l count =
    if leb count l.limit
    then record { allowed = true; remaining = l.limit - count; retry_after = 0 }
    else record { allowed = false; remaining = 0; retry_after = l.window }

unfoldable pub check : SlidingWindowLimiter → Text → ℕ → Backend → Backend × Verdict
unfolding increment_counter
check l key now b = let (b', count) = increment_counter key l.window now b in (b', verdict l count)

-- The configuration without the two of Redis.
pub record RateLimitConfig : Type 0 where
  pub requests_per_minute : ℕ
  pub requests_per_hour : ℕ
  pub requests_per_day : ℕ
  pub burst_size : ℕ
  pub endpoint_limits : Dict Text ℕ
  pub exempt_paths : List Text

-- `text.startswith(pattern)`
abbrev pub starts_with : Text → Text → Bool
starts_with pattern [] = elim pattern [ [] ↦ true | _ ↦ false ]
starts_with [] (c ∷ text) = true
starts_with (p ∷ pattern) (c ∷ text) = same_number p c && starts_with pattern text

unfoldable pub get_endpoint_limit : Dict Text ℕ → Text → Option ℕ
get_endpoint_limit [] path = none
get_endpoint_limit ((pattern, limit) ∷ limits) path =
    let rest = get_endpoint_limit limits path in
    if starts_with pattern path then some limit else rest

pub record RateLimiter : Type 0 where
  pub config : RateLimitConfig
  pub backend : Backend
  pub token_bucket : TokenBucketLimiter
  pub minute_limiter : SlidingWindowLimiter
  pub hour_limiter : SlidingWindowLimiter
  pub day_limiter : SlidingWindowLimiter

-- `RateLimiter(config)`
unfoldable pub new_limiter : RateLimitConfig → RateLimiter
unfolding new_backend
new_limiter c = record {
  config = c;
  backend = new_backend;
  token_bucket = record { requests_per_minute = c.requests_per_minute; bucket_size = c.burst_size };
  minute_limiter = record { limit = c.requests_per_minute; window = 60 };
  hour_limiter = record { limit = c.requests_per_hour; window = 3600 };
  day_limiter = record { limit = c.requests_per_day; window = 86400 };
}
