-- ===== src/Limits/Requests.antt =====
-- `RateLimiter.check_rate_limit` of src/rra/api/rate_limiter.py.
use rra_module.Prelude.{
  ℕ, ◌+◌, ◌/◌, Bool, true, false, not, Option, none, some, [], ◌∷◌, ◌++◌, Text, text_key, ◌==◌,
  same_number, if◌then◌else◌, take, any,
}
use rra_module.Limits.Backend.{second, Backend}
use rra_module.Limits.Limiters.{acquire, check, starts_with, RateLimitConfig, RateLimiter}

-- What a request shows: a header that is missing is the empty text, as for `headers.get`.
pub record Request : Type 0 where
  pub path : Text
  pub api_key : Text
  pub host : Option Text
  pub forwarded : Text

-- `text.split(",")[0]`
abbrev pub before_comma : Text → Text
before_comma [] = []
before_comma (c ∷ text) = let rest = before_comma text in if same_number c 44 then [] else c ∷ rest

-- "api:", "ip:" and "unknown"
abbrev pub api_prefix : Text
api_prefix = 97 ∷ 112 ∷ 105 ∷ 58 ∷ []

abbrev pub ip_prefix : Text
ip_prefix = 105 ∷ 112 ∷ 58 ∷ []

abbrev pub unknown_host : Text
unknown_host = 117 ∷ 110 ∷ 107 ∷ 110 ∷ 111 ∷ 119 ∷ 110 ∷ []

-- "bucket:", "minute:", "hour:" and "day:"
abbrev pub bucket_prefix : Text
bucket_prefix = 98 ∷ 117 ∷ 99 ∷ 107 ∷ 101 ∷ 116 ∷ 58 ∷ []

abbrev pub minute_prefix : Text
minute_prefix = 109 ∷ 105 ∷ 110 ∷ 117 ∷ 116 ∷ 101 ∷ 58 ∷ []

abbrev pub hour_prefix : Text
hour_prefix = 104 ∷ 111 ∷ 117 ∷ 114 ∷ 58 ∷ []

abbrev pub day_prefix : Text
day_prefix = 100 ∷ 97 ∷ 121 ∷ 58 ∷ []

-- The numbers that the headers print. The last is missing where the request passes.
pub record Headers : Type 0 where
  pub limit : ℕ
  pub remaining : ℕ
  pub reset : ℕ
  pub retry_after : Option ℕ

abbrev pub refused : ℕ → ℕ → ℕ → Headers
unfolding second
refused limit retry now = record {
  limit = limit;
  remaining = 0;
  reset = now / second + retry;
  retry_after = some retry;
}

-- `hexdigest` is that of SHA-256, `strip` the method of str.
module _ (hexdigest strip : Text → Text) where
  unfoldable pub get_client_key : Request → Text
  get_client_key r =
      if not (r.api_key == [])
      then api_prefix ++ take 16 (hexdigest r.api_key)
      else ip_prefix
        ++ (if not (r.forwarded == [])
            then strip (before_comma r.forwarded)
            else elim r.host [ none ↦ unknown_host | some ip ↦ ip ])

  -- The checks behind the token bucket.
  unfoldable pub check_windows :
      RateLimitConfig → Text → ℕ → RateLimiter → Backend → Backend × (Bool × Headers)
  unfolding second check
  check_windows c client now m b =
      let (b_minute, minute) = check m.minute_limiter (minute_prefix ++ client) now b in
      let (b_hour, hour) = check m.hour_limiter (hour_prefix ++ client) now b_minute in
      let (b_day, daily) = check m.day_limiter (day_prefix ++ client) now b_hour in
      if not minute.allowed
      then (b_minute, (false, refused c.requests_per_minute minute.retry_after now))
      else if not hour.allowed
      then (b_hour, (false, refused c.requests_per_hour hour.retry_after now))
      else if not daily.allowed
      then (b_day, (false, refused c.requests_per_day daily.retry_after now))
      else (
        b_day,
        (
          true,
          record {
            limit = c.requests_per_minute;
            remaining = minute.remaining;
            reset = now / second + 60;
            retry_after = none;
          },
        ),
      )

  -- Without headers for an exempt path; `none` where the token bucket raises.
  unfoldable pub check_rate_limit :
      Request → ℕ → RateLimiter → RateLimiter × Option (Bool × Option Headers)
  unfolding acquire get_client_key check_windows
  check_rate_limit r now m =
      if any (λ exempt. starts_with exempt r.path) m.config.exempt_paths
      then (m, some (true, none))
      else let client = get_client_key r in
        let (b, bucket) = acquire m.token_bucket (bucket_prefix ++ client) 1 now m.backend in
        let (b', answer) = check_windows m.config client now m b in
        elim bucket [
          | none ↦ (record m { backend = b }, none)
          | some v ↦
              if not v.allowed
              then (
                record m { backend = b },
                some (false, some (refused m.config.burst_size v.retry_after now)),
              )
              else (record m { backend = b' }, some (answer.0, some answer.1))
        ]
