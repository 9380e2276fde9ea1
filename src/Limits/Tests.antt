-- ===== src/Limits/Tests.antt =====
-- The limiters at a few requests of two clients, and the theorems at them.
use rra_module.Prelude.{
  ℕ, ◌+◌, ◌*◌, ◌≤◌, ◌≡◌, refl, ap, Option, true, false, none, some, List, [], ◌∷◌, arith, Text,
}
use rra_module.Limits.Backend.{
  second, day, Backend, new_backend, get_tokens, set_tokens, increment_counter, cleanup,
}
use rra_module.Limits.Limiters.{
  Verdict, TokenBucketLimiter, SlidingWindowLimiter, RateLimitConfig, RateLimiter, tokens_to_add,
  current_tokens, acquire, check, new_limiter,
}
use rra_module.Limits.Requests.{Request, get_client_key, check_windows, check_rate_limit}
use rra_module.Limits.Window.{
  Event, request, clean, run, ideal_run, let_through, run-ideal_run, run-let_through,
}
use rra_module.Limits.Minute.{let_in, let_in-new_limiter}
use rra_module.Limits.Bucket.{Passes, acquire-retry}
use rra_module.Limits.Burst.{granted, granted-new_backend}

abbrev ann : Text
ann = 97 ∷ []

abbrev bob : Text
bob = 98 ∷ []

abbrev two_a_minute : SlidingWindowLimiter
two_a_minute = record { limit = 2; window = 60 }

-- Ann asks three times within a minute, and once more when the first time is out of the window.
abbrev events : List Event
events =
    request ann 1000000
    ∷ request ann 2000000
    ∷ request bob 3000000
    ∷ request ann 4000000
    ∷ clean 5000000
    ∷ request ann 62500000
    ∷ []

abbrev answers : List Verdict
answers =
    record { allowed = true; remaining = 1; retry_after = 0 }
    ∷ record { allowed = true; remaining = 0; retry_after = 0 }
    ∷ record { allowed = true; remaining = 1; retry_after = 0 }
    ∷ record { allowed = false; remaining = 0; retry_after = 60 }
    ∷ record { allowed = true; remaining = 0; retry_after = 0 }
    ∷ []

events_answered : run two_a_minute events new_backend ≡ answers
unfolding run second day new_backend increment_counter check cleanup
events_answered = refl

run-ideal_run_example : run two_a_minute events new_backend ≡ ideal_run two_a_minute events []
run-ideal_run_example = run-ideal_run two_a_minute events (omega arith) (omega arith)

run-let_through_example :
    let_through (60 * second) ann 4000000 events (run two_a_minute events new_backend) ≤ 2
run-let_through_example =
    run-let_through two_a_minute ann 4000000 events (omega arith) (omega arith)

-- A token a second, and two at most.
abbrev bucket : TokenBucketLimiter
bucket = record { requests_per_minute = 60; bucket_size = 2 }

abbrev spent : Backend
spent = record { tokens = (ann, (0, 1000000)) ∷ []; counters = [] }

spent_by_two : (acquire bucket ann 1 1000000 (acquire bucket ann 1 1000000 new_backend).0).0 ≡ spent
unfolding second new_backend get_tokens set_tokens tokens_to_add current_tokens acquire
spent_by_two = refl

abbrev refusal : Verdict
refusal = record { allowed = false; remaining = 0; retry_after = 2 }

refused_then : acquire bucket ann 1 1500000 spent ≡ (spent, some refusal)
unfolding second get_tokens set_tokens tokens_to_add current_tokens acquire
refused_then = refl

acquire-retry_example :
    Passes (acquire bucket ann 1 3500000 (acquire bucket ann 1 1500000 spent).0).1
unfolding second get_tokens
acquire-retry_example =
    acquire-retry bucket ann 1 1500000 3500000 spent refusal (omega arith) (omega arith)
      (ap (λ (r : Backend × Option Verdict). r.1) refused_then) refl (omega arith)

abbrev requests : List (Text × ℕ)
requests = (ann, 1000000) ∷ (ann, 1000000) ∷ (bob, 1500000) ∷ (ann, 1600000) ∷ (ann, 2000000) ∷ []

three_granted : granted bucket ann requests new_backend ≡ 3
unfolding granted second new_backend get_tokens set_tokens tokens_to_add current_tokens acquire
three_granted = refl

granted-new_backend_example :
    granted bucket ann requests new_backend * (60 * second) ≤ 2 * (60 * second) + 2000000 * 60
granted-new_backend_example =
    granted-new_backend bucket ann 1000000 3000000 requests (omega arith) (omega arith)

abbrev config : RateLimitConfig
config = record {
  requests_per_minute = 60;
  requests_per_hour = 1000;
  requests_per_day = 10000;
  burst_size = 1;
  endpoint_limits = (47 ∷ [], 5) ∷ [];
  exempt_paths = (47 ∷ 100 ∷ []) ∷ [];
}

abbrev configured : RateLimiter
configured = new_limiter config

abbrev asked : Request
asked = record { path = 47 ∷ []; api_key = []; host = some ann; forwarded = [] }

-- The second request, a second later, finds a token again, and 58 of the 60 are left.
asked_twice :
    (check_rate_limit
      (λ t. t)
      (λ t. t)
      asked
      2000000
      (check_rate_limit (λ t. t) (λ t. t) asked 1000000 configured).0).1
    ≡ some (true, some (record { limit = 60; remaining = 58; reset = 62; retry_after = none }))
unfolding second new_backend get_tokens set_tokens increment_counter tokens_to_add current_tokens
    acquire check new_limiter get_client_key check_windows check_rate_limit
asked_twice = refl

-- Of three requests of one client two pass the limits, since the bucket has no token for the second.
abbrev three_asked : List (Request × ℕ)
three_asked = (asked, 1000000) ∷ (asked, 1500000) ∷ (asked, 2000000) ∷ []

two_let_in : let_in (λ t. t) (λ t. t) (105 ∷ 112 ∷ 58 ∷ ann) 2000000 three_asked configured ≡ 2
unfolding let_in second new_backend get_tokens set_tokens increment_counter tokens_to_add
    current_tokens acquire check new_limiter get_client_key check_windows check_rate_limit
two_let_in = refl

let_in-new_limiter_example :
    let_in (λ t. t) (λ t. t) (105 ∷ 112 ∷ 58 ∷ ann) 2000000 three_asked (new_limiter config) ≤ 60
let_in-new_limiter_example =
    let_in-new_limiter (λ t. t) (λ t. t) (105 ∷ 112 ∷ 58 ∷ ann) 2000000 three_asked config
      (omega arith)
